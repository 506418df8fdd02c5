-- ===== src/Control/Projects.antt =====
-- slugify and CreateProject of internal/sentryx/control.go.
use crocuta.Prelude.{
  ℕ, ◌+◌, ◌≤◌, ◌≡◌, ◌≢◌, refl, ap, subst, Bool, true, false, not, ◌&&◌, ◌||◌, [], ◌∷◌, ◌++◌, Option,
  none, some, if◌then◌else◌, leb, ◌==◌, Bytes, codes, equal, lookup, insert, AllValues-insert,
  to_lower, trim_space, length, arith, Bool-cases, Option-cases, inl, inr, All,
}
use crocuta.Control.{ControlPlane, ControlProject, ProjectKey, Organization, resolve_org, id_of}
use crocuta.Control.Keys.{HasKeys}

pub data ProjectError : Type 0 where
  organization_not_found slug_required project_exists : ProjectError

pub data Created : Type 0 where
  created : ControlPlane → ControlProject → Created
  refused : ProjectError → Created

unfoldable pub is_slug_byte : ℕ → Bool
is_slug_byte c = (leb b'a' c && leb c b'z') || (leb b'0' c && leb c b'9') || c == b'-'

-- The builder's text: a byte of another kind is a dash, where something stands before it.
unfoldable pub slug_bytes : Bool → Bytes → Bytes
slug_bytes begun [] = []
slug_bytes begun (c ∷ cs) =
    let rest = slug_bytes begun cs in
    let after = slug_bytes true cs in
    if is_slug_byte c then c ∷ after else (if begun then b'-' ∷ after else rest)

-- strings.Trim(s, "-")
unfoldable pub trim_left_dashes : Bytes → Bytes
trim_left_dashes [] = []
trim_left_dashes (c ∷ cs) = let rest = trim_left_dashes cs in if c == b'-' then rest else c ∷ cs

abbrev pub onto_trimmed : ℕ → Bytes → Bytes
onto_trimmed c [] = if c == b'-' then [] else c ∷ []
onto_trimmed c (d ∷ ds) = c ∷ d ∷ ds

unfoldable pub trim_right_dashes : Bytes → Bytes
trim_right_dashes [] = []
trim_right_dashes (c ∷ cs) = onto_trimmed c (trim_right_dashes cs)

unfoldable pub slugify : Bytes → Bytes
slugify value =
    trim_right_dashes (trim_left_dashes (slug_bytes false (to_lower (trim_space value))))

abbrev pub slug_id : Option Bytes → Bytes
slug_id none = []
slug_id (some id) = id

abbrev pub slug_key : Organization → Bytes → Bytes
slug_key org slug = org.id ++ (b':' ∷ to_lower slug)

-- The tables with a project and its first key.
abbrev pub with_project : ControlPlane → Organization → Bytes → Bytes → Bytes → Created
with_project m org name slug platform =
    let id = id_of (m.next + 1) in
    let public = codes "public-" ++ id in
    let project : ControlProject = record {
      id = id;
      organization_id = org.id;
      slug = slug;
      name = name;
      platform = platform;
    } in
    let key : ProjectKey = record {
      id = id_of (m.next + 1 + 1);
      name = codes "Default";
      public = public;
      secret = [];
      dsn = codes "http://" ++ public ++ codes "@localhost/" ++ id;
      project_id = id;
    } in
    created
      (record m {
        projects = insert id project m.projects;
        project_by_slug = insert (slug_key org slug) id m.project_by_slug;
        keys = insert id (key ∷ []) m.keys;
        next = m.next + 1 + 1;
      })
      project

unfoldable pub create_in : ControlPlane → Organization → Bytes → Bytes → Bytes → Created
create_in m org name slug platform =
    let slug' = if equal slug [] then slugify name else slug in
    let name' = if equal name [] then slug' else name in
    if equal slug' []
    then refused slug_required
    else if not (equal (slug_id (lookup (slug_key org slug') m.project_by_slug)) [])
    then refused project_exists
    else with_project m org name' slug' platform

unfoldable pub create_project : ControlPlane → Bytes → Bytes → Bytes → Bytes → Created
create_project m org_ref name slug platform = elim (resolve_org m org_ref) [
  | none ↦ refused organization_not_found
  | some org ↦ create_in m org name slug platform
]

dash-is_slug_byte : is_slug_byte b'-' ≡ true
unfolding is_slug_byte
dash-is_slug_byte = refl

All-slug_bytes : (begun : Bool) (s : Bytes) → All (λ c. is_slug_byte c ≡ true) (slug_bytes begun s)
unfolding slug_bytes
All-slug_bytes begun [] = tt
All-slug_bytes true (c ∷ cs) = elim (Bool-cases (is_slug_byte c)) [
  | inl kept ↦ rw kept (kept, All-slug_bytes true cs)
  | inr other ↦ rw other (dash-is_slug_byte, All-slug_bytes true cs)
]
All-slug_bytes false (c ∷ cs) = elim (Bool-cases (is_slug_byte c)) [
  | inl kept ↦ rw kept (kept, All-slug_bytes true cs)
  | inr other ↦ rw other (All-slug_bytes false cs)
]

All-trim_left_dashes : (P : ℕ → Type 0) (s : Bytes) → All P s → All P (trim_left_dashes s)
unfolding trim_left_dashes
All-trim_left_dashes P [] h = tt
All-trim_left_dashes P (c ∷ cs) h = elim (Bool-cases (c == b'-')) [
  | inl dash ↦ rw dash (All-trim_left_dashes P cs h.1)
  | inr other ↦ rw other h
]

All-onto_trimmed : (P : ℕ → Type 0) (c : ℕ) (s : Bytes) → P c → All P s → All P (onto_trimmed c s)
All-onto_trimmed P c [] p h = elim (Bool-cases (c == b'-')) [
  | inl dash ↦ rw dash tt
  | inr other ↦ rw other (p, tt)
]
All-onto_trimmed P c (d ∷ ds) p h = (p, h)

All-trim_right_dashes : (P : ℕ → Type 0) (s : Bytes) → All P s → All P (trim_right_dashes s)
unfolding trim_right_dashes
All-trim_right_dashes P [] h = tt
All-trim_right_dashes P (c ∷ cs) h =
    All-onto_trimmed P c (trim_right_dashes cs) h.0 (All-trim_right_dashes P cs h.1)

-- A slug has only the letters a to z, the digits and dashes.
pub slugify-All : (value : Bytes) → All (λ c. is_slug_byte c ≡ true) (slugify value)
unfolding slugify
slugify-All value =
    All-trim_right_dashes _ _
      (All-trim_left_dashes _ _ (All-slug_bytes false (to_lower (trim_space value))))

refused-ne-created :
    {f : ProjectError} {m : ControlPlane} {p : ControlProject} → refused f ≢ created m p
refused-ne-created e = cc

created_plane : ControlPlane → Created → ControlPlane
created_plane d (created m project) = m
created_plane d (refused e) = d

-- The plane after the request is the old one or one with the new project's key.
create_in-HasKeys :
    (m : ControlPlane) (org : Organization) (name slug platform : Bytes)
    → HasKeys m
    → HasKeys (created_plane m (create_in m org name slug platform))
unfolding create_in created_plane
create_in-HasKeys m org name slug platform h =
    let slug' = if equal slug [] then slugify name else slug in
    elim (Bool-cases (equal slug' [])) [
      | inl empty ↦ rw empty h
      | inr given ↦
          elim (Bool-cases
            (not (equal (slug_id (lookup (slug_key org slug') m.project_by_slug)) []))) [
              | inl taken ↦ rw (given, taken) h
              | inr free ↦
                  rw (given, free)
                    (AllValues-insert (λ keys. 1 ≤ length keys) (id_of (m.next + 1)) _ m.keys
                      (omega arith) h)
            ]
    ]

-- Where every project with keys has at least one, so it is after a request for a project that succeeds.
pub create_project-HasKeys :
    (m after : ControlPlane) (org_ref name slug platform : Bytes) (project : ControlProject)
    → HasKeys m
    → create_project m org_ref name slug platform ≡ created after project
    → HasKeys after
unfolding create_project created_plane
create_project-HasKeys m after org_ref name slug platform project h e =
    elim (Option-cases (resolve_org m org_ref)) [
      | inl absent ↦ absurd (refused-ne-created (rw (absent, create_project) at e))
      | inr (org, there) ↦
          let made : create_in m org name slug platform ≡ created after project =
            rw (there, create_project) at e in
          subst HasKeys (ap (created_plane m) made) (create_in-HasKeys m org name slug platform h)
    ]

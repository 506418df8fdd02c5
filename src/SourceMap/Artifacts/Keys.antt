-- ===== src/SourceMap/Artifacts/Keys.antt =====
-- The keys of the artifact table of internal/sentryx/sourcemap.go, and the artifacts that they stand for.
use crocuta.Prelude.{
  ◌≡◌, refl, ap, Bool, true, false, ◌&&◌, List, [], ◌∷◌, ◌++◌, Bytes, equal, equal_iff, All, map,
  if◌then◌else◌, ◌==◌, arith,
}
use crocuta.SourceMap.Artifacts.{
  Paths, is_nil, is_shorter, keys_for, normalize_artifact_name, artifact_key, artifact_candidates,
}

-- What a source map is stored for.
pub record ArtifactId : Type 0 where
  pub project : Bytes
  pub release : Bytes
  pub dist : Bytes
  pub name : Bytes

-- A text without a zero byte.
abbrev pub IsPlain : Bytes → Type 0
IsPlain s = All (λ c. (c == 0) ≡ false) s

abbrev pub IsPlainId : ArtifactId → Type 0
IsPlainId id = IsPlain id.project × IsPlain id.release × IsPlain id.dist

abbrev pub key_text : ArtifactId → Bytes
key_text id = id.project ++ (0 ∷ (id.release ++ (0 ∷ (id.dist ++ (0 ∷ id.name)))))

abbrev pub same_id : ArtifactId → ArtifactId → Bool
same_id a b =
    equal a.project b.project
    && equal a.release b.release
    && equal a.dist b.dist
    && equal a.name b.name

separate :
    (a b s t : Bytes) → IsPlain a → IsPlain b → a ++ (0 ∷ s) ≡ b ++ (0 ∷ t) → (a ≡ b) × (s ≡ t)
separate [] [] s t p q e = (refl, cc)
separate [] (c ∷ b) s t p q e = absurd (ground arith)
separate (c ∷ a) [] s t p q e = absurd (ground arith)
separate (c ∷ a) (d ∷ b) s t p q e =
    let head : c ≡ d = cc in
    let tail : a ++ (0 ∷ s) ≡ b ++ (0 ∷ t) = cc in
    let (same, rest) = separate a b s t p.1 q.1 tail in (cc, rest)

both_ways : (b c : Bool) → (b ≡ true → c ≡ true) → (c ≡ true → b ≡ true) → b ≡ c
both_ways b c f g = ground arith

same_id-key_text :
    (a b : ArtifactId) → IsPlainId a → IsPlainId b → key_text a ≡ key_text b → same_id a b ≡ true
same_id-key_text a b (p, r, d) (q, s, f) e =
    let (project, after_project) = separate a.project b.project _ _ p q e in
    let (release, after_release) = separate a.release b.release _ _ r s after_project in
    let (dist, name) = separate a.dist b.dist _ _ d f after_release in
    ground (
      arith,
      equal_iff a.project b.project,
      equal_iff a.release b.release,
      equal_iff a.dist b.dist,
      equal_iff a.name b.name,
      project,
      release,
      dist,
      name,
    )

key_text-same_id : (a b : ArtifactId) → same_id a b ≡ true → key_text a ≡ key_text b
key_text-same_id a b e =
    let project : a.project ≡ b.project = (equal_iff a.project b.project).0 (ground arith) in
    let release : a.release ≡ b.release = (equal_iff a.release b.release).0 (ground arith) in
    let dist : a.dist ≡ b.dist = (equal_iff a.dist b.dist).0 (ground arith) in
    let name : a.name ≡ b.name = (equal_iff a.name b.name).0 (ground arith) in
    rw (project, release, dist, name) refl

pub equal-key_text :
    (a b : ArtifactId) → IsPlainId a → IsPlainId b → equal (key_text a) (key_text b) ≡ same_id a b
equal-key_text a b p q =
    both_ways _ _ (λ h. same_id-key_text a b p q ((equal_iff (key_text a) (key_text b)).0 h))
      (λ h. (equal_iff (key_text a) (key_text b)).1 (key_text-same_id a b h))

map-append-keys :
    (ids more : List ArtifactId)
    → map key_text (ids ++ more) ≡ map key_text ids ++ map key_text more
map-append-keys [] more = refl
map-append-keys (a ∷ ids) more =
    ap (λ (ks : List Bytes). key_text a ∷ ks) (map-append-keys ids more)

append_keys :
    (ks ls : List Bytes) (ids more : List ArtifactId)
    → ks ≡ map key_text ids
    → ls ≡ map key_text more
    → ks ++ ls ≡ map key_text (ids ++ more)
append_keys ks ls ids more e f = rw (e, f, map-append-keys ids more) refl

module _ (paths : Paths) where
  -- The artifact that a name stands for.
  abbrev pub id_for : Bytes → Bytes → Bytes → Bytes → ArtifactId
  id_for project release dist name = record {
    project = project;
    release = release;
    dist = dist;
    name = normalize_artifact_name paths name;
  }

  abbrev pub places_for : Bytes → Bytes → Bytes → Bytes → List ArtifactId
  places_for project release dist name =
      id_for project release dist name
      ∷ (if is_nil dist then [] else id_for project release [] name ∷ [])

  -- Where the source map of a file is looked for, in this order.
  abbrev pub places : Bytes → Bytes → Bytes → Bytes → List ArtifactId
  places project release dist filename =
      let name = normalize_artifact_name paths filename in
      places_for project release dist name
      ++ (if is_shorter paths (paths.base name) name
          then places_for project release dist (paths.base name)
          else [])

  keys_for-places_for :
      (project release dist name : Bytes)
      → keys_for paths project release dist name
        ≡ map key_text (places_for project release dist name)
  unfolding artifact_key
  keys_for-places_for project release [] name = refl
  keys_for-places_for project release (c ∷ dist) name = refl

  shorter_keys :
      (project release dist base : Bytes) (b : Bool)
      → (if b then keys_for paths project release dist base else [])
        ≡ map key_text (if b then places_for project release dist base else [])
  shorter_keys project release dist base true = keys_for-places_for project release dist base
  shorter_keys project release dist base false = refl

  pub artifact_candidates-places :
      (project release dist filename : Bytes)
      → artifact_candidates paths project release dist filename
        ≡ map key_text (places project release dist filename)
  unfolding artifact_candidates
  artifact_candidates-places project release dist filename =
      let name : Bytes = normalize_artifact_name paths filename in
      append_keys _ _ (places_for project release dist name)
        (if is_shorter paths (paths.base name) name
          then places_for project release dist (paths.base name)
          else [])
        (keys_for-places_for project release dist name)
        (shorter_keys project release dist (paths.base name)
          (is_shorter paths (paths.base name) name))

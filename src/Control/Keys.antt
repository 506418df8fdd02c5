-- ===== src/Control/Keys.antt =====
-- The keys of a project in internal/sentryx/control.go: what creating and revoking do to them.
use crocuta.Prelude.{
  ℕ, ◌+◌, ◌≤◌, ◌≡◌, ◌≢◌, refl, ap, subst, Bool, true, false, ◌||◌, List, [], ◌∷◌, ◌++◌, some, ◌==◌,
  Bytes, lookup, insert, lookup-insert, AllValues, AllValues-insert, equal, equal_refl, length,
  length-append, arith, Bool-cases, Option-cases, inl, inr,
}
use crocuta.Control.{
  ControlPlane, ProjectKey, ControlProject, Outcome, ok, err, ControlError, Urls, get_project,
  keys_of, has_key, has_public, without_key, new_key, create_project_key, revoke_in,
  revoke_project_key, valid_project_key,
}

-- Every project in the table of keys has a key.
abbrev pub HasKeys : ControlPlane → Type 0
HasKeys m = AllValues (λ keys. 1 ≤ length keys) m.keys

length-without_key :
    (key_id : Bytes) (keys : List ProjectKey)
    → has_key key_id keys ≡ true
    → length (without_key key_id keys) + 1 ≡ length keys
length-without_key key_id [] h = cc
length-without_key key_id (key ∷ keys) h = ground (arith, length-without_key key_id keys)

ok-injective : {a b : ControlPlane} → ok a ≡ ok b → a ≡ b
ok-injective {a} e = ap (plane_of a) e
  where
    plane_of : ControlPlane → Outcome ControlPlane → ControlPlane
    plane_of d (ok m) = m
    plane_of d (err f) = d

left_over : (rest all : ℕ) → rest + 1 ≡ all → (all == 1) ≡ false → 1 ≤ rest
left_over rest all e h = ground arith

err-ne-ok : {f : ControlError} {m : ControlPlane} → err f ≢ ok m
err-ne-ok e = cc

revoke_in-HasKeys :
    (m after : ControlPlane) (project_id key_id : Bytes)
    → HasKeys m
    → revoke_in m project_id key_id ≡ ok after
    → HasKeys after
unfolding revoke_in
revoke_in-HasKeys m after project_id key_id h e =
    let keys : List ProjectKey = keys_of (lookup project_id m.keys) in
    elim (Bool-cases (has_key key_id keys)) [
      | inr missing ↦ absurd (err-ne-ok (rw missing at e))
      | inl there ↦ elim (Bool-cases (length keys == 1)) [
        | inl only ↦ absurd (err-ne-ok (rw (there, only) at e))
        | inr many ↦
            let same : record m { keys = insert project_id (without_key key_id keys) m.keys }
                ≡ after =
              ok-injective (rw (there, many) at e) in
            let enough : 1 ≤ length (without_key key_id keys) =
              left_over (length (without_key key_id keys)) (length keys)
                (length-without_key key_id keys there) many in
            subst HasKeys same (
              AllValues-insert (λ ks. 1 ≤ length ks) project_id (without_key key_id keys) m.keys
                enough h)
      ]
    ]

-- Where every project with keys has at least one, a key that is revoked leaves each of them at least one.
pub revoke_project_key-HasKeys :
    (m after : ControlPlane) (org_ref project_ref key_id : Bytes)
    → HasKeys m
    → revoke_project_key m org_ref project_ref key_id ≡ ok after
    → HasKeys after
unfolding revoke_project_key
revoke_project_key-HasKeys m after org_ref project_ref key_id h e =
    elim (Option-cases (get_project m org_ref project_ref)) [
      | inl none_found ↦ absurd (err-ne-ok (rw (none_found, revoke_project_key) at e))
      | inr (project, found) ↦
          revoke_in-HasKeys m after project.id key_id h (rw (found, revoke_project_key) at e)
    ]

has_public-append :
    (public_key : Bytes) (keys more : List ProjectKey)
    → has_public public_key (keys ++ more)
      ≡ (has_public public_key keys || has_public public_key more)
has_public-append public_key [] more = refl
has_public-append public_key (key ∷ keys) more =
    ground (arith, has_public-append public_key keys more)

created-HasKeys :
    (urls : Urls) (m : ControlPlane) (project : ControlProject) (key : ProjectKey)
    → HasKeys m
    → HasKeys (record m {
      keys = insert project.id (keys_of (lookup project.id m.keys) ++ (key ∷ [])) m.keys;
      next = m.next + 1;
    })
created-HasKeys urls m project key h =
    AllValues-insert (λ ks. 1 ≤ length ks) project.id _ m.keys
      (omega (arith, length-append (keys_of (lookup project.id m.keys)) (key ∷ []))) h

or_last : (b c : Bool) → (b || (c || false)) ≡ (b || c)
or_last b c = ground arith

-- For a project that is found a key is created. The valid keys of the project are then those that were
-- among its keys before, and the new one; and every project with keys has one still.
pub create_project_key-valid :
    (urls : Urls) (m : ControlPlane) (org_ref project_ref name random secret public_key : Bytes)
    (project : ControlProject)
    → HasKeys m
    → get_project m org_ref project_ref ≡ some project
    → (after : ControlPlane) × (key : ProjectKey) × (create_project_key urls m org_ref project_ref
          name random secret
        ≡ ok (after, key))
      × (valid_project_key after project.id public_key ≡ (
          has_public public_key (keys_of (lookup project.id m.keys))
          || equal key.public public_key))
      × HasKeys after
unfolding create_project_key valid_project_key
create_project_key-valid urls m org_ref project_ref name random secret public_key project h found =
    let key : ProjectKey = new_key urls m project name random secret in
    let before : List ProjectKey = keys_of (lookup project.id m.keys) in
    (
      record m { keys = insert project.id (before ++ (key ∷ [])) m.keys; next = m.next + 1 },
      key,
      rw (found, create_project_key) refl,
      rw
          (
            lookup-insert project.id project.id (before ++ (key ∷ [])) m.keys,
            equal_refl project.id,
            has_public-append public_key before (key ∷ []),
          )
          (or_last (has_public public_key before) (equal key.public public_key)),
      created-HasKeys urls m project key h,
    )

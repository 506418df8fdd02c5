-- ===== src/SourceMap/Artifacts/Tables.antt =====
-- The table of ArtifactStore of internal/sentryx/sourcemap.go against the abstract store.
use crocuta.Prelude.{
  ◌≡◌, refl, ◌∙◌, Bool, false, ◌||◌, List, [], ◌∷◌, none, if◌then◌else◌, Bytes, equal, equal_iff,
  Dict, lookup, insert, delete, lookup-insert, lookup-delete, All, map, Option-cases, inl, inr,
  arith,
}
use crocuta.SourceMap.Position.{SourceMap}
use crocuta.SourceMap.Artifacts.{is_kept_map, delete_all, first_map}
use crocuta.SourceMap.Artifacts.Keys.{ArtifactId, IsPlainId, key_text, equal-key_text}
use crocuta.SourceMap.Artifacts.Spec.{View, is_among, any_map, first_view, put_view, drop_view}

abbrev pub any_key : List Bytes → Dict SourceMap → Bool
any_key [] m = false
any_key (k ∷ ks) m = is_kept_map (lookup k m) || any_key ks m

abbrev pub is_key : Bytes → List Bytes → Bool
is_key j [] = false
is_key j (k ∷ ks) = equal k j || is_key j ks

pub delete_all-snd : (ks : List Bytes) (m : Dict SourceMap) → (delete_all ks m).1 ≡ any_key ks m
unfolding delete_all
delete_all-snd [] m = refl
delete_all-snd (k ∷ ks) m = elim (Option-cases (lookup k m)) [
  | inl e ↦ rw e (delete_all-snd ks m)
  | inr (found, e) ↦ rw e refl
]

lookup-delete_all :
    (ks : List Bytes) (m : Dict SourceMap) (j : Bytes)
    → lookup j (delete_all ks m).0 ≡ (if is_key j ks then none else lookup j m)
unfolding delete_all
lookup-delete_all [] m j = refl
lookup-delete_all (k ∷ ks) m j = elim (Option-cases (lookup k m)) [
  | inl e ↦ rw e (lookup-delete_all ks m j ∙ ground (arith, equal_iff k j))
  | inr (found, e) ↦
      rw e (lookup-delete_all ks (delete k m) j ∙ ground (arith, lookup-delete k j m))
]

-- The table of the store holds the abstract store.
abbrev pub Holds : View → Dict SourceMap → Type 0
Holds v m = (id : ArtifactId) → IsPlainId id → lookup (key_text id) m ≡ v id

pub any_key-any_map :
    (ids : List ArtifactId) (v : View) (m : Dict SourceMap)
    → All IsPlainId ids
    → Holds v m
    → any_key (map key_text ids) m ≡ any_map ids v
any_key-any_map [] v m plain h = refl
any_key-any_map (i ∷ ids) v m (p, plain) h = rw (h i p, any_key-any_map ids v m plain h) refl

pub first_map-first_view :
    (ids : List ArtifactId) (v : View) (m : Dict SourceMap)
    → All IsPlainId ids
    → Holds v m
    → first_map (map key_text ids) m ≡ first_view ids v
unfolding first_map
first_map-first_view [] v m plain h = refl
first_map-first_view (i ∷ ids) v m (p, plain) h =
    rw (h i p, first_map-first_view ids v m plain h) refl

is_key-is_among :
    (ids : List ArtifactId) (id : ArtifactId)
    → All IsPlainId ids
    → IsPlainId id
    → is_key (key_text id) (map key_text ids) ≡ is_among id ids
is_key-is_among [] id plain q = refl
is_key-is_among (i ∷ ids) id (p, plain) q =
    rw (equal-key_text i id p q, is_key-is_among ids id plain q) refl

pub Holds-insert :
    (id : ArtifactId) (found : SourceMap) (v : View) (m : Dict SourceMap)
    → IsPlainId id
    → Holds v m
    → Holds (put_view id found v) (insert (key_text id) found m)
Holds-insert id found v m p h q plain =
    lookup-insert (key_text id) (key_text q) found m
    ∙ rw (equal-key_text id q p plain, h q plain) refl

pub Holds-delete_all :
    (ids : List ArtifactId) (v : View) (m : Dict SourceMap)
    → All IsPlainId ids
    → Holds v m
    → Holds (drop_view ids v) (delete_all (map key_text ids) m).0
Holds-delete_all ids v m plain h q p =
    lookup-delete_all (map key_text ids) m (key_text q)
    ∙ rw (is_key-is_among ids q plain p, h q p) refl

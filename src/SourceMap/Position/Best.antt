-- ===== src/SourceMap/Position/Best.antt =====
-- Which mapping a column belongs to.
use crocuta.Prelude.{
  ◌≡◌, refl, Bool, true, not, List, [], ◌∷◌, Option, none, some, arith, All, filter_by, Bool-cases,
  inl, inr,
}
use crocuta.Prelude.Int.{ℤ, ltb_ℤ, leb_ℤ}
use crocuta.SourceMap.Mappings.{SourceMapping}
use crocuta.SourceMap.Position.{best_mapping}

-- A line whose mappings stand in the order of their generated columns.
abbrev pub IsSorted : List SourceMapping → Type 0
IsSorted [] = Unit
IsSorted (m ∷ rest) =
    All (λ n. leb_ℤ m.generated_column n.generated_column ≡ true) rest × IsSorted rest

abbrev pub starts_by : ℤ → SourceMapping → Bool
starts_by column m = not (ltb_ℤ column m.generated_column)

abbrev pub last_or {ℓ} : {A : Type ℓ} → Option A → List A → Option A
last_or b [] = b
last_or b (x ∷ xs) = last_or (some x) xs

none_starts_by :
    (column : ℤ) (m : SourceMapping) (rest : List SourceMapping)
    → ltb_ℤ column m.generated_column ≡ true
    → All (λ n. leb_ℤ m.generated_column n.generated_column ≡ true) rest
    → filter_by (starts_by column) rest ≡ []
none_starts_by column m [] h a = refl
none_starts_by column m (n ∷ rest) h (le, a) =
    let later : ltb_ℤ column n.generated_column ≡ true = ground arith in
    rw later (none_starts_by column m rest h a)

best_from :
    (column : ℤ) (best : Option SourceMapping) (line : List SourceMapping)
    → IsSorted line
    → best_mapping column best line ≡ last_or best (filter_by (starts_by column) line)
unfolding best_mapping
best_from column best [] s = refl
best_from column best (m ∷ rest) (a, s) = elim (Bool-cases (ltb_ℤ column m.generated_column)) [
  | inl h ↦ rw (h, none_starts_by column m rest h a)
  | inr h ↦ rw h (best_from column (some m) rest s)
]

-- On a line in the order of generated columns the loop, which stops early, finds the last of all
-- mappings that start at or before the column.
pub best_mapping-last :
    (column : ℤ) (line : List SourceMapping)
    → IsSorted line
    → best_mapping column none line ≡ last_or none (filter_by (starts_by column) line)
best_mapping-last column = best_from column none

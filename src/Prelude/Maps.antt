-- ===== src/Prelude/Maps.antt =====
-- Go maps with string keys, as association lists with one entry to a key. A map's order of
-- iteration is not fixed by the language: here it is the order of first insertion.
use Prim.Native.Nat.{◌+◌, ◌≤◌}
use mathlib.Core.Path.{◌≡◌, refl, subst}
use mathlib.Core.Logic.{inl, inr}
use mathlib.Core.Bool.{Bool}
use mathlib.Core.List.{List, [], ◌∷◌}
use mathlib.Core.Option.{Option, none, some, some-injective}
use native.Mathlib.Omega.{arith}
use crocuta.Prelude.Tests.{if◌then◌else◌, Bool-cases}
use crocuta.Prelude.Lists.{length}
use crocuta.Prelude.Text.{Bytes, equal, equal_iff}

abbrev pub Dict {ℓ} : Type ℓ → Type ℓ
Dict V = List (Bytes × V)

module _ {ℓ} {V : Type ℓ} where
  unfoldable pub lookup : Bytes → Dict V → Option V
  lookup k [] = none
  lookup k ((j, v) ∷ m) = if equal j k then some v else lookup k m

  -- m[k] = v
  unfoldable pub insert : Bytes → V → Dict V → Dict V
  insert k v [] = (k, v) ∷ []
  insert k v ((j, w) ∷ m) = if equal j k then (k, v) ∷ m else (j, w) ∷ insert k v m

  -- delete(m, k)
  unfoldable pub delete : Bytes → Dict V → Dict V
  delete k [] = []
  delete k ((j, v) ∷ m) = let rest = delete k m in if equal j k then rest else (j, v) ∷ rest

  -- A loop that deletes the entries whose value fails the test.
  unfoldable pub keep_if : (V → Bool) → Dict V → Dict V
  keep_if p [] = []
  keep_if p ((j, v) ∷ m) = let rest = keep_if p m in if p v then (j, v) ∷ rest else rest

  pub lookup-insert :
      (k j : Bytes) (v : V) (m : Dict V)
      → lookup j (insert k v m) ≡ (if equal k j then some v else lookup j m)
  unfolding lookup insert
  lookup-insert k j v [] = refl
  lookup-insert k j v ((i, w) ∷ m) =
      ground (arith, equal_iff k j, equal_iff i k, equal_iff i j, lookup-insert k j v m)

  pub lookup-delete :
      (k j : Bytes) (m : Dict V) → lookup j (delete k m) ≡ (if equal k j then none else lookup j m)
  unfolding lookup delete
  lookup-delete k j [] = ground arith
  lookup-delete k j ((i, w) ∷ m) =
      ground (arith, equal_iff k j, equal_iff i k, equal_iff i j, lookup-delete k j m)

  pub length-insert-le : (k : Bytes) (v : V) (m : Dict V) → length (insert k v m) ≤ length m + 1
  unfolding insert
  length-insert-le k v [] = omega arith
  length-insert-le k v ((j, w) ∷ m) = ground (arith, length-insert-le k v m)

  pub length-insert_new :
      (k : Bytes) (v : V) (m : Dict V) → lookup k m ≡ none → length (insert k v m) ≡ length m + 1
  unfolding lookup insert
  length-insert_new k v [] e = omega arith
  length-insert_new k v ((j, w) ∷ m) e = ground (arith, length-insert_new k v m)

  pub length-le-insert : (k : Bytes) (v : V) (m : Dict V) → length m ≤ length (insert k v m)
  unfolding insert
  length-le-insert k v [] = omega arith
  length-le-insert k v ((j, w) ∷ m) = ground (arith, length-le-insert k v m)

  pub length-keep_if-le : (p : V → Bool) (m : Dict V) → length (keep_if p m) ≤ length m
  unfolding keep_if
  length-keep_if-le p [] = omega arith
  length-keep_if-le p ((j, w) ∷ m) = ground (arith, length-keep_if-le p m)

-- A predicate on the values of a map.
abbrev pub AllValues {ℓ κ} : {V : Type ℓ} → (V → Type κ) → Dict V → Type κ
AllValues P [] = Unit
AllValues P ((j, v) ∷ m) = P v × AllValues P m

module _ {ℓ κ} {V : Type ℓ} (P : V → Type κ) where
  pub AllValues-insert :
      (k : Bytes) (v : V) (m : Dict V) → P v → AllValues P m → AllValues P (insert k v m)
  unfolding insert
  AllValues-insert k v [] h a = (h, a)
  AllValues-insert k v ((j, w) ∷ m) h a = ground (arith, AllValues-insert k v m h a.1)

  pub AllValues-keep_if : (p : V → Bool) (m : Dict V) → AllValues P m → AllValues P (keep_if p m)
  unfolding keep_if
  AllValues-keep_if p [] a = a
  AllValues-keep_if p ((j, w) ∷ m) a = ground (arith, AllValues-keep_if p m a.1)

  pub AllValues-lookup :
      (k : Bytes) (m : Dict V) {v : V} → AllValues P m → lookup k m ≡ some v → P v
  unfolding lookup
  AllValues-lookup k [] a e = cc
  AllValues-lookup k ((j, w) ∷ m) a e = elim (Bool-cases (equal j k)) [
    | inl hit ↦ subst P (some-injective _ _ (rw hit at e)) a.0
    | inr miss ↦ AllValues-lookup k m a.1 (rw miss at e)
  ]

pub ruleset dict_laws = (lookup-insert, lookup-delete)

-- No key has two entries.
abbrev pub Unique {ℓ} : {V : Type ℓ} → Dict V → Type ℓ
Unique [] = Unit
Unique ((j, v) ∷ m) = (lookup j m ≡ none) × Unique m

-- What a test leaves of the entry of a key.
abbrev pub kept_value {ℓ} : {V : Type ℓ} → (V → Bool) → Option V → Option V
kept_value p none = none
kept_value p (some v) = if p v then some v else none

module _ {ℓ} {V : Type ℓ} where
  lookup-keep_if-none :
      (p : V → Bool) (k : Bytes) (m : Dict V) → lookup k m ≡ none → lookup k (keep_if p m) ≡ none
  unfolding lookup keep_if
  lookup-keep_if-none p k [] e = refl
  lookup-keep_if-none p k ((j, v) ∷ m) e = ground (arith, lookup-keep_if-none p k m)

  pub lookup-keep_if :
      (p : V → Bool) (k : Bytes) (m : Dict V)
      → Unique m
      → lookup k (keep_if p m) ≡ kept_value p (lookup k m)
  unfolding lookup keep_if
  lookup-keep_if p k [] u = refl
  lookup-keep_if p k ((j, v) ∷ m) u =
      ground (arith, equal_iff j k, lookup-keep_if p k m u.1, lookup-keep_if-none p j m u.0)

  pub Unique-keep_if : (p : V → Bool) (m : Dict V) → Unique m → Unique (keep_if p m)
  unfolding keep_if
  Unique-keep_if p [] u = u
  Unique-keep_if p ((j, v) ∷ m) u = elim (Bool-cases (p v)) [
    | inl h ↦ rw h (lookup-keep_if-none p j m u.0, Unique-keep_if p m u.1)
    | inr h ↦ rw h (Unique-keep_if p m u.1)
  ]

  pub Unique-insert : (k : Bytes) (v : V) (m : Dict V) → Unique m → Unique (insert k v m)
  unfolding insert lookup
  Unique-insert k v [] u = (refl, u)
  Unique-insert k v ((j, w) ∷ m) u = elim (Bool-cases (equal j k)) [
    | inl h ↦ rw h (ground (arith, equal_iff j k), u.1)
    | inr h ↦ rw h (
      ground (arith, lookup-insert k j v m, equal_iff k j, equal_iff j k),
      Unique-insert k v m u.1,
    )
  ]

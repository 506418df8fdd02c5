-- ===== src/Query/Sort.antt =====
-- sort.SliceStable, as insertion from the right, and the byte order of Go strings.
use crocuta.Prelude.{
  ◌≡◌, refl, Bool, true, false, ◌||◌, ◌&&◌, List, [], ◌∷◌, if◌then◌else◌, ltb, ◌==◌, Bytes, All,
  arith, Bool-cases, inl, inr,
}

-- a < b on strings
unfoldable pub less_bytes : Bytes → Bytes → Bool
less_bytes a [] = false
less_bytes [] (y ∷ b) = true
less_bytes (x ∷ a) (y ∷ b) = ltb x y || (x == y && less_bytes a b)

pub less_bytes_asymm : (a b : Bytes) → less_bytes a b ≡ true → less_bytes b a ≡ false
unfolding less_bytes
less_bytes_asymm a [] h = cc
less_bytes_asymm [] (y ∷ b) h = refl
less_bytes_asymm (x ∷ a) (y ∷ b) h = ground (arith, less_bytes_asymm a b)

module _ {ℓ} {A : Type ℓ} (less : A → A → Bool) where
  unfoldable pub place : A → List A → List A
  place x [] = x ∷ []
  place x (y ∷ ys) = if less y x then y ∷ place x ys else x ∷ y ∷ ys

  unfoldable pub slice_stable : List A → List A
  unfolding place
  slice_stable [] = []
  slice_stable (x ∷ xs) = place x (slice_stable xs)

-- No entry is less than the one before it.
abbrev pub Ordered {ℓ} : {A : Type ℓ} → (A → A → Bool) → List A → Type 0
Ordered less [] = Unit
Ordered less (x ∷ []) = Unit
Ordered less (x ∷ y ∷ ys) = (less y x ≡ false) × Ordered less (y ∷ ys)

module _ {ℓ} {A : Type ℓ} (less : A → A → Bool)
    (asymm : (x y : A) → less x y ≡ true → less y x ≡ false) where
  Ordered-place : (x : A) (ys : List A) → Ordered less ys → Ordered less (place less x ys)
  unfolding place
  Ordered-place x [] h = tt
  Ordered-place x (y ∷ []) h = elim (Bool-cases (less y x)) [
    | inl before ↦ rw before (asymm y x before, tt)
    | inr after ↦ rw after (after, tt)
  ]
  Ordered-place x (y ∷ z ∷ zs) (le, h) = elim (Bool-cases (less y x)) [
    | inl before ↦ elim (Bool-cases (less z x)) [
      | inl further ↦ rw before (rw further (le, rw further at (Ordered-place x (z ∷ zs) h)))
      | inr here ↦ rw before (rw here (asymm y x before, (here, h)))
    ]
    | inr after ↦ rw after (after, (le, h))
  ]

  pub Ordered-slice_stable : (xs : List A) → Ordered less (slice_stable less xs)
  unfolding slice_stable
  Ordered-slice_stable [] = tt
  Ordered-slice_stable (x ∷ xs) = Ordered-place x (slice_stable less xs) (Ordered-slice_stable xs)

-- No two entries of a list are related.
abbrev pub Apart {ℓ} : {A : Type ℓ} → (A → A → Type 0) → List A → Type 0
Apart R [] = Unit
Apart R (x ∷ xs) = All (R x) xs × Apart R xs

module _ {ℓ} {A : Type ℓ} (less : A → A → Bool) where
  All-place : (P : A → Type 0) (x : A) (ys : List A) → P x → All P ys → All P (place less x ys)
  unfolding place
  All-place P x [] p h = (p, h)
  All-place P x (y ∷ ys) p h = elim (Bool-cases (less y x)) [
    | inl before ↦ rw before (h.0, All-place P x ys p h.1)
    | inr after ↦ rw after (p, h)
  ]

  pub All-slice_stable : (P : A → Type 0) (xs : List A) → All P xs → All P (slice_stable less xs)
  unfolding slice_stable
  All-slice_stable P [] h = h
  All-slice_stable P (x ∷ xs) h =
      All-place P x (slice_stable less xs) h.0 (All-slice_stable P xs h.1)

  module _ (R : A → A → Type 0) (symm : (x y : A) → R x y → R y x) where
    Apart-place : (x : A) (ys : List A) → All (R x) ys → Apart R ys → Apart R (place less x ys)
    unfolding place
    Apart-place x [] h a = (h, a)
    Apart-place x (y ∷ ys) h a = elim (Bool-cases (less y x)) [
      | inl before ↦ rw before (All-place (R y) x ys (symm x y h.0) a.0, Apart-place x ys h.1 a.1)
      | inr after ↦ rw after (h, a)
    ]

    pub Apart-slice_stable : (xs : List A) → Apart R xs → Apart R (slice_stable less xs)
    unfolding slice_stable
    Apart-slice_stable [] a = a
    Apart-slice_stable (x ∷ xs) a =
        Apart-place x (slice_stable less xs) (All-slice_stable (R x) xs a.0)
          (Apart-slice_stable xs a.1)

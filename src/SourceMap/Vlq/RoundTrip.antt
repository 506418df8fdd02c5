-- ===== src/SourceMap/Vlq/RoundTrip.antt =====
-- Decoding against a reference encoder of base64 VLQ numbers.
use native.Mathlib.Nat.{pow-suc, mod-eq_of_lt, div-add-mod}
use native.Mathlib.Numerals.{towards_suc}
use Prim.Native.Nat.{bit_or}
use mathlib.Core.List.{append-nil, append_assoc}
use crocuta.Prelude.{
  ℕ, zero, suc, ◌+◌, ◌*◌, ◌/◌, ◌%◌, ◌^◌, ◌≤◌, ◌<◌, ◌≡◌, refl, ap, ◌∙◌, Bool, true, false, List, [],
  ◌∷◌, ◌++◌, Option, none, some, ltb, ◌==◌, if◌then◌else◌, Bytes, arith, get_or, All, inl, inr,
  Bool-cases,
}
use crocuta.Prelude.Int.{ℤ, pos, negsuc, neg, word}
use crocuta.Prelude.Bits.{bit_or-shift}
use crocuta.SourceMap.Vlq.{
  ok, base64_chars, index_of, shift_left, magnitude, decode_from, decode_vlq,
}

-- The digits of a number in base 32, lowest first; all but the last have the bit 32.
abbrev digits_32 : ℕ → ℕ → List ℕ
digits_32 zero n = n ∷ []
digits_32 (suc fuel) n = if ltb n 32 then n ∷ [] else (n % 32 + 32) ∷ digits_32 fuel (n / 32)

abbrev pub chars : List ℕ → Bytes
chars [] = []
chars (d ∷ ds) = get_or base64_chars d 0 ∷ chars ds

-- The sign is the lowest bit.
abbrev pub pattern_of : ℤ → ℕ
pattern_of (pos n) = 2 * n
pattern_of (negsuc n) = 2 * (n + 1) + 1

-- Thirteen digits hold 64 bits.
unfoldable pub encode : List ℤ → Bytes
encode [] = []
encode (v ∷ vs) = chars (digits_32 13 (pattern_of v)) ++ encode vs

abbrev Small : ℤ → Type 0
Small (pos n) = n < 4611686018427387904
Small (negsuc n) = n + 1 < 4611686018427387904

abbrev found_at : ℕ → Option ℕ → Bool
found_at i none = false
found_at i (some j) = j == i

found_at-eq : (i : ℕ) (o : Option ℕ) → found_at i o ≡ true → o ≡ some i
found_at-eq i o h = ground arith

-- Whether the letter of a digit is found at that digit.
letter_found : ℕ → Bool
letter_found i = found_at i (index_of 0 (get_or base64_chars i 0) base64_chars)

letters_found : ℕ → Bool
letters_found zero = true
letters_found (suc count) = if letter_found count then letters_found count else false

every_letter : letters_found 64 ≡ true
unfolding letters_found letter_found index_of
every_letter = refl

letters_found_at : (i count : ℕ) → i < count → letters_found count ≡ true → letter_found i ≡ true
unfolding letters_found
letters_found_at i zero inside every = absurd (omega arith)
letters_found_at i (suc count) inside every = ground (arith, letters_found_at i count)

index_of-digit : (i : ℕ) → i < 64 → index_of 0 (get_or base64_chars i 0) base64_chars ≡ some i
unfolding letter_found
index_of-digit i inside = found_at-eq i _ (letters_found_at i 64 inside every_letter)

magnitude-pattern_of : (v : ℤ) → Small v → magnitude (pattern_of v) ≡ v
unfolding magnitude neg
magnitude-pattern_of (pos n) h = ground arith
magnitude-pattern_of (negsuc n) h = ground arith

module _ (result : List ℤ) (current shift : ℕ) (rest : Bytes) (low : current < 2 ^ shift) where
  bit_or-digit :
      (d : ℕ) → d * 2 ^ shift < word → bit_or current (shift_left d shift) ≡ current + d * 2 ^ shift
  bit_or-digit d fits = rw (mod-eq_of_lt fits) (bit_or-shift shift current d low)

  decode-last :
      (c d : ℕ)
      → index_of 0 c base64_chars ≡ some d
      → d < 32
      → d * 2 ^ shift < word
      → decode_from result current shift (c ∷ rest)
        ≡ decode_from (result ++ magnitude (current + d * 2 ^ shift) ∷ []) 0 0 rest
  unfolding decode_from
  decode-last c d e h fits = ground (arith, e, bit_or-digit d fits)

  decode-more :
      (c d : ℕ)
      → index_of 0 c base64_chars ≡ some (d + 32)
      → d < 32
      → d * 2 ^ shift < word
      → decode_from result current shift (c ∷ rest)
        ≡ decode_from result (current + d * 2 ^ shift) (shift + 5) rest
  unfolding decode_from
  decode-more c d e h fits = ground (arith, e, bit_or-digit d fits)

-- What `fuel` more digits have room for.
abbrev room : ℕ → ℕ
room zero = 32
room (suc fuel) = 32 * room fuel

shift_five : (shift : ℕ) → 2 ^ (shift + 5) ≡ 32 * 2 ^ shift
shift_five shift = simp towards_suc (
    omega (
      arith,
      pow-suc 2 shift,
      pow-suc 2 (suc shift),
      pow-suc 2 (suc (suc shift)),
      pow-suc 2 (suc (suc (suc shift))),
      pow-suc 2 (suc (suc (suc (suc shift)))),
    ))

split_digit : (n p : ℕ) → n * p ≡ (n % 32) * p + (n / 32) * (32 * p)
split_digit n p = omega (arith, ap (λ (t : ℕ). t * p) (div-add-mod n 32))

digit-le : (d p : ℕ) → d < 32 → d * p ≤ 31 * p
digit-le d p h = grind arith

-- The digits of one number are read back as its pattern.
decode-digits :
    (fuel n current shift : ℕ) (result : List ℤ) (rest : Bytes)
    → n < room fuel
    → current < 2 ^ shift
    → n * 2 ^ shift < word
    → decode_from result current shift (chars (digits_32 fuel n) ++ rest)
      ≡ decode_from (result ++ magnitude (current + n * 2 ^ shift) ∷ []) 0 0 rest
decode-digits zero n current shift result rest h low fits =
    decode-last result current shift rest low _ n (index_of-digit n (omega arith)) h fits
decode-digits (suc fuel) n current shift result rest h low fits = elim (Bool-cases (ltb n 32)) [
  | inl small ↦ rw small (
      decode-last result current shift rest low _ n (index_of-digit n (ground arith)) (ground arith)
        fits)
  | inr large ↦
      let d = n % 32 in
      let parts = split_digit n (2 ^ shift) in
      let wide = shift_five shift in
      let bound = digit-le d (2 ^ shift) (omega arith) in
      let shifted = ap (λ (t : ℕ). n / 32 * t) wide in
      rw large (
        decode-more result current shift _ low _ d (index_of-digit (d + 32) (omega arith))
          (omega arith) (omega arith)
        ∙ decode-digits fuel (n / 32) (current + d * 2 ^ shift) (shift + 5) result rest
            (omega arith) (omega arith) (omega arith)
        ∙ ap (λ (t : ℕ). decode_from (result ++ magnitude t ∷ []) 0 0 rest) (omega arith))
]

-- Every number below 2 ^ 62 in absolute value is read back.
decode-encode :
    (vs result : List ℤ) → All Small vs → decode_from result 0 0 (encode vs) ≡ ok (result ++ vs)
unfolding encode
decode-encode [] result h = unfold decode_from in rw append-nil
decode-encode (v ∷ vs) result (small, h) =
    decode-digits 13 (pattern_of v) 0 0 result (encode vs) (pattern-lt v small) (omega arith)
      (pattern_fits v small)
    ∙ rw (zero_shift v, magnitude-pattern_of v small)
        (decode-encode vs (result ++ v ∷ []) h ∙ rw append_assoc)
  where
    pattern-lt : (v : ℤ) → Small v → pattern_of v < room 13
    pattern-lt (pos n) h = omega arith
    pattern-lt (negsuc n) h = omega arith

    pattern_fits : (v : ℤ) → Small v → pattern_of v * 2 ^ 0 < word
    pattern_fits (pos n) h = omega arith
    pattern_fits (negsuc n) h = omega arith

    zero_shift : (v : ℤ) → 0 + pattern_of v * 2 ^ 0 ≡ pattern_of v
    zero_shift v = omega arith

-- decodeVLQ gives back the numbers of every encoded list, if each is below 2 ^ 62 in absolute
-- value.
pub decode_vlq-encode : (vs : List ℤ) → All Small vs → decode_vlq (encode vs) ≡ ok vs
unfolding decode_vlq
decode_vlq-encode vs = decode-encode vs []

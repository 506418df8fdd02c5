-- ===== src/SourceMap/Vlq.antt =====
-- decodeVLQ of internal/sentryx/sourcemap.go. An `int` under construction is its 64-bit pattern;
-- `<<` drops what does not fit, and `>>` keeps the sign. `& 31`, `& 32` and `& 1` are written as
-- remainders.
pub mod RoundTrip
use Prim.Native.Nat.{bit_or}
use crocuta.Prelude.{
  ℕ, ◌+◌, ◌-◌, ◌*◌, ◌/◌, ◌%◌, ◌^◌, Bool, List, [], ◌∷◌, ◌++◌, Option, none, some, ltb, ◌==◌,
  if◌then◌else◌, Bytes, codes,
}
use crocuta.Prelude.Int.{ℤ, pos, negsuc, neg, word, half_word}

pub data VlqError : Type 0 where
  invalid_character truncated : VlqError

pub data Decoded : Type 0 where
  ok : List ℤ → Decoded
  err : VlqError → Decoded

abbrev pub base64_chars : Bytes
base64_chars = codes "ABCDEFGHIJKLMNOPQRSTUVWXYZabcdefghijklmnopqrstuvwxyz0123456789+/"

-- strings.IndexRune; `none` is -1.
unfoldable pub index_of : ℕ → ℕ → Bytes → Option ℕ
index_of i c [] = none
index_of i c (d ∷ ds) = if c == d then some i else index_of (i + 1) c ds

-- x << shift on 64 bits
abbrev pub shift_left : ℕ → ℕ → ℕ
shift_left x shift = (x * 2 ^ shift) % word

-- current >> 1 on the signed value
abbrev pub shift_right_one : ℕ → ℤ
shift_right_one current =
    if ltb current half_word then pos (current / 2) else negsuc ((word - 1 - current) / 2)

unfoldable pub magnitude : ℕ → ℤ
unfolding neg
magnitude current =
    if current % 2 == 0 then shift_right_one current else neg (shift_right_one current)

unfoldable pub decode_from : List ℤ → ℕ → ℕ → Bytes → Decoded
decode_from result current shift [] = if shift == 0 then ok result else err truncated
decode_from result current shift (char ∷ rest) = elim (index_of 0 char base64_chars) [
  | none ↦ err invalid_character
  | some index ↦
      let current' = bit_or current (shift_left (index % 32) shift) in
      if index / 32 % 2 == 0
      then decode_from (result ++ magnitude current' ∷ []) 0 0 rest
      else decode_from result current' (shift + 5) rest
]

unfoldable pub decode_vlq : Bytes → Decoded
unfolding decode_from
decode_vlq = decode_from [] 0 0

-- ===== src/Query/Cursor.antt =====
-- encodeCursor and decodeCursor of internal/sentryx/features.go, over encoding/base64.
use crocuta.Prelude.{
  ◌≡◌, ◌≢◌, refl, false, [], ◌∷◌, ◌++◌, Option, none, some, ◌==◌, if◌then◌else◌, Bytes, equal,
  equal_iff, equal_refl, cut, All, arith,
}

-- base64.RawURLEncoding: decoding gives back what was encoded, and nothing is encoded as nothing.
pub record Base64 : Type 0 where
  pub encode : Bytes → Bytes
  pub decode : Bytes → Option Bytes
  pub decode-encode : (s : Bytes) → decode (encode s) ≡ some s
  pub encode-nil : encode [] ≡ []

unfoldable pub encode_cursor : Base64 → Bytes → Bytes → Bytes
encode_cursor b sort_key id = b.encode (sort_key ++ (0 ∷ id))

unfoldable pub cut_cursor : Option Bytes → Option (Bytes × Bytes)
cut_cursor none = none
cut_cursor (some decoded) = cut 0 decoded

unfoldable pub decode_cursor : Base64 → Bytes → Option (Bytes × Bytes)
unfolding cut_cursor
decode_cursor b value = if equal value [] then none else cut_cursor (b.decode value)

-- A text without the byte that separates the two parts.
abbrev pub HasNoNul : Bytes → Type 0
HasNoNul s = All (λ c. (c == 0) ≡ false) s

cut-append : (s t : Bytes) → HasNoNul s → cut 0 (s ++ (0 ∷ t)) ≡ some (s, t)
unfolding cut
cut-append [] t h = refl
cut-append (c ∷ s) t h = ground (arith, cut-append s t h.1)

encode-ne-nil : (b : Base64) (s : Bytes) → s ≢ [] → b.encode s ≢ []
encode-ne-nil b s h e = ground (arith, b.decode-encode s, b.decode-encode [], b.encode-nil, e)

append-ne-nil : (s t : Bytes) → s ++ (0 ∷ t) ≢ []
append-ne-nil [] t e = cc
append-ne-nil (c ∷ s) t e = cc

-- A cursor is read back as the sort key and the id that it was made of, for every id and every sort
-- key without a zero byte.
pub decode_cursor-encode_cursor :
    (b : Base64) (sort_key id : Bytes)
    → HasNoNul sort_key
    → decode_cursor b (encode_cursor b sort_key id) ≡ some (sort_key, id)
unfolding decode_cursor encode_cursor
decode_cursor-encode_cursor b sort_key id h = ground (
  arith,
  equal_iff (b.encode (sort_key ++ (0 ∷ id))) [],
  encode-ne-nil b (sort_key ++ (0 ∷ id)) (append-ne-nil sort_key id),
  b.decode-encode (sort_key ++ (0 ∷ id)),
  cut-append sort_key id h,
)

pub encode_cursor-ne-nil : (b : Base64) (sort_key id : Bytes) → encode_cursor b sort_key id ≢ []
unfolding encode_cursor
encode_cursor-ne-nil b sort_key id =
    encode-ne-nil b (sort_key ++ (0 ∷ id)) (append-ne-nil sort_key id)

pub decode_cursor-nil : (b : Base64) → decode_cursor b [] ≡ none
unfolding decode_cursor
decode_cursor-nil b = rw (equal_refl []) refl

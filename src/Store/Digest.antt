-- ===== src/Store/Digest.antt =====
-- shortHash of internal/sentryx/app.go. crypto/sha256 is a parameter: it returns 32 bytes.
use crocuta.Prelude.{
  ℕ, ◌+◌, ◌/◌, ◌%◌, ◌≡◌, ◌≢◌, [], ◌∷◌, Bytes, length, take, arith, ltb, if◌then◌else◌,
}

pub record Sha : Type 0 where
  pub sum256 : Bytes → Bytes
  pub length-sum256 : (value : Bytes) → length (sum256 value) ≡ 32

abbrev pub hex_digit : ℕ → ℕ
hex_digit n = if ltb n 10 then n + b'0' else n + 87

-- hex.EncodeToString
unfoldable pub hex_encode : Bytes → Bytes
hex_encode [] = []
hex_encode (b ∷ bs) = hex_digit (b / 16) ∷ hex_digit (b % 16) ∷ hex_encode bs

unfoldable pub short_hash : Sha → Bytes → Bytes
unfolding hex_encode
short_hash sha value = take 16 (hex_encode (sha.sum256 value))

hex_encode-ne-nil : (bs : Bytes) → length bs ≡ 32 → take 16 (hex_encode bs) ≢ []
unfolding hex_encode
hex_encode-ne-nil [] h e = absurd (omega arith)
hex_encode-ne-nil (b ∷ bs) h e = cc

pub short_hash-ne-nil : (sha : Sha) (value : Bytes) → short_hash sha value ≢ []
unfolding short_hash
short_hash-ne-nil sha value = hex_encode-ne-nil (sha.sum256 value) (sha.length-sum256 value)

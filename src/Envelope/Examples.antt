-- ===== src/Envelope/Examples.antt =====
-- A small language of headers for runs of parseEnvelope of internal/sentryx/app.go: the length and the
-- letters of the type, shifted past the line feed, and a brace.
use mathlib.Core.Option.{some-injective}
use crocuta.Prelude.{
  ℕ, ◌+◌, ◌-◌, ◌≤◌, ◌≡◌, ◌≢◌, refl, sym, ap, ◌∙◌, false, [], ◌∷◌, ◌++◌, Option, none, some, ◌==◌,
  Bytes, codes, length, take, replicate, map, arith, length-append, take-length-append,
}
use crocuta.Prelude.Int.{pos}
use crocuta.Store.Digest.{Sha}
use crocuta.Envelope.{Json, Header, EnvelopeItem, IsLine}
use crocuta.Envelope.RoundTrip.{IsWhole}

abbrev pub shift : ℕ → ℕ
shift c = c + 11

abbrev pub unshift : ℕ → ℕ
unshift c = c - 11

abbrev pub small_read : Bytes → Option (Bytes × ℕ)
small_read [] = none
small_read (n ∷ rest) = some (map unshift (take (length rest - 1) rest), n - 11)

abbrev pub small_write : Bytes × ℕ → Bytes
small_write (type, n) = shift n ∷ (map shift type ++ (b'}' ∷ []))

abbrev pub small_header : Bytes → ℕ → Header
small_header type n = record {
  type = type;
  length = pos n;
  event_id = [];
  filename = [];
  content_type = [];
}

pub unshift-shift : (s : Bytes) → map unshift (map shift s) ≡ s
unshift-shift [] = refl
unshift-shift (c ∷ s) = ground (arith, unshift-shift s)

pub take-but_last : (s : Bytes) → take (length (s ++ (b'}' ∷ [])) - 1) (s ++ (b'}' ∷ [])) ≡ s
take-but_last s =
    ap (λ (n : ℕ). take n (s ++ (b'}' ∷ []))) (omega (arith, length-append s (b'}' ∷ [])))
    ∙ take-length-append s (b'}' ∷ [])

pub shift-IsLine : (s : Bytes) → IsLine (map shift s ++ (b'}' ∷ []))
shift-IsLine [] = (refl, tt)
shift-IsLine (c ∷ s) = (ground arith, shift-IsLine s)

pub shift-ne : (n : ℕ) → (shift n == b'\n') ≡ false
shift-ne n = ground arith

pub plus-minus : (n : ℕ) → n + 11 - 11 ≡ n
plus-minus n = omega arith

pub small_read-write : (raw : Bytes × ℕ) → small_read (small_write raw) ≡ some raw
small_read-write raw =
    rw (take-but_last (map shift raw.0), unshift-shift raw.0)
      (ap (λ (k : ℕ). some (raw.0, k)) (plus-minus raw.1))

abbrev pub small_header_of : Option (Bytes × ℕ) → Option Header
small_header_of none = none
small_header_of (some raw) = some (small_header raw.0 raw.1)

pub small_header-write :
    (raw : Bytes × ℕ)
    → small_header_of (small_read (small_write raw)) ≡ some (small_header raw.0 raw.1)
small_header-write raw = ap small_header_of (small_read-write raw)

abbrev pub small_json : Json
small_json = record {
  Raw = Bytes × ℕ;
  read = small_read;
  header_of = λ line. small_header_of (small_read line);
  decode_value = λ s. none;
  renewed = λ raw type n. (type, n);
  write = small_write;
  session_id = λ raw. none;
  read-write = small_read-write;
  write-IsLine = λ raw. (shift-ne raw.1, shift-IsLine raw.0);
  write-brace = λ raw. (shift raw.1 ∷ map shift raw.0, refl);
  header_of-renewed = λ raw h type n e.
      small_header-write (type, n)
      ∙ ap (λ (g : Header). some (record g { type = type; length = pos n }))
          (some-injective _ _ (sym (small_header-write raw) ∙ e));
}

abbrev pub zeros : Sha
zeros = record { sum256 = λ value. replicate 32 0; length-sum256 = λ value. refl }

abbrev pub small_item : Bytes → Bytes → EnvelopeItem small_json
small_item type payload = record {
  type = type;
  payload = payload;
  event_id = [];
  filename = [];
  content_type = [];
  header = (type, length payload);
}

pub small_item-IsWhole :
    (type payload : Bytes)
    → 1 ≤ length payload
    → type ≢ []
    → IsWhole small_json (small_item type payload)
small_item-IsWhole type payload h k = record {
  has_payload = h;
  has_type = k;
  parsed_header = small_header type (length payload);
  header_of_raw = small_header-write (type, length payload);
  event_id_of = refl;
  filename_of = refl;
  content_type_of = refl;
}

abbrev pub log_item : EnvelopeItem small_json
log_item = small_item (codes "log") (codes "{}")

abbrev pub event_item : EnvelopeItem small_json
event_item = small_item (codes "event") (codes "1")

pub log_item-IsWhole : IsWhole small_json log_item
log_item-IsWhole = small_item-IsWhole (codes "log") (codes "{}") (omega arith) (λ e. cc)

pub event_item-IsWhole : IsWhole small_json event_item
event_item-IsWhole = small_item-IsWhole (codes "event") (codes "1") (omega arith) (λ e. cc)

-- ===== src/Pii/Envelopes/Parses.antt =====
-- What parseEnvelope reads of the envelope that ScrubEnvelope of internal/sentryx/pii.go returns.
use crocuta.Prelude.{
  ℕ, ◌-◌, ◌≡◌, ◌≢◌, ◌↔◌, ◌⊎◌, refl, sym, ap, ◌∙◌, true, false, List, [], ◌∷◌, ◌++◌, none, Bytes,
  cut, length, take, All, map, arith, Bool-cases, inl, inr, length-append, take-length-append,
}
use crocuta.Store.Digest.{Sha}
use crocuta.Envelope.{
  Json, EnvelopeItem, EnvelopeError, Parsed, ok, err, parse_envelope, parse_items, is_blank,
}
use crocuta.Envelope.RoundTrip.{write_items, rewritten, IsWhole}
use crocuta.Envelope.Policy.Kept.{rebuilt-parses, next_line-ok, parse_envelope-full, cut-IsLine}
use crocuta.Pii.{PiiConfig, Regexps, PiiProcessor, new_pii_processor}
use crocuta.Pii.Scrub.{Codec}
use crocuta.Pii.Envelopes.{scrubbed, scrub_envelope}

ok-ne-err : {A : Type 0} {a : A} {e : EnvelopeError} → ok a ≢ err e
ok-ne-err h = cc

Parsed-cases :
    {A : Type 0} (r : Parsed A) → ((a : A) × (r ≡ ok a)) ⊎ ((e : EnvelopeError) × (r ≡ err e))
Parsed-cases (ok a) = inl (a, refl)
Parsed-cases (err e) = inr (e, refl)

append-line : (line rest : Bytes) → line ++ (b'\n' ∷ rest) ≡ (line ++ (b'\n' ∷ [])) ++ rest
append-line [] rest = refl
append-line (c ∷ line) rest = ap (λ (t : Bytes). c ∷ t) (append-line line rest)

append-minus : (s t : Bytes) → length (s ++ t) - length t ≡ length s
append-minus s t = omega (arith, length-append s t)

-- The first line with its line feed, and other items behind it.
replaced-items :
    (body line rest other : Bytes)
    → body ≡ line ++ (b'\n' ∷ rest)
    → take (length body - length rest) body ++ other ≡ line ++ (b'\n' ∷ other)
replaced-items body line rest other shape =
    rw
      (
        shape ∙ append-line line rest,
        append-minus (line ++ (b'\n' ∷ [])) rest,
        take-length-append (line ++ (b'\n' ∷ [])) rest,
      )
      (sym (append-line line other))

abbrev fails_with : (A : Type 0) → EnvelopeError → Parsed A
fails_with A e = err e

same_error :
    (A B : Type 0) (d e : EnvelopeError)
    → fails_with A d ≡ fails_with A e
    → fails_with B d ≡ fails_with B e
same_error A B d e h = cc

ok-nil : {A : Type 0} (xs : List A) → ok [] ≡ ok xs → xs ≡ []
ok-nil [] h = refl
ok-nil (x ∷ xs) h = cc

map-ne-nil : {A B : Type 0} (f : A → B) (xs : List A) → xs ≢ [] → map f xs ≢ []
map-ne-nil f [] h e = h refl
map-ne-nil f (x ∷ xs) h e = cc

module _ (json : Json) where
  parse_items-nil : (fuel : ℕ) → parse_items json fuel [] ≡ ok []
  unfolding parse_items
  parse_items-nil fuel = refl

  parse_envelope-nil :
      (body : Bytes) (items : List (EnvelopeItem json))
      → is_blank body ≡ false
      → cut b'\n' body ≡ none
      → parse_envelope json body ≡ ok items
      → items ≡ []
  unfolding parse_envelope
  parse_envelope-nil body items full e parsed =
      ok-nil items (rw (full, next_line-ok body full, e, parse_items-nil 0) at parsed)

  module _ (rx : Regexps) (sha : Sha) (codec : Codec) where
    -- ScrubEnvelope, with scrubbing on, turns an envelope that parses into one that parses too, to the same
    -- items in the same order, each with its scrubbed payload and its other fields as they were. There is at
    -- least one item, and each has a payload once it is scrubbed, a type and a header that gives its fields.
    pub scrub_envelope-parses :
        (config : PiiConfig) (body : Bytes) (items : List (EnvelopeItem json))
        → config.enabled ≡ true
        → parse_envelope json body ≡ ok items
        → All (IsWhole json) (map (scrubbed json rx sha codec (new_pii_processor rx config)) items)
        → items ≢ []
        → (out : Bytes) × (scrub_envelope json rx sha codec body config ≡ ok out)
          × (parse_envelope json out
              ≡ ok (
                  map
                    (rewritten json)
                    (map (scrubbed json rx sha codec (new_pii_processor rx config)) items)))
    unfolding scrub_envelope
    scrub_envelope-parses config body items on parsed whole some_items =
        let p : PiiProcessor rx = new_pii_processor rx config in
        let full : is_blank body ≡ false = parse_envelope-full json body items parsed in
        elim (cut-IsLine body) [
          | inl (e, line) ↦ absurd (some_items (parse_envelope-nil body items full e parsed))
          | inr (line, rest, e, is_line, shape) ↦ (
            line ++ (b'\n' ∷ write_items json (map (scrubbed json rx sha codec p) items)),
            rw (on, parsed, next_line-ok body full, e)
                (ap (λ (t : Bytes). ok t) (replaced-items body line rest _ shape)),
            rebuilt-parses json line (map (scrubbed json rx sha codec p) items) is_line whole
                (map-ne-nil _ items some_items),
          )
        ]

    -- ScrubEnvelope fails with an error exactly where scrubbing is on and parseEnvelope fails with the same
    -- error: neither the second reading of the first line nor the scrubbing adds an error.
    pub scrub_envelope-err :
        (config : PiiConfig) (body : Bytes) (e : EnvelopeError)
        → (scrub_envelope json rx sha codec body config ≡ err e)
          ↔ ((config.enabled ≡ true) × (parse_envelope json body ≡ err e))
    unfolding scrub_envelope
    scrub_envelope-err config body e = (
      λ h. elim (Bool-cases config.enabled) [
        | inr off ↦ absurd (ok-ne-err (rw off at h))
        | inl on ↦ elim (Parsed-cases (parse_envelope json body)) [
          | inr (d, failed) ↦
              (on, failed ∙ same_error Bytes (List (EnvelopeItem json)) d e (rw (on, failed) at h))
          | inl (items, parsed) ↦ absurd (
              ok-ne-err (
                rw (on, parsed, next_line-ok body (parse_envelope-full json body items parsed)) at
                  h))
        ]
      ],
      λ (on, failed). rw (on, failed) refl,
    )

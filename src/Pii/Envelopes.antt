-- ===== src/Pii/Envelopes.antt =====
-- scrubItem, isTextAttachment and ScrubEnvelope of internal/sentryx/pii.go.
pub mod Parses
use crocuta.Prelude.{
  ℕ, ◌-◌, Bool, true, false, not, ◌&&◌, ◌||◌, List, [], ◌∷◌, ◌++◌, Option, none, some,
  if◌then◌else◌, ◌==◌, Bytes, codes, equal, to_lower, has_prefix, contains, length, take, map,
}
use crocuta.Store.Digest.{Sha}
use crocuta.Envelope.{Json, EnvelopeItem, Parsed, ok, err, parse_envelope, next_line}
use crocuta.Envelope.RoundTrip.{write_items}
use crocuta.Pii.{
  PiiConfig, Regexps, PiiProcessor, Meta, default_pii_config, new_pii_processor, has_none,
}
use crocuta.Pii.Scrub.{Value, text, object, Members, end, member, Codec, scrub_text, scrub_value}

-- A member of a map, where there is one of that key.
unfoldable pub member_of : Bytes → Members → Option Value
member_of key end = none
member_of key (member k v ms) = if equal k key then some v else member_of key ms

-- m[key] = v
unfoldable pub set_member : Bytes → Value → Members → Members
set_member key v end = member key v end
set_member key v (member k w ms) =
    let rest = set_member key v ms in if equal k key then member key v ms else member k w rest

abbrev pub or_no_members : Option Value → Members
or_no_members (some (object ms)) = ms
or_no_members other = end

unfoldable pub with_reasons : Meta → Members → Members
with_reasons [] meta = meta
with_reasons ((path, reason) ∷ rest) meta =
    with_reasons rest (set_member path (object (member (codes "reason") (text reason) end)) meta)

-- The reasons in the `_meta` of an object, where there are any.
abbrev pub with_meta : Meta → Value → Value
with_meta [] v = v
with_meta (entry ∷ reasons) (object ms) = object (
    set_member (codes "_meta")
      (object (with_reasons (entry ∷ reasons) (or_no_members (member_of (codes "_meta") ms)))) ms)
with_meta (entry ∷ reasons) v = v

abbrev pub carries_meta : Bytes → Bool
carries_meta type =
    equal type (codes "event") || equal type (codes "error") || equal type (codes "log")

abbrev pub has_byte : ℕ → Bytes → Bool
has_byte b [] = false
has_byte b (c ∷ cs) = c == b || has_byte b cs

-- path.Ext: what begins at the last dot behind the last slash.
unfoldable pub ext : Bytes → Bytes
ext [] = []
ext (c ∷ cs) =
    let rest = ext cs in
    if has_none rest then (if (c == b'.') && not (has_byte b'/' cs) then c ∷ cs else []) else rest

abbrev pub is_text_ext : Bytes → Bool
is_text_ext e =
    equal e (codes ".txt")
    || equal e (codes ".log")
    || equal e (codes ".json")
    || equal e (codes ".csv")
    || equal e (codes ".ndjson")

module _ (json : Json) where
  unfoldable pub is_text_attachment : EnvelopeItem json → Bool
  is_text_attachment item =
      if has_prefix (to_lower item.content_type) (codes "text/")
        || contains (to_lower item.content_type) (codes "json")
      then true
      else is_text_ext (to_lower (ext item.filename))

  module _ (rx : Regexps) (sha : Sha) (codec : Codec) where
    -- An item that is not JSON, or that JSON does not write.
    abbrev pub scrub_bytes : PiiProcessor rx → EnvelopeItem json → Meta → Bytes
    scrub_bytes p item meta =
        if is_text_attachment item
        then (scrub_text rx sha p item.payload [] meta).0
        else item.payload

    abbrev pub or_bytes : Option Bytes → Bytes → Bytes
    or_bytes (some encoded) other = encoded
    or_bytes none other = other

    abbrev pub finish_item : PiiProcessor rx → EnvelopeItem json → Value × Meta → Bytes
    finish_item p item (cleaned, meta) =
        or_bytes
          (codec.marshal (if carries_meta item.type then with_meta meta cleaned else cleaned))
          (scrub_bytes p item meta)

    unfoldable pub scrub_item : PiiProcessor rx → EnvelopeItem json → Bytes
    scrub_item p item = elim (codec.unmarshal item.payload) [
      | none ↦ scrub_bytes p item []
      | some v ↦ finish_item p item (scrub_value rx sha codec p [] v [])
    ]

    abbrev pub scrubbed : PiiProcessor rx → EnvelopeItem json → EnvelopeItem json
    scrubbed p item = record item { payload = scrub_item p item }

    -- The first line as it stands, and the items behind it.
    abbrev pub scrub_items :
        PiiProcessor rx
        → Bytes
        → Parsed (List (EnvelopeItem json))
        → Parsed (Bytes × Bytes)
        → Parsed Bytes
    scrub_items p body (err e) line = err e
    scrub_items p body (ok items) (err e) = err e
    scrub_items p body (ok items) (ok (line, rest)) =
        ok (take (length body - length rest) body ++ write_items json (map (scrubbed p) items))

    unfoldable pub scrub_envelope : Bytes → PiiConfig → Parsed Bytes
    scrub_envelope body config =
        if config.enabled
        then scrub_items (new_pii_processor rx config) body (parse_envelope json body)
            (next_line body)
        else ok body

    abbrev pub or_body : Parsed Bytes → Bytes → Bytes
    or_body (ok cleaned) body = cleaned
    or_body (err e) body = body

    unfoldable pub scrub_envelope_with_default : Bytes → Bytes
    scrub_envelope_with_default body = or_body (scrub_envelope body default_pii_config) body

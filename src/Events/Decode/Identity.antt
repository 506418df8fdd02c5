-- ===== src/Events/Decode/Identity.antt =====
-- What decodeEvent of internal/sentryx/app.go gives every event that it accepts.
use crocuta.Prelude.{ℕ, ◌≡◌, ◌≢◌, refl, [], ◌∷◌, some, Bytes, codes}
use crocuta.Pii.Scrub.{Members}
use crocuta.Events.{CanonicalEvent}
use crocuta.Events.Decode.{decode_fields, derive_event_tags, decode_event}
use crocuta.Events.Parts.{EventJson, or_text, string_at}

or_text-ne-nil : (s other : Bytes) → other ≢ [] → or_text s other ≢ []
or_text-ne-nil [] other h e = h e
or_text-ne-nil (c ∷ s) other h e = cc

-- decodeEvent accepts a payload that is a JSON object, and the event then has an id and a title
-- that are not empty, the time and the project it was given, and no issue yet. A random id is not empty.
pub decode_event-identified :
    (json : EventJson) (random_id project_id payload : Bytes) (now : ℕ) (raw : Members)
    → random_id ≢ []
    → json.unmarshal_map payload ≡ some raw
    → (event : CanonicalEvent) × (decode_event json random_id project_id payload now ≡ some event)
      × (event.event_id ≢ [])
      × (event.title ≢ [])
      × (event.project_id ≡ project_id)
      × (event.received_at ≡ now)
      × (event.issue_id ≡ [])
unfolding decode_event derive_event_tags decode_fields
decode_event-identified json random_id project_id payload now raw fresh read = (
  derive_event_tags json (decode_fields json random_id project_id now raw),
  rw read refl,
  or_text-ne-nil (string_at json (codes "event_id") raw) random_id fresh,
  or_text-ne-nil _ (codes "JavaScript error") (λ e. cc),
  refl,
  refl,
  refl,
)

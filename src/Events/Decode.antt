-- ===== src/Events/Decode.antt =====
-- decodeEvent and deriveEventTags of internal/sentryx/app.go. The random id is an argument.
pub mod Tags
pub mod Identity
use crocuta.Prelude.{
  ℕ, Bool, true, false, List, [], ◌∷◌, ◌++◌, Option, none, some, ◌>>=◌, if◌then◌else◌, Bytes, codes,
  equal, Dict, lookup, insert,
}
use crocuta.SourceMap.Position.{StackFrame}
use crocuta.Pii.Scrub.{
  Value, null, text, array, object, Elements, nil, element, Members, end, member, Codec,
  string_value,
}
use crocuta.Pii.Envelopes.{member_of, or_no_members}
use crocuta.Events.{CanonicalEvent, EventUser, EventRequest, Breadcrumb, ExceptionValue}
use crocuta.Events.Grouping.{is_list_nil, last_frame}
use crocuta.Events.Parts.{
  EventJson, as_array, as_object, breadcrumb_from, breadcrumbs_of, culprit_from, culprit_of,
  decode_breadcrumbs, decode_request, encoded_exception, encoded_stacktrace, exception_in,
  exception_read, fingerprint_of, frames_of, last_element, last_exception, mechanism_from,
  mechanism_of, message_of, no_exception, occurred, or_no_elements, or_no_frames, or_null, or_text,
  or_zero, place_of, request_of, string_at, string_entries, string_map_value, user_from, user_of,
}

abbrev pub or_no_entries : Option (Dict Bytes) → Dict Bytes
or_no_entries none = []
or_no_entries (some entries) = entries

-- `set` of deriveEventTags: a value that is not empty, where the key has none.
abbrev pub set_missing : Bytes → Bytes → Option Bytes → Dict Bytes → Dict Bytes
set_missing key [] found tags = tags
set_missing key (c ∷ value) none tags = insert key (c ∷ value) tags
set_missing key (c ∷ value) (some other) tags = tags

unfoldable pub set_tags : List (Bytes × Bytes) → Dict Bytes → Dict Bytes
set_tags [] tags = tags
set_tags ((key, value) ∷ more) tags = set_tags more (set_missing key value (lookup key tags) tags)

module _ (json : EventJson) where
  unfoldable pub decode_fields : Bytes → Bytes → ℕ → Members → CanonicalEvent
  decode_fields random_id project_id now raw =
      let message = or_text (message_of json raw) (culprit_of json raw) in
      record {
        project_id = project_id;
        event_id = or_text (string_at json (codes "event_id") raw) random_id;
        occurred_at = occurred json (string_at json (codes "timestamp") raw) now;
        received_at = now;
        platform = string_at json (codes "platform") raw;
        level = string_at json (codes "level") raw;
        release = string_at json (codes "release") raw;
        dist = string_at json (codes "dist") raw;
        environment = string_at json (codes "environment") raw;
        title = or_text message (codes "JavaScript error");
        message = message;
        culprit = culprit_of json raw;
        logger = string_at json (codes "logger") raw;
        transaction = string_at json (codes "transaction") raw;
        server_name = string_at json (codes "server_name") raw;
        fingerprint =
            fingerprint_of json (or_no_elements (as_array (member_of (codes "fingerprint") raw)));
        exception = encoded_exception json raw;
        stacktrace = encoded_stacktrace json raw;
        mechanism = mechanism_of json raw;
        frames = frames_of json raw;
        symbolicated_frames = [];
        symbolication_status = [];
        tags = or_no_entries (string_map_value json (as_object (member_of (codes "tags") raw)));
        extra = as_object (member_of (codes "extra") raw);
        contexts = as_object (member_of (codes "contexts") raw);
        modules = string_map_value json (as_object (member_of (codes "modules") raw));
        user = user_of json (as_object (member_of (codes "user") raw));
        request = request_of json (as_object (member_of (codes "request") raw));
        breadcrumbs = breadcrumbs_of json (member_of (codes "breadcrumbs") raw);
        sdk = as_object (member_of (codes "sdk") raw);
        debug_meta = as_object (member_of (codes "debug_meta") raw);
        raw = raw;
        issue_id = [];
      }

  -- The values that deriveEventTags sets, with their keys, in its order.
  abbrev pub context_value : Option Members → Bytes → Bytes → Bytes
  context_value none kind key = []
  context_value (some contexts) kind key =
      string_at json key (or_no_members (member_of kind contexts))

  abbrev pub url_of : Option EventRequest → Bytes
  url_of none = []
  url_of (some r) = r.url

  abbrev pub identity_of : Option EventUser → Bytes
  identity_of none = []
  identity_of (some u) = or_text u.id u.email

  abbrev pub dimensions : CanonicalEvent → List (Bytes × Bytes)
  dimensions event =
      (codes "browser.name", context_value event.contexts (codes "browser") (codes "name"))
      ∷ (codes "browser.version", context_value event.contexts (codes "browser") (codes "version"))
      ∷ (codes "os.name", context_value event.contexts (codes "os") (codes "name"))
      ∷ (codes "os.version", context_value event.contexts (codes "os") (codes "version"))
      ∷ (codes "runtime.name", context_value event.contexts (codes "runtime") (codes "name"))
      ∷ (codes "runtime.version", context_value event.contexts (codes "runtime") (codes "version"))
      ∷ (codes "release", event.release)
      ∷ (codes "environment", event.environment)
      ∷ (codes "dist", event.dist)
      ∷ (codes "transaction", event.transaction)
      ∷ (codes "url", url_of event.request)
      ∷ (codes "user.id", identity_of event.user)
      ∷ []

  unfoldable pub derive_event_tags : CanonicalEvent → CanonicalEvent
  derive_event_tags event = record event { tags = set_tags (dimensions event) event.tags }

  abbrev pub decoded_with : Bytes → Bytes → ℕ → Option Members → Option CanonicalEvent
  decoded_with random_id project_id now none = none
  decoded_with random_id project_id now (some raw) =
      some (derive_event_tags (decode_fields random_id project_id now raw))

  unfoldable pub decode_event : Bytes → Bytes → Bytes → ℕ → Option CanonicalEvent
  decode_event random_id project_id payload now =
      decoded_with random_id project_id now (json.unmarshal_map payload)

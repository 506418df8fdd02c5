-- ===== src/Events/Scrubbing.antt =====
-- scrubEventWithConfig of internal/sentryx/app.go: the scrubbing of an event that has been decoded.
use crocuta.Prelude.{
  Bool, ◌||◌, [], ◌∷◌, Option, none, some, if◌then◌else◌, Bytes, codes, equal, to_lower, Dict,
  lookup, map,
}
use crocuta.Pii.{PiiConfig, Regexps, safe_set}
use crocuta.Pii.Scrub.{
  Value, null, boolean, number, text, array, object, Elements, nil, element, Members, end, member,
  is_present,
}
use crocuta.Events.{CanonicalEvent, EventUser, EventRequest, Breadcrumb}

abbrev pub SafeFields : Type 0
SafeFields = Dict {0} Unit

abbrev pub is_safe : SafeFields → Bytes → Bool
is_safe safe key = is_present (lookup (to_lower key) safe)

module _ (rx : Regexps) where
  abbrev pub scrub_key_pattern : rx.Regexp
  scrub_key_pattern =
      rx.must_compile (
        codes "(?i)(password|passwd|secret|token|authorization|cookie|api[_-]?key|private[_-]?key)")

  abbrev pub scrub_secret_pattern : rx.Regexp
  scrub_secret_pattern = rx.must_compile (codes "(?i)(bearer\\s+|token=|password=)[^\\s&]+")

  unfoldable pub scrub_string : Bytes → Bytes
  scrub_string value = rx.replace_all_string scrub_secret_pattern value (codes "$1[Filtered]")

  -- What stands for a member, by its key.
  unfoldable pub scrub_entry : SafeFields → Bytes → Value → Value → Value
  scrub_entry safe key v scrubbed =
      if equal key (codes "_meta") || is_safe safe key
      then v
      else if rx.match_string scrub_key_pattern key
      then text (codes "[Filtered]")
      else scrubbed

  unfoldable mutual
    pub scrub_value_with_safe : SafeFields → Value → Value
    scrub_value_with_safe safe null = null
    scrub_value_with_safe safe (boolean b) = boolean b
    scrub_value_with_safe safe (number n) = number n
    scrub_value_with_safe safe (text s) = text (scrub_string s)
    scrub_value_with_safe safe (array vs) = array (scrub_elements_with_safe safe vs)
    scrub_value_with_safe safe (object ms) = object (scrub_map_with_safe safe ms)

    pub scrub_elements_with_safe : SafeFields → Elements → Elements
    scrub_elements_with_safe safe nil = nil
    scrub_elements_with_safe safe (element v vs) =
        element (scrub_value_with_safe safe v) (scrub_elements_with_safe safe vs)

    pub scrub_map_with_safe : SafeFields → Members → Members
    scrub_map_with_safe safe end = end
    scrub_map_with_safe safe (member key v ms) =
        member key (scrub_entry safe key v (scrub_value_with_safe safe v))
          (scrub_map_with_safe safe ms)

  abbrev pub scrub_nilable : SafeFields → Option Members → Option Members
  scrub_nilable safe none = none
  scrub_nilable safe (some ms) = some (scrub_map_with_safe safe ms)

  unfoldable pub scrub_headers : SafeFields → Dict Bytes → Dict Bytes
  scrub_headers safe [] = []
  scrub_headers safe ((key, value) ∷ headers) =
      (
        key,
        if is_safe safe key
            then value
            else if rx.match_string scrub_key_pattern key
            then codes "[Filtered]"
            else value,
      )
      ∷ scrub_headers safe headers

  abbrev pub scrub_nilable_headers : SafeFields → Option (Dict Bytes) → Option (Dict Bytes)
  scrub_nilable_headers safe none = none
  scrub_nilable_headers safe (some headers) = some (scrub_headers safe headers)

  abbrev pub scrub_request : SafeFields → Option EventRequest → Option EventRequest
  scrub_request safe none = none
  scrub_request safe (some r) = some (record r {
    headers = scrub_nilable_headers safe r.headers;
    query_string = scrub_string r.query_string;
    data_value = scrub_value_with_safe safe r.data_value;
  })

  abbrev pub scrub_user : PiiConfig → Option EventUser → Option EventUser
  scrub_user config none = none
  scrub_user config (some u) =
      some (if config.scrub_ip_addresses then record u { ip_address = codes "[Filtered]" } else u)

  abbrev pub scrub_breadcrumb : SafeFields → Breadcrumb → Breadcrumb
  scrub_breadcrumb safe b = record b { data_value = scrub_nilable safe b.data_value }

  unfoldable pub scrub_event_with_config : CanonicalEvent → PiiConfig → CanonicalEvent
  scrub_event_with_config event config =
      let safe = safe_set rx config.safe_fields [] in
      if config.enabled
      then record event {
        raw = scrub_map_with_safe safe event.raw;
        user = scrub_user config event.user;
        request = scrub_request safe event.request;
        extra = scrub_nilable safe event.extra;
        contexts = scrub_nilable safe event.contexts;
        breadcrumbs = map (scrub_breadcrumb safe) event.breadcrumbs;
      }
      else event

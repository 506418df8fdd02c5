-- ===== src/Envelope/Tests.antt =====
-- parseEnvelope of internal/sentryx/app.go and ApplyItemPolicy of item_policy.go on concrete envelopes.
use crocuta.Prelude.{
  ◌-◌, ◌≡◌, refl, [], ◌∷◌, ◌++◌, Bytes, codes, equal, lookup, length, Dict, map, filter_by, arith,
  cut, trim_suffix, has_suffix, trim_space, is_space, to_lower, has_prefix,
}
use crocuta.Envelope.{
  ok, parse_envelope, parse_items, parse_item, parse_payload, next_line, is_blank,
}
use crocuta.Envelope.Fuel.{parse_items_fuel}
use crocuta.Envelope.RoundTrip.{rewritten}
use crocuta.Envelope.Policy.{
  action, is_kept, apply_item_policy, is_known_envelope_item_type, is_extended_signal_type,
}
use crocuta.Envelope.Policy.Kept.{apply_item_policy-parses}
use crocuta.Envelope.Examples.{
  small_json, small_write, zeros, event_item, log_item, log_item-IsWhole,
}

parse_items_fuel_example :
    parse_items small_json 9 (codes "a\n\nb") ≡ parse_items small_json 4 (codes "a\n\nb")
parse_items_fuel_example =
    parse_items_fuel small_json 9 4 (codes "a\n\nb") (omega arith) (omega arith)

abbrev two_items : Bytes
two_items =
    codes "{}\n"
    ++ small_write (codes "event", 1)
    ++ codes "\n1\n"
    ++ small_write (codes "log", 2)
    ++ codes "\n{}"

two_items_parse : parse_envelope small_json two_items ≡ ok (event_item ∷ log_item ∷ [])
unfolding parse_envelope next_line parse_items parse_item parse_payload is_blank is_space cut
    trim_suffix has_suffix equal
two_items_parse = refl

abbrev no_events : Dict Bytes
no_events = (codes "event", codes "drop") ∷ []

only_log :
    filter_by (is_kept small_json zeros no_events) (event_item ∷ log_item ∷ []) ≡ log_item ∷ []
unfolding action lookup equal trim_space to_lower has_prefix is_known_envelope_item_type
    is_extended_signal_type
only_log = refl

apply_item_policy-parses_example :
    (out : Bytes) × (apply_item_policy small_json zeros no_events two_items
      ≡ ok (
        out,
        2 - length (filter_by (is_kept small_json zeros no_events) (event_item ∷ log_item ∷ [])),
      ))
    × (parse_envelope small_json out
        ≡ ok (
            map
              (rewritten small_json)
              (filter_by (is_kept small_json zeros no_events) (event_item ∷ log_item ∷ []))))
apply_item_policy-parses_example =
    apply_item_policy-parses small_json zeros (codes "event") (codes "drop") [] two_items
      (event_item ∷ log_item ∷ []) two_items_parse (rw only_log (log_item-IsWhole, tt))
      (rw only_log (λ e. cc))

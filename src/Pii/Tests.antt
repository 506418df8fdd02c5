-- ===== src/Pii/Tests.antt =====
-- internal/sentryx/pii.go on concrete payloads, with a small language of JSON: a key, a colon and a text. A
-- regular expression is taken for the text of it.
use crocuta.Prelude.{
  ◌≡◌, ◌↔◌, refl, true, [], ◌∷◌, ◌++◌, Option, none, some, Bytes, codes, equal, cut, contains,
  has_prefix, has_suffix, trim_suffix, trim_space, trim_left, trim_right, is_space, to_lower,
  to_lower_byte, lookup, insert, split, map, arith,
}
use crocuta.Envelope.{
  EnvelopeItem, empty_envelope, ok, err, parse_envelope, next_line, parse_items, parse_item,
  parse_payload, is_blank,
}
use crocuta.Envelope.RoundTrip.{rewritten, IsWhole}
use crocuta.Envelope.Examples.{
  small_json, small_header, small_item, small_write, small_header-write, zeros,
}
use crocuta.Pii.{
  PiiConfig, Regexps, outside, Meta, new_pii_processor, normalized, default_pii_config, safe_set,
  selector_matches, join_selector_path, normalize_action, rule_type, redact, replaced, split_csv,
  kept_items,
}
use crocuta.Pii.Scrub.{
  Value, text, null, object, end, member, Codec, rule_for, is_listed, should_skip, default_action,
  action_for, is_left, scrub_value, scrub_member, scrub_json,
}
use crocuta.Pii.Clean.{IsCleaned, scrub_json-IsCleaned}
use crocuta.Pii.Meta.{names_path}
use crocuta.Pii.Reported.{is_reported, scrub_value-IsReported}
use crocuta.Pii.Envelopes.{scrub_item, scrubbed, scrub_envelope}
use crocuta.Pii.Envelopes.Parses.{scrub_envelope-parses, scrub_envelope-err}

abbrev small_rx : Regexps
small_rx = record {
  Regexp = Bytes;
  compile = λ s. some s;
  must_compile = λ s. s;
  match_string = λ r s. contains r s;
  replace_all_string = λ r s template. s;
  pieces = λ r s. outside s ∷ [];
}

abbrev small_unmarshal : Option (Bytes × Bytes) → Option Value
small_unmarshal none = none
small_unmarshal (some (key, s)) = some (object (member key (text s) end))

abbrev small_marshal : Value → Option Bytes
small_marshal (object (member key (text s) ms)) = some (key ++ (b':' ∷ s))
small_marshal v = none

abbrev small_codec : Codec
small_codec = record {
  unmarshal = λ s. small_unmarshal (cut b':' s);
  marshal = small_marshal;
  sprint = λ v. [];
}

abbrev remove_email : PiiConfig
remove_email = record default_pii_config {
  rules =
      record {
        id = [];
        selector = codes "user.*";
        type = codes "Email";
        action = codes "Remove";
        pattern = [];
        replacement = [];
      }
      ∷ [];
}

abbrev password : Value
password = object (member (codes "password") (text (codes "hunter2")) end)

scrub_json-IsCleaned_example :
    (w : Value) × (scrub_json small_rx zeros small_codec
        (codes "password:hunter2")
        default_pii_config
      ≡ small_codec.marshal w)
    × IsCleaned small_rx zeros small_codec
        (new_pii_processor small_rx default_pii_config)
        []
        password
        w
unfolding cut
scrub_json-IsCleaned_example =
    scrub_json-IsCleaned small_rx zeros small_codec default_pii_config (codes "password:hunter2")
      password refl refl

scrub_json_masked :
    scrub_json small_rx zeros small_codec (codes "password:hunter2") default_pii_config
    ≡ some (codes "password:[Filtered]")
unfolding scrub_json new_pii_processor normalized safe_set scrub_value scrub_member is_left
    should_skip action_for rule_for default_action redact replaced normalize_action
    join_selector_path is_listed cut contains has_prefix equal to_lower to_lower_byte trim_space
    trim_left trim_right is_space lookup insert
scrub_json_masked = refl

-- A user's fields go with a rule that removes them, the others stay.
abbrev visitor : Value
visitor = object (
    member (codes "user") (object (member (codes "email") (text (codes "a@b")) end))
      (member (codes "level") null end))

scrub_value_removed :
    scrub_value small_rx zeros small_codec (new_pii_processor small_rx remove_email) [] visitor []
    ≡ (
      object (member (codes "user") (object end) (member (codes "level") null end)),
      (codes "user.email", codes "@email") ∷ [],
    )
unfolding new_pii_processor normalized safe_set scrub_value scrub_member is_left should_skip
    action_for rule_for default_action redact replaced normalize_action join_selector_path is_listed
    contains has_prefix has_suffix trim_suffix equal to_lower to_lower_byte trim_space trim_left
    trim_right is_space lookup insert selector_matches rule_type
scrub_value_removed = refl

abbrev scrubbed_visitor : Value × Meta
scrubbed_visitor =
    scrub_value small_rx zeros small_codec (new_pii_processor small_rx remove_email) [] visitor []

scrub_value-IsReported_example :
    (is_reported small_rx (new_pii_processor small_rx remove_email) [] scrubbed_visitor.1 visitor
      ≡ true)
    × ((k : Bytes) → names_path [] k ≡ true → names_path scrubbed_visitor.1 k ≡ true)
scrub_value-IsReported_example =
    scrub_value-IsReported small_rx zeros small_codec (new_pii_processor small_rx remove_email) []
      visitor []

abbrev secret_item : EnvelopeItem small_json
secret_item = small_item (codes "span") (codes "password:hunter2")

abbrev secret_envelope : Bytes
secret_envelope = codes "{}\n" ++ (small_write (codes "span", 16) ++ codes "\npassword:hunter2\n")

secret_envelope_parse : parse_envelope small_json secret_envelope ≡ ok (secret_item ∷ [])
unfolding parse_envelope next_line parse_items parse_item parse_payload is_blank is_space cut
    trim_suffix has_suffix equal
secret_envelope_parse = refl

scrub_item_masked :
    scrub_item small_json small_rx zeros small_codec
      (new_pii_processor small_rx default_pii_config)
      secret_item
    ≡ codes "password:[Filtered]"
unfolding scrub_item new_pii_processor normalized safe_set scrub_value scrub_member is_left
    should_skip action_for rule_for default_action redact replaced normalize_action
    join_selector_path is_listed cut contains has_prefix equal to_lower to_lower_byte trim_space
    trim_left trim_right is_space lookup insert
scrub_item_masked = refl

secret_item-IsWhole : IsWhole small_json (
    scrubbed small_json small_rx zeros small_codec
      (new_pii_processor small_rx default_pii_config)
      secret_item)
secret_item-IsWhole = record {
  has_payload = rw scrub_item_masked (omega arith);
  has_type = λ e. cc;
  parsed_header = small_header (codes "span") 16;
  header_of_raw = small_header-write (codes "span", 16);
  event_id_of = refl;
  filename_of = refl;
  content_type_of = refl;
}

scrub_envelope-parses_example :
    (out : Bytes) × (scrub_envelope small_json small_rx zeros small_codec secret_envelope
        default_pii_config
      ≡ ok out)
    × (parse_envelope small_json out
        ≡ ok (
            map (rewritten small_json) (
              map
                (scrubbed small_json small_rx zeros small_codec
                  (new_pii_processor small_rx default_pii_config))
                (secret_item ∷ []))))
scrub_envelope-parses_example =
    scrub_envelope-parses small_json small_rx zeros small_codec default_pii_config secret_envelope
      (secret_item ∷ []) refl secret_envelope_parse (secret_item-IsWhole, tt) (λ e. cc)

scrub_envelope-err_example :
    (scrub_envelope small_json small_rx zeros small_codec (codes " \n") default_pii_config
      ≡ err empty_envelope)
    ↔ ((true ≡ true) × (parse_envelope small_json (codes " \n") ≡ err empty_envelope))
scrub_envelope-err_example =
    scrub_envelope-err small_json small_rx zeros small_codec default_pii_config (codes " \n")
      empty_envelope

split_csv_runs : split_csv (codes " a,, b ") ≡ codes "a" ∷ codes "b" ∷ []
unfolding split_csv kept_items split trim_space trim_left trim_right is_space
split_csv_runs = refl

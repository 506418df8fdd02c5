-- ===== src/Relay/Tests.antt =====
-- internal/sentryx/relay.go on concrete requests, with the small JSON of Pii/Tests.
use crocuta.Prelude.{
  ℕ, ◌≡◌, refl, true, false, [], ◌∷◌, ◌++◌, Option, none, some, Bytes, codes, equal, equal_fold,
  cut, contains, has_prefix, has_suffix, trim_suffix, trim_space, trim_left, trim_right, is_space,
  to_lower, to_lower_byte, lookup, insert,
}
use crocuta.Envelope.{
  ok, parse_envelope, next_line, parse_items, parse_item, parse_payload, is_blank,
}
use crocuta.Envelope.Policy.{apply_item_policy}
use crocuta.Envelope.RoundTrip.{write_items}
use crocuta.Envelope.Examples.{small_json, small_write, zeros}
use crocuta.Pii.{
  outside, new_pii_processor, normalized, default_pii_config, safe_set, join_selector_path,
  normalize_action, redact, replaced,
}
use crocuta.Pii.Scrub.{
  Value, text, object, end, member, rule_for, is_listed, should_skip, default_action, action_for,
  is_left, scrub_value, scrub_member,
}
use crocuta.Pii.Envelopes.{scrub_item, scrub_envelope}
use crocuta.Relay.{
  HttpRequest, RelayConfig, RelayOutside, Forwarded, forwarded, answered, is_envelope_path,
  is_hop_by_hop_header, first_header, read_relay_body, relay, copy_relay_response_headers,
}
use crocuta.Relay.Forwards.{NoHop, HasToken, relay-forwards}

abbrev unmarshal : Option (Bytes × Bytes) → Option Value
unmarshal none = none
unmarshal (some (key, s)) = some (object (member key (text s) end))

abbrev marshal : Value → Option Bytes
marshal (object (member key (text s) ms)) = some (key ++ (b':' ∷ s))
marshal v = none

abbrev small_outside : RelayOutside
small_outside = record {
  json = small_json;
  rx = record {
    Regexp = Bytes;
    compile = λ s. some s;
    must_compile = λ s. s;
    match_string = λ r s. contains r s;
    replace_all_string = λ r s template. s;
    pieces = λ r s. outside s ∷ [];
  };
  sha = zeros;
  codec = record { unmarshal = λ s. unmarshal (cut b':' s); marshal = marshal; sprint = λ v. [] };
  gunzip = λ s. none;
  is_request = λ method url. true;
}

abbrev config : RelayConfig
config = record {
  upstream = codes "http://up/";
  mirror = codes "http://second";
  max_body = 100;
  relay_token = codes "t";
  mirror_token = [];
  pii = default_pii_config;
  item_policy = [];
}

-- A password is sent on as the mask of it.
abbrev secret : HttpRequest
secret = record {
  method = codes "POST";
  path = codes "/api/1/envelope/";
  uri = codes "/api/1/envelope/";
  headers = (codes "Connection", codes "close" ∷ []) ∷ (codes "Accept", codes "a" ∷ []) ∷ [];
  body = codes "{}\n" ++ (small_write (codes "span", 16) ++ codes "\npassword:hunter2\n");
}

abbrev masked : Bytes
masked = codes "{}\n" ++ (small_write (codes "span", 19) ++ codes "\npassword:[Filtered]\n")

secret-posted : equal secret.method (codes "POST") ≡ true
unfolding equal
secret-posted = refl

secret-api : has_prefix secret.path (codes "/api/") ≡ true
unfolding has_prefix
secret-api = refl

secret-envelope : is_envelope_path secret.path ≡ true
unfolding is_envelope_path has_suffix trim_suffix equal
secret-envelope = refl

secret-plain :
    equal_fold
      (trim_space (first_header (lookup (codes "Content-Encoding") secret.headers)))
      (codes "gzip")
    ≡ false
unfolding equal trim_space trim_left trim_right is_space to_lower to_lower_byte lookup
secret-plain = refl

secret-masked :
    scrub_envelope small_json small_outside.rx zeros small_outside.codec secret.body
      default_pii_config
    ≡ ok masked
unfolding scrub_envelope parse_envelope next_line parse_items parse_item parse_payload is_blank
    write_items scrub_item new_pii_processor normalized safe_set scrub_value scrub_member is_left
    should_skip action_for rule_for default_action redact replaced normalize_action
    join_selector_path is_listed cut contains has_prefix has_suffix trim_suffix equal to_lower
    to_lower_byte trim_space trim_left trim_right is_space lookup insert
secret-masked = refl

secret-kept : apply_item_policy small_json zeros [] masked ≡ ok (masked, 0)
unfolding apply_item_policy
secret-kept = refl

relay-forwards_example :
    (f : Forwarded) × (relay small_outside config secret true ≡ forwarded f)
    × (f.request.body ≡ masked)
    × (f.dropped_items ≡ 0)
    × NoHop f.request.headers
    × HasToken (codes "t") f.request.headers
relay-forwards_example =
    relay-forwards small_outside config secret true masked masked 0 secret-posted secret-api
      secret-envelope refl refl secret-plain secret-masked secret-kept refl

-- The body of /store is one event and not an envelope: what stands in one line goes on as it came in.
scrub_envelope_of_an_event :
    scrub_envelope small_json small_outside.rx zeros small_outside.codec
      (codes "password:hunter2")
      default_pii_config
    ≡ ok (codes "password:hunter2")
unfolding scrub_envelope parse_envelope next_line parse_items is_blank is_space write_items
    trim_suffix has_suffix equal cut
scrub_envelope_of_an_event = refl

is_envelope_path_of_store : is_envelope_path (codes "/api/1/store/") ≡ true
unfolding is_envelope_path has_suffix trim_suffix equal
is_envelope_path_of_store = refl

abbrev large : HttpRequest
large = record secret { headers = (codes "Content-Encoding", codes "gzip" ∷ []) ∷ [] }

-- A compressed body that gzip does not read is refused.
relay_unreadable : relay small_outside config large true ≡ answered 413
unfolding relay read_relay_body is_envelope_path has_prefix has_suffix trim_suffix equal trim_space
    trim_left trim_right is_space to_lower to_lower_byte lookup
relay_unreadable = refl

copy_relay_response_headers_runs :
    copy_relay_response_headers []
      ((codes "Access-Control-Allow-Origin", codes "*" ∷ []) ∷ (codes "Date", codes "d" ∷ []) ∷ [])
    ≡ (codes "Date", codes "d" ∷ []) ∷ []
unfolding copy_relay_response_headers is_hop_by_hop_header has_prefix equal trim_space trim_left
    trim_right is_space to_lower to_lower_byte insert crocuta.Prelude.delete
copy_relay_response_headers_runs = refl

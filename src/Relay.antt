-- ===== src/Relay.antt =====
-- internal/sentryx/relay.go: what the relay does with a request. The clients' requests and the answers of the
-- upstream are values, and gzip, encoding/json and http.NewRequest are parameters. A header is a map with
-- canonical keys. An outcome says what is sent on, and not whether the upstream answers. The logs and the
-- counters are left out.
pub mod Forwards
mod Tests
use crocuta.Prelude.{
  ℕ, ◌+◌, Bool, true, false, not, ◌&&◌, ◌||◌, List, [], ◌∷◌, ◌++◌, Option, none, some,
  if◌then◌else◌, ltb, Bytes, codes, equal, equal_fold, to_lower, trim_space, has_prefix, has_suffix,
  trim_suffix, Dict, lookup, insert, delete, length, ◌==◌,
}
use crocuta.Store.Digest.{Sha}
use crocuta.Envelope.{Json, Parsed, ok, err}
use crocuta.Envelope.Policy.{apply_item_policy}
use crocuta.Pii.{PiiConfig, Regexps}
use crocuta.Pii.Scrub.{Codec}
use crocuta.Pii.Envelopes.{scrub_envelope}

abbrev pub Headers : Type 0
Headers = Dict (List Bytes)

pub record HttpRequest : Type 0 where
  pub method : Bytes
  pub path : Bytes
  -- RequestURI of a request that comes in, the URL of one that goes out
  pub uri : Bytes
  pub headers : Headers
  pub body : Bytes

pub record RelayConfig : Type 0 where
  pub upstream : Bytes
  pub mirror : Bytes
  -- after the default for a bound that is not positive
  pub max_body : ℕ
  pub relay_token : Bytes
  pub mirror_token : Bytes
  pub pii : PiiConfig
  pub item_policy : Dict Bytes

pub record RelayOutside : Type 1 where
  pub json : Json
  pub rx : Regexps
  pub sha : Sha
  pub codec : Codec
  -- all that gzip.NewReader reads
  pub gunzip : Bytes → Option Bytes
  -- whether http.NewRequest takes the method and the URL
  pub is_request : Bytes → Bytes → Bool

unfoldable pub is_envelope_path : Bytes → Bool
is_envelope_path value =
    has_suffix (trim_suffix value (codes "/")) (codes "/envelope")
    || has_suffix (trim_suffix value (codes "/")) (codes "/store")

unfoldable pub is_hop_by_hop_header : Bytes → Bool
is_hop_by_hop_header key =
    let k = to_lower (trim_space key) in
    equal k (codes "connection")
    || equal k (codes "keep-alive")
    || equal k (codes "proxy-authenticate")
    || equal k (codes "proxy-authorization")
    || equal k (codes "te")
    || equal k (codes "trailer")
    || equal k (codes "transfer-encoding")
    || equal k (codes "upgrade")

-- Header.Get
abbrev pub first_header : Option (List Bytes) → Bytes
first_header none = []
first_header (some []) = []
first_header (some (value ∷ values)) = value

-- Header.Add of each of the values
abbrev pub add_header : Bytes → List Bytes → Headers → Headers
add_header key [] headers = headers
add_header key (value ∷ values) headers = insert key (value ∷ values) headers

unfoldable pub is_of_body : Bytes → Bool
is_of_body key =
    equal_fold key (codes "Content-Encoding") || equal_fold key (codes "Content-Length")

-- The headers of the source that go on.
unfoldable pub relayed_headers : Bool → Headers → Headers
relayed_headers scrub [] = []
relayed_headers scrub ((key, values) ∷ headers) =
    let rest = relayed_headers scrub headers in
    if is_hop_by_hop_header key
    then rest
    else if scrub && is_of_body key
    then rest
    else add_header key values rest

abbrev pub token_header : Bytes
token_header = codes "X-Sentryx-Relay-Token"

abbrev pub with_token : Bytes → Headers → Headers
with_token [] headers = headers
with_token (c ∷ token) headers = insert token_header ((c ∷ token) ∷ []) headers

-- strings.TrimRight(value, "/")
unfoldable pub trim_slashes : Bytes → Bytes
trim_slashes [] = []
trim_slashes (c ∷ cs) = onto_slashes c (trim_slashes cs)
  where
    onto_slashes : ℕ → Bytes → Bytes
    onto_slashes c [] = if c == b'/' then [] else c ∷ []
    onto_slashes c (d ∷ ds) = c ∷ d ∷ ds

-- What has been read of a body, and whether it is compressed.
pub data BodyRead : Type 0 where
  unreadable : BodyRead
  body_read : Bytes → Bool → BodyRead

pub record Forwarded : Type 0 where
  pub request : HttpRequest
  pub mirrored : Option HttpRequest
  pub dropped_items : ℕ

pub data RelayOutcome : Type 0 where
  answered : ℕ → RelayOutcome
  metrics : RelayOutcome
  forwarded : Forwarded → RelayOutcome

-- The headers of the upstream's answer, but for those of the connection and of CORS.
unfoldable pub copy_relay_response_headers : Headers → Headers → Headers
copy_relay_response_headers destination [] = destination
copy_relay_response_headers destination ((key, values) ∷ source) =
    copy_relay_response_headers
      (if is_hop_by_hop_header key || has_prefix (to_lower key) (codes "access-control-")
        then destination
        else add_header key values (delete key destination))
      source

module _ (o : RelayOutside) where
  abbrev pub limited : ℕ → Option Bytes → BodyRead
  limited max_body none = unreadable
  limited max_body (some body) =
      if ltb max_body (length body) then unreadable else body_read body true

  unfoldable pub read_relay_body : HttpRequest → ℕ → Bool → BodyRead
  read_relay_body r max_body decompress =
      let compressed =
        equal_fold (trim_space (first_header (lookup (codes "Content-Encoding") r.headers)))
          (codes "gzip") in
      if ltb max_body (length r.body)
      then unreadable
      else if not compressed || not decompress
      then body_read r.body compressed
      else limited max_body (o.gunzip r.body)

  unfoldable pub new_relay_request : HttpRequest → Bytes → Bytes → Bool → Bytes → Option HttpRequest
  new_relay_request source target_url body scrub token =
      if o.is_request source.method target_url
      then some (record source {
        uri = target_url;
        headers = with_token token (relayed_headers scrub source.headers);
        body = body;
      })
      else none

  -- Set of the encoding, where a compressed body goes on as it is.
  abbrev pub with_encoding : Bool → HttpRequest → HttpRequest
  with_encoding false r = r
  with_encoding true r = record r {
    headers = insert (codes "Content-Encoding") (codes "gzip" ∷ []) r.headers;
  }

  -- The request for the mirror, where there is a mirror and a free slot.
  abbrev pub mirror_request : RelayConfig → HttpRequest → Bool → Bytes → Bool → Option HttpRequest
  mirror_request config r scrub body has_slot =
      if not (equal config.mirror []) && is_envelope_path r.path && has_slot
      then new_relay_request r (trim_slashes config.mirror ++ r.uri) body scrub config.mirror_token
      else none

  abbrev pub forward : Option HttpRequest → Bool → Option HttpRequest → ℕ → RelayOutcome
  forward none encoded mirrored dropped = answered 502
  forward (some request) encoded mirrored dropped = forwarded record {
    request = with_encoding encoded request;
    mirrored = mirrored;
    dropped_items = dropped;
  }

  -- Behind the item policy.
  abbrev pub filtered :
      RelayConfig → HttpRequest → Bool → Bool → Bool → Parsed (Bytes × ℕ) → RelayOutcome
  filtered config r scrub compressed has_slot (err e) = answered 400
  filtered config r scrub compressed has_slot (ok (body, dropped)) =
      forward
        (new_relay_request r (trim_slashes config.upstream ++ r.uri) body scrub config.relay_token)
        (compressed && not scrub) (mirror_request config r scrub body has_slot) dropped

  -- Behind the scrubbing.
  abbrev pub scrubbed_body :
      RelayConfig → HttpRequest → Bool → Bool → Bool → Parsed Bytes → RelayOutcome
  scrubbed_body config r scrub compressed has_slot (err e) = answered 400
  scrubbed_body config r scrub compressed has_slot (ok body) =
      filtered config r scrub compressed has_slot (
        if is_envelope_path r.path
        then apply_item_policy o.json o.sha config.item_policy body
        else ok (body, 0))

  abbrev pub relay_body : RelayConfig → HttpRequest → Bool → Bool → BodyRead → RelayOutcome
  relay_body config r scrub has_slot unreadable = answered 413
  relay_body config r scrub has_slot (body_read body compressed) =
      scrubbed_body config r scrub compressed has_slot
        (if scrub then scrub_envelope o.json o.rx o.sha o.codec body config.pii else ok body)

  unfoldable pub relay : RelayConfig → HttpRequest → Bool → RelayOutcome
  relay config r has_slot =
      let scrub = config.pii.enabled && is_envelope_path r.path in
      if equal r.method (codes "OPTIONS")
      then answered 204
      else if equal r.path (codes "/health/live") || equal r.path (codes "/health/ready")
      then answered 200
      else if equal r.path (codes "/metrics")
      then metrics
      else if not (has_prefix r.path (codes "/api/")) || not (equal r.method (codes "POST"))
      then answered 404
      else relay_body config r scrub has_slot (read_relay_body r config.max_body scrub)

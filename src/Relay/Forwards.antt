-- ===== src/Relay/Forwards.antt =====
-- What the handler of internal/sentryx/relay.go sends on for an envelope.
use crocuta.Prelude.{
  ℕ, ◌≡◌, ◌≢◌, refl, sym, ap, ◌∙◌, Bool, true, false, ◌&&◌, List, [], ◌∷◌, ◌++◌, some, ltb, Bytes,
  codes, equal, equal_iff, equal_refl, equal_fold, to_lower, to_lower_byte, trim_space, trim_left,
  trim_right, is_space, has_prefix, lookup, insert, lookup-insert, length, Bool-cases, inl, inr,
}
use crocuta.Envelope.{ok}
use crocuta.Envelope.Policy.{apply_item_policy}
use crocuta.Pii.Envelopes.{scrub_envelope}
use crocuta.Relay.{
  Headers, HttpRequest, RelayConfig, RelayOutside, Forwarded, forwarded, is_envelope_path,
  is_hop_by_hop_header, first_header, add_header, relayed_headers, token_header, with_token,
  is_of_body, trim_slashes, read_relay_body, new_relay_request, mirror_request, relay,
}

-- No header is one of the connection.
abbrev pub NoHop : Headers → Type 0
NoHop [] = Unit
NoHop ((key, values) ∷ headers) = (is_hop_by_hop_header key ≡ false) × NoHop headers

-- A token that is not empty stands in the headers.
abbrev pub HasToken : Bytes → Headers → Type 0
HasToken [] headers = Unit
HasToken (c ∷ token) headers = lookup token_header headers ≡ some ((c ∷ token) ∷ [])

NoHop-insert :
    (key : Bytes) (values : List Bytes) (headers : Headers)
    → is_hop_by_hop_header key ≡ false
    → NoHop headers
    → NoHop (insert key values headers)
unfolding insert
NoHop-insert key values [] h a = (h, tt)
NoHop-insert key values ((k, vs) ∷ headers) h a = elim (Bool-cases (equal k key)) [
  | inl e ↦ rw e (h, a.1)
  | inr e ↦ rw e (a.0, NoHop-insert key values headers h a.1)
]

NoHop-add_header :
    (key : Bytes) (values : List Bytes) (headers : Headers)
    → is_hop_by_hop_header key ≡ false
    → NoHop headers
    → NoHop (add_header key values headers)
NoHop-add_header key [] headers h a = a
NoHop-add_header key (value ∷ values) headers h a = NoHop-insert key (value ∷ values) headers h a

NoHop-relayed_headers : (scrub : Bool) (headers : Headers) → NoHop (relayed_headers scrub headers)
unfolding relayed_headers
NoHop-relayed_headers scrub [] = tt
NoHop-relayed_headers scrub ((key, values) ∷ headers) =
    elim (Bool-cases (is_hop_by_hop_header key)) [
      | inl hop ↦ rw hop (NoHop-relayed_headers scrub headers)
      | inr plain ↦ elim (Bool-cases (scrub && is_of_body key)) [
        | inl body ↦ rw (plain, body) (NoHop-relayed_headers scrub headers)
        | inr other ↦
            rw (plain, other)
              (NoHop-add_header key values (relayed_headers scrub headers) plain
                (NoHop-relayed_headers scrub headers))
      ]
    ]

token_header-plain : is_hop_by_hop_header token_header ≡ false
unfolding is_hop_by_hop_header to_lower to_lower_byte trim_space trim_left trim_right is_space equal
token_header-plain = refl

NoHop-with_token :
    (token : Bytes) (headers : Headers) → NoHop headers → NoHop (with_token token headers)
NoHop-with_token [] headers a = a
NoHop-with_token (c ∷ token) headers a =
    NoHop-insert token_header ((c ∷ token) ∷ []) headers token_header-plain a

HasToken-with_token :
    (token : Bytes) (headers : Headers) → HasToken token (with_token token headers)
HasToken-with_token [] headers = tt
HasToken-with_token (c ∷ token) headers =
    rw (lookup-insert token_header token_header ((c ∷ token) ∷ []) headers, equal_refl token_header)
      refl

true-ne-false : true ≢ false
true-ne-false h = cc

differs : (s t : Bytes) (test : Bytes → Bool) → test s ≡ true → test t ≡ false → equal s t ≡ false
differs s t test h k = elim (Bool-cases (equal s t)) [
  | inr e ↦ e
  | inl e ↦ absurd (true-ne-false (sym h ∙ ap test ((equal_iff s t).0 e) ∙ k))
]

post-only :
    (method : Bytes) → equal method (codes "POST") ≡ true → equal method (codes "OPTIONS") ≡ false
unfolding equal
post-only method post = differs method (codes "OPTIONS") (λ s. equal s (codes "POST")) post refl

api-only :
    (path other : Bytes)
    → has_prefix path (codes "/api/") ≡ true
    → has_prefix other (codes "/api/") ≡ false
    → equal path other ≡ false
api-only path other api plain = differs path other (λ s. has_prefix s (codes "/api/")) api plain

live-plain : has_prefix (codes "/health/live") (codes "/api/") ≡ false
unfolding has_prefix
live-plain = refl

ready-plain : has_prefix (codes "/health/ready") (codes "/api/") ≡ false
unfolding has_prefix
ready-plain = refl

metrics-plain : has_prefix (codes "/metrics") (codes "/api/") ≡ false
unfolding has_prefix
metrics-plain = refl

module _ (o : RelayOutside) where
  -- An envelope that is posted to the API, with scrubbing on, and that is neither compressed nor too large is
  -- forwarded, whether or not there is a slot for the mirror: with the body that ScrubEnvelope and then
  -- ApplyItemPolicy give, the number of items dropped, no header of the connection, and the relay's token,
  -- if it has one. Both accept the body, and so does http.NewRequest the URL.
  pub relay-forwards :
      (config : RelayConfig) (r : HttpRequest) (has_slot : Bool) (body out : Bytes) (n : ℕ)
      → equal r.method (codes "POST") ≡ true
      → has_prefix r.path (codes "/api/") ≡ true
      → is_envelope_path r.path ≡ true
      → config.pii.enabled ≡ true
      → ltb config.max_body (length r.body) ≡ false
      → equal_fold
          (trim_space (first_header (lookup (codes "Content-Encoding") r.headers)))
          (codes "gzip")
        ≡ false
      → scrub_envelope o.json o.rx o.sha o.codec r.body config.pii ≡ ok body
      → apply_item_policy o.json o.sha config.item_policy body ≡ ok (out, n)
      → o.is_request r.method (trim_slashes config.upstream ++ r.uri) ≡ true
      → (f : Forwarded) × (relay o config r has_slot ≡ forwarded f)
        × (f.request.body ≡ out)
        × (f.dropped_items ≡ n)
        × NoHop f.request.headers
        × HasToken config.relay_token f.request.headers
  unfolding relay new_relay_request read_relay_body
  relay-forwards config r has_slot body out n post api path on small plain scrub kept sent = (
    record {
      request = record r {
        uri = trim_slashes config.upstream ++ r.uri;
        headers = with_token config.relay_token (relayed_headers true r.headers);
        body = out;
      };
      mirrored = mirror_request o config r true out has_slot;
      dropped_items = n;
    },
    rw
        (
          post-only r.method post,
          api-only r.path (codes "/health/live") api live-plain,
          api-only r.path (codes "/health/ready") api ready-plain,
          api-only r.path (codes "/metrics") api metrics-plain,
          api,
          post,
        )
        (simp (path, on, small, plain, scrub, kept, sent)),
    refl,
    refl,
    NoHop-with_token config.relay_token (relayed_headers true r.headers)
        (NoHop-relayed_headers true r.headers),
    HasToken-with_token config.relay_token (relayed_headers true r.headers),
  )

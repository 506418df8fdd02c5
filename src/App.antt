-- ===== src/App.antt =====
-- App of internal/sentryx/app.go: what handleAPI does with a POST of an envelope or an event; Tokens has the
-- keys that it asks for. The routes of the management API, which take other paths, are no part of it.
-- net/http gives every request a body, so that the test for a missing one is left out, as are the logs, the
-- counters, and the error of EnsureProject, which is only logged.
pub mod Admitted
pub mod Soundness
pub mod Tokens
mod Tests
use crocuta.Prelude.{
  ℕ, ◌+◌, Bool, true, false, not, ◌&&◌, ◌||◌, List, [], ◌∷◌, ◌++◌, Option, none, some,
  if◌then◌else◌, ltb, ◌==◌, Bytes, codes, equal, equal_fold, trim_space, cut, split, Dict, lookup,
  insert, length, ◌*◌,
}
use crocuta.Prelude.Int.{ℤ, pos, pos_part, leb_ℤ}
use crocuta.Envelope.{Parsed, ok, err}
use crocuta.Pii.{PiiConfig}
use crocuta.Pii.Envelopes.{scrub_envelope}
use crocuta.RateLimiter.{RateLimiter, Verdict, allow}
use crocuta.Control.{ControlPlane, Urls, ensure_project, valid_project_key}
use crocuta.Ingest.{Outside, Settings, Server}
use crocuta.Ingest.Items.{Ingested, nil_issue, refused, ingested, ingest}
use crocuta.Relay.{HttpRequest, first_header, token_header}
use crocuta.App.Tokens.{KeySet, parse_sentry_auth, valid_key}

-- The code outside the repository that handleAPI calls.
pub record AppOutside : Type 1 where
  pub inner : Outside
  pub urls : Urls
  -- URL.Query().Get: a value of the query
  pub query_value : Bytes → Bytes → Bytes
  -- net.SplitHostPort: the host, where the address has a port
  pub split_host_port : Bytes → Option Bytes
  -- all that gzip.NewReader reads
  pub gunzip : Bytes → Option Bytes
  -- json.Marshal of an empty event id, and of the type event with a length
  pub store_header : Bytes
  pub event_header : ℕ → Bytes

-- 5 << 20
abbrev default_max_envelope_bytes : ℕ
default_max_envelope_bytes = 5 * 1048576

abbrev ensured : Urls → Option ControlPlane → Bytes → Bytes → Option ControlPlane
ensured urls none project_id key = none
ensured urls (some control) project_id key = some (ensure_project urls control project_id key)

abbrev pub verdict : Option RateLimiter → Bytes → ℕ → Option Verdict
verdict none bucket now = none
verdict (some limiter) bucket now = some (allow limiter bucket now)

-- The path of a request for a project: /api/{project_id}/envelope/ or /api/{project_id}/store/.
pub data Intake : Type 0 where
  to_envelope to_store : Intake

pub data Response : Type 0 where
  answered : ℕ → Response
  rate_limited : ℕ → Response
  accepted : ℕ → Response
  panicked : Response

module _ (o : AppOutside) where
  pub record App : Type 0 where
    pub server : Server o.inner
    -- how the server's store is configured
    pub settings : Settings
    pub control : Option ControlPlane
    pub pii : PiiConfig
    pub max_envelope : ℤ
    pub relay_token : Bytes
    pub project_keys : Dict KeySet
    pub rate_limiter : Option RateLimiter

  unfoldable pub request_client_key : Bytes → Bytes
  request_client_key remote_addr = elim (o.split_host_port remote_addr) [
    | none ↦ remote_addr
    | some host ↦ host
  ]

  abbrev pub wrap_store_event : Bytes → Bytes
  wrap_store_event body =
      o.store_header ++ (b'\n' ∷ (o.event_header (length body) ++ (b'\n' ∷ body)))

  abbrev unpacked : ℕ → Option Bytes → Option Bytes
  unpacked max_bytes none = none
  unpacked max_bytes (some body) = if ltb max_bytes (length body) then none else some body

  unfoldable pub read_envelope_body : HttpRequest → ℤ → Option Bytes
  read_envelope_body r max =
      let max_bytes = if leb_ℤ max (pos 0) then default_max_envelope_bytes else pos_part max in
      let encoding = trim_space (first_header (lookup (codes "Content-Encoding") r.headers)) in
      if ltb max_bytes (length r.body)
      then none
      else if equal_fold encoding (codes "gzip")
      then unpacked max_bytes (o.gunzip r.body)
      else some r.body

  -- The key of the query, or else the one of the header.
  unfoldable pub key_of : HttpRequest → Bytes
  key_of r =
      let key = o.query_value r.uri (codes "sentry_key") in
      if equal key []
      then parse_sentry_auth (first_header (lookup (codes "X-Sentry-Auth") r.headers))
          (codes "sentry_key")
      else key

  abbrev pub lacks_token : App → HttpRequest → Bool
  lacks_token a r =
      not (equal a.relay_token [])
      && not (equal (first_header (lookup token_header r.headers)) a.relay_token)

  abbrev pub ingest_answer : App → Ingested o.inner → Response × App
  ingest_answer a (nil_issue server) = (panicked, record a { server = server })
  ingest_answer a (refused e) = (answered 400, a)
  ingest_answer a (ingested server n) = (accepted n, record a { server = server })

  -- Behind ScrubEnvelope.
  abbrev pub scrubbed_answer : App → Bytes → ℕ → Parsed Bytes → Response × App
  scrubbed_answer a project_id now (err e) = (answered 400, a)
  scrubbed_answer a project_id now (ok body) =
      ingest_answer a (ingest o.inner a.settings project_id body now a.server)

  abbrev pub enveloped : Intake → Bytes → Bytes
  enveloped to_envelope body = body
  enveloped to_store body = wrap_store_event body

  abbrev pub scrub_for : App → Bytes → Parsed Bytes
  scrub_for a body =
      scrub_envelope o.inner.json o.inner.rx o.inner.sha o.inner.event_json.codec body a.pii

  -- Behind readEnvelopeBody.
  abbrev pub read_answer : App → Bytes → Intake → ℕ → Option Bytes → Response × App
  read_answer a project_id kind now none = (answered 413, a)
  read_answer a project_id kind now (some body) =
      scrubbed_answer a project_id now (scrub_for a (enveloped kind body))

  -- Behind the rate limiter.
  abbrev pub limited_answer :
      App → HttpRequest → Bytes → Intake → ℕ → Option Verdict → Response × App
  limited_answer a r project_id kind now none =
      read_answer a project_id kind now (read_envelope_body r a.max_envelope)
  limited_answer a r project_id kind now (some v) =
      let a' = record a { rate_limiter = some v.limiter } in
      if v.allowed
      then read_answer a' project_id kind now (read_envelope_body r a.max_envelope)
      else (rate_limited v.retry_after, a')

  abbrev pub bucket_of : Bytes → Bytes → Bytes → Bytes
  bucket_of project_id key remote_addr =
      project_id ++ (b':' ∷ (key ++ (b':' ∷ request_client_key remote_addr)))

  -- A request with a key that is valid.
  abbrev pub keyed_answer : App → HttpRequest → Bytes → Bytes → Intake → Bytes → ℕ → Response × App
  keyed_answer a r remote_addr project_id kind key now =
      limited_answer (record a { control = ensured o.urls a.control project_id key }) r project_id
        kind now (verdict a.rate_limiter (bucket_of project_id key remote_addr) now)

  -- handleAPI on a POST of an envelope or an event for a project, which no route of the management API takes.
  unfoldable pub handle : App → HttpRequest → Bytes → Bytes → Intake → ℕ → Response × App
  handle a r remote_addr project_id kind now =
      let key = key_of r in
      if lacks_token a r
      then (answered 401, a)
      else if equal key []
      then (answered 401, a)
      else if not (valid_key a.project_keys a.control project_id key)
      then (answered 401, a)
      else keyed_answer a r remote_addr project_id kind key now

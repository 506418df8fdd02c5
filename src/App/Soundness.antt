-- ===== src/App/Soundness.antt =====
-- handleAPI of internal/sentryx/app.go over any run of envelopes and events: the state that the store, the rate limiter
-- and the control plane share.
use crocuta.Prelude.{
  ℕ, ◌≡◌, refl, List, [], ◌∷◌, Option, none, some, Bytes, equal, Bool-cases, Option-cases, inl, inr,
  lookup, AllValues-insert, arith,
}
use crocuta.Envelope.{Parsed, ok, err}
use crocuta.RateLimiter.{RateLimiter, Verdict}
use crocuta.RateLimiter.Bounds.{IsBounded, allow-IsBounded}
use crocuta.Control.{ControlPlane, Urls, ensure_project}
use crocuta.Control.Keys.{HasKeys}
use crocuta.Ingest.Issues.{IsGrouped}
use crocuta.Ingest.Items.{Ingested, nil_issue, refused, ingested}
use crocuta.Ingest.Grouped.{IsRefusedOrGrouped, ingest-IsGrouped}
use crocuta.Relay.{HttpRequest}
use crocuta.App.{
  AppOutside, App, Response, answered, rate_limited, accepted, panicked, Intake, verdict, handle,
  key_of, lacks_token, ingest_answer, scrubbed_answer, read_answer, limited_answer, keyed_answer,
  ensured,
}
use crocuta.App.Tokens.{valid_key}

abbrev pub LimiterIsBounded : Option RateLimiter → Type 0
LimiterIsBounded none = Unit
LimiterIsBounded (some limiter) = IsBounded limiter

abbrev pub ControlHasKeys : Option ControlPlane → Type 0
ControlHasKeys none = Unit
ControlHasKeys (some control) = HasKeys control

abbrev VerdictIsBounded : Option Verdict → Type 0
VerdictIsBounded none = Unit
VerdictIsBounded (some v) = IsBounded v.limiter

verdict-IsBounded :
    (limiter : Option RateLimiter) (bucket : Bytes) (now : ℕ)
    → LimiterIsBounded limiter
    → VerdictIsBounded (verdict limiter bucket now)
verdict-IsBounded none bucket now b = tt
verdict-IsBounded (some limiter) bucket now b = allow-IsBounded limiter bucket now b

ensure_project-HasKeys :
    (urls : Urls) (control : ControlPlane) (project_id key : Bytes)
    → HasKeys control
    → HasKeys (ensure_project urls control project_id key)
unfolding ensure_project
ensure_project-HasKeys urls control project_id key h =
    elim (Option-cases (lookup project_id control.projects)) [
      | inr (project, found) ↦ rw (found, ensure_project) h
      | inl missing ↦
          rw (missing, ensure_project)
            (AllValues-insert _ project_id _ control.keys (omega arith) h)
    ]

ensured-HasKeys :
    (urls : Urls) (control : Option ControlPlane) (project_id key : Bytes)
    → ControlHasKeys control
    → ControlHasKeys (ensured urls control project_id key)
ensured-HasKeys urls none project_id key h = tt
ensured-HasKeys urls (some control) project_id key h =
    ensure_project-HasKeys urls control project_id key h

module _ (o : AppOutside) where
  -- Each group of the store has its issue, the limiter is within its bounds, and each project of the control
  -- plane has a key.
  abbrev pub IsSound : App o → Type 0
  IsSound a = IsGrouped a.server.tables × LimiterIsBounded a.rate_limiter × ControlHasKeys a.control

  abbrev StaysSound : Response × App o → Type 0
  StaysSound (answered status, a) = IsSound a
  StaysSound (rate_limited seconds, a) = IsSound a
  StaysSound (accepted n, a) = IsSound a
  StaysSound (panicked, a) = ⊥

  ingest_answer-StaysSound :
      (a : App o) (result : Ingested o.inner)
      → IsSound a
      → IsRefusedOrGrouped o.inner result
      → StaysSound (ingest_answer o a result)
  ingest_answer-StaysSound a (nil_issue server) s g = absurd g
  ingest_answer-StaysSound a (refused e) s g = s
  ingest_answer-StaysSound a (ingested server n) s g = (g, s.1, s.2)

  scrubbed_answer-StaysSound :
      (a : App o) (project_id : Bytes) (now : ℕ) (result : Parsed Bytes)
      → IsSound a
      → StaysSound (scrubbed_answer o a project_id now result)
  scrubbed_answer-StaysSound a project_id now (err e) s = s
  scrubbed_answer-StaysSound a project_id now (ok body) s =
      ingest_answer-StaysSound a _ s
        (ingest-IsGrouped o.inner a.settings project_id body now a.server s.0)

  read_answer-StaysSound :
      (a : App o) (project_id : Bytes) (kind : Intake) (now : ℕ) (result : Option Bytes)
      → IsSound a
      → StaysSound (read_answer o a project_id kind now result)
  read_answer-StaysSound a project_id kind now none s = s
  read_answer-StaysSound a project_id kind now (some body) s =
      scrubbed_answer-StaysSound a project_id now _ s

  limited_answer-StaysSound :
      (a : App o) (r : HttpRequest) (project_id : Bytes) (kind : Intake) (now : ℕ)
      (v : Option Verdict)
      → IsSound a
      → VerdictIsBounded v
      → StaysSound (limited_answer o a r project_id kind now v)
  limited_answer-StaysSound a r project_id kind now none s b =
      read_answer-StaysSound a project_id kind now _ s
  limited_answer-StaysSound a r project_id kind now (some v) s b =
      let s' : IsSound (record a { rate_limiter = some v.limiter }) = (s.0, b, s.2) in
      elim (Bool-cases v.allowed) [
        | inl passed ↦ rw passed (read_answer-StaysSound _ project_id kind now _ s')
        | inr denied ↦ rw denied s'
      ]

  keyed_answer-StaysSound :
      (a : App o) (r : HttpRequest) (remote_addr project_id : Bytes) (kind : Intake) (key : Bytes)
      (now : ℕ)
      → IsSound a
      → StaysSound (keyed_answer o a r remote_addr project_id kind key now)
  keyed_answer-StaysSound a r remote_addr project_id kind key now s =
      limited_answer-StaysSound _ r project_id kind now _
        (s.0, s.1, ensured-HasKeys o.urls a.control project_id key s.2)
        (verdict-IsBounded a.rate_limiter _ now s.1)

  handle-StaysSound :
      (a : App o) (r : HttpRequest) (remote_addr project_id : Bytes) (kind : Intake) (now : ℕ)
      → IsSound a
      → StaysSound (handle o a r remote_addr project_id kind now)
  unfolding handle
  handle-StaysSound a r remote_addr project_id kind now s = elim (Bool-cases (lacks_token o a r)) [
    | inl e ↦ rw e s
    | inr token ↦ elim (Bool-cases (equal (key_of o r) [])) [
      | inl e ↦ rw (token, e) s
      | inr named ↦ elim (Bool-cases (valid_key a.project_keys a.control project_id (key_of o r))) [
        | inr e ↦ rw (token, named, e) s
        | inl valid ↦
            rw (token, named, valid)
              (keyed_answer-StaysSound a r remote_addr project_id kind (key_of o r) now s)
      ]
    ]
  ]

  pub record Call : Type 0 where
    pub request : HttpRequest
    pub remote_addr : Bytes
    pub project_id : Bytes
    pub kind : Intake
    pub at : ℕ

  abbrev pub go_on : Response × App o → (App o → Option (App o)) → Option (App o)
  go_on (panicked, a) next = none
  go_on (answered status, a) next = next a
  go_on (rate_limited seconds, a) next = next a
  go_on (accepted n, a) next = next a

  -- The calls in the order in which they take effect, and `none` where one panics.
  unfoldable pub handle_all : App o → List Call → Option (App o)
  handle_all a [] = some a
  handle_all a (c ∷ calls) =
      go_on (handle o a c.request c.remote_addr c.project_id c.kind c.at) (λ b. handle_all b calls)

  go_on-Soundly :
      (result : Response × App o) (next : App o → Option (App o))
      → StaysSound result
      → ((b : App o) → IsSound b → (c : App o) × (next b ≡ some c) × IsSound c)
      → (c : App o) × (go_on result next ≡ some c) × IsSound c
  go_on-Soundly (panicked, a) next s continue = absurd s
  go_on-Soundly (answered status, a) next s continue = continue a s
  go_on-Soundly (rate_limited seconds, a) next s continue = continue a s
  go_on-Soundly (accepted n, a) next s continue = continue a s

  -- From a sound state, any run of envelopes and events that are posted, one after the other and with no
  -- call of the management API in between, is served without a panic and leaves a sound state: each group of
  -- the store has its issue, the limiter's table and counters are within their bounds, and each project in
  -- the control plane's table of keys has a key.
  pub handle_all-IsSound :
      (a : App o) (calls : List Call)
      → IsSound a
      → (b : App o) × (handle_all a calls ≡ some b) × IsSound b
  unfolding handle_all
  handle_all-IsSound a [] s = (a, refl, s)
  handle_all-IsSound a (c ∷ calls) s =
      go_on-Soundly _ (λ b. handle_all b calls)
        (handle-StaysSound a c.request c.remote_addr c.project_id c.kind c.at s)
        (λ b t. handle_all-IsSound b calls t)

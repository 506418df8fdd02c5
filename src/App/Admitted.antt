-- ===== src/App/Admitted.antt =====
-- handleAPI of internal/sentryx/app.go: which envelopes reach the store.
use crocuta.Prelude.{
  ℕ, ◌≡◌, refl, true, false, [], Option, none, some, Bytes, equal, Bool-cases, inl, inr,
}
use crocuta.Envelope.{Parsed, ok, err}
use crocuta.RateLimiter.{RateLimiter, Verdict}
use crocuta.Control.{ControlPlane}
use crocuta.Ingest.Items.{Ingested, nil_issue, refused, ingested, ingest}
use crocuta.Relay.{HttpRequest}
use crocuta.App.{
  AppOutside, App, Response, answered, rate_limited, accepted, panicked, Intake, verdict, handle,
  key_of, lacks_token, read_envelope_body, scrub_for, enveloped, bucket_of, ingest_answer,
  scrubbed_answer, read_answer, limited_answer,
}
use crocuta.App.Tokens.{valid_key}

abbrev pub WasAllowed : Option Verdict → Type 0
WasAllowed none = Unit
WasAllowed (some v) = v.allowed ≡ true

module _ (o : AppOutside) (a : App o) (r : HttpRequest) (remote_addr project_id : Bytes)
    (kind : Intake) (now : ℕ) where
  -- A body within the bounds that ScrubEnvelope takes, and what Ingest makes of it.
  abbrev pub Ingests : Ingested o.inner → Type 0
  Ingests result =
      (body : Bytes) × (scrubbed : Bytes) × (read_envelope_body o r a.max_envelope ≡ some body)
      × (scrub_for o a (enveloped o kind body) ≡ ok scrubbed)
      × (ingest o.inner a.settings project_id scrubbed now a.server ≡ result)

  -- The relay's token, a valid key, and a call that the limiter lets pass.
  abbrev pub Guarded : Type 0
  Guarded =
      (lacks_token o a r ≡ false)
      × (equal (key_of o r) [] ≡ false)
      × (valid_key a.project_keys a.control project_id (key_of o r) ≡ true)
      × WasAllowed (verdict a.rate_limiter (bucket_of o project_id (key_of o r) remote_addr) now)

  abbrev FiledOrKept : Response × App o → Type 0
  FiledOrKept (accepted n, after) = Ingests (ingested after.server n)
  FiledOrKept (answered status, after) = after.server ≡ a.server
  FiledOrKept (rate_limited seconds, after) = after.server ≡ a.server
  FiledOrKept (panicked, after) = Ingests (nil_issue after.server)

  abbrev pub AdmittedOrKept : Response × App o → Type 0
  AdmittedOrKept (accepted n, after) = Guarded × Ingests (ingested after.server n)
  AdmittedOrKept (answered status, after) = after.server ≡ a.server
  AdmittedOrKept (rate_limited seconds, after) = after.server ≡ a.server
  AdmittedOrKept (panicked, after) = Guarded × Ingests (nil_issue after.server)

  guarded : (result : Response × App o) → Guarded → FiledOrKept result → AdmittedOrKept result
  guarded (accepted n, after) g f = (g, f)
  guarded (answered status, after) g f = f
  guarded (rate_limited seconds, after) g f = f
  guarded (panicked, after) g f = (g, f)

  module _ (control : Option ControlPlane) (limiter : Option RateLimiter) where
    abbrev now_app : App o
    now_app = record a { control = control; rate_limiter = limiter }

    ingest_answer-Filed :
        (body scrubbed : Bytes) (result : Ingested o.inner)
        → read_envelope_body o r a.max_envelope ≡ some body
        → scrub_for o a (enveloped o kind body) ≡ ok scrubbed
        → ingest o.inner a.settings project_id scrubbed now a.server ≡ result
        → FiledOrKept (ingest_answer o now_app result)
    ingest_answer-Filed body scrubbed (nil_issue server) read scrub filed =
        (body, scrubbed, read, scrub, filed)
    ingest_answer-Filed body scrubbed (refused e) read scrub filed = refl
    ingest_answer-Filed body scrubbed (ingested server n) read scrub filed =
        (body, scrubbed, read, scrub, filed)

    scrubbed_answer-Filed :
        (body : Bytes) (result : Parsed Bytes)
        → read_envelope_body o r a.max_envelope ≡ some body
        → scrub_for o a (enveloped o kind body) ≡ result
        → FiledOrKept (scrubbed_answer o now_app project_id now result)
    scrubbed_answer-Filed body (err e) read scrub = refl
    scrubbed_answer-Filed body (ok scrubbed) read scrub =
        ingest_answer-Filed body scrubbed _ read scrub refl

    read_answer-Filed :
        (result : Option Bytes)
        → read_envelope_body o r a.max_envelope ≡ result
        → FiledOrKept (read_answer o now_app project_id kind now result)
    read_answer-Filed none read = refl
    read_answer-Filed (some body) read = scrubbed_answer-Filed body _ read refl

  limited_answer-Admitted :
      (control : Option ControlPlane) (v : Option Verdict)
      → (WasAllowed v → Guarded)
      → AdmittedOrKept (limited_answer o (record a { control = control }) r project_id kind now v)
  limited_answer-Admitted control none g =
      guarded _ (g tt) (read_answer-Filed control a.rate_limiter _ refl)
  limited_answer-Admitted control (some v) g = elim (Bool-cases v.allowed) [
    | inl passed ↦
        rw passed (guarded _ (g passed) (read_answer-Filed control (some v.limiter) _ refl))
    | inr denied ↦ rw denied refl
  ]

  -- Where an envelope or an event that is posted is accepted, the request had the relay's token, if one is
  -- set, and a key that is valid for the project, and the limiter let it pass; its body was read within the
  -- bound, ScrubEnvelope took it, and the store is what Ingest makes of the scrubbed body. The same holds
  -- for a panic of Ingest, which leaves the store that it had reached. Every other answer leaves the store
  -- as it was.
  pub handle-Admitted : AdmittedOrKept (handle o a r remote_addr project_id kind now)
  unfolding handle
  handle-Admitted = elim (Bool-cases (lacks_token o a r)) [
    | inl e ↦ rw e refl
    | inr token ↦ elim (Bool-cases (equal (key_of o r) [])) [
      | inl e ↦ rw (token, e) refl
      | inr named ↦ elim (Bool-cases (valid_key a.project_keys a.control project_id (key_of o r))) [
        | inr e ↦ rw (token, named, e) refl
        | inl valid ↦
            rw (token, named, valid)
              (limited_answer-Admitted _ _ (λ allowed. (token, named, valid, allowed)))
      ]
    ]
  ]

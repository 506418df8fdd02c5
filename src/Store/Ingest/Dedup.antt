-- ===== src/Store/Ingest/Dedup.antt =====
-- Store.Ingest of internal/sentryx/app.go on events that come twice.
use crocuta.Prelude.{
  ℕ, ◌+◌, ◌≡◌, ap, ◌∙◌, Bool, true, false, List, [], ◌∷◌, none, some, >>=-eq-some, if◌then◌else◌,
  Bytes, lookup, insert, length, arith, Option-cases, ◌⊎◌, inl, inr, equal_refl, lookup-insert,
  length-insert_new,
}
use crocuta.Store.{Event, Store}
use crocuta.Store.Digest.{Sha}
use crocuta.Store.Ingest.{
  scoped, is_some, with_group, file_event, add_event, record_event, record_events,
}

events-with_group :
    (sha : Sha) (s : Store) (e : Event) (g : Bytes) (now : ℕ)
    → (with_group sha s e g now).0.events ≡ s.events
unfolding with_group
events-with_group sha s e g now = ground arith

events-file_event :
    (s : Store) (e : Event) (issue_id : Bytes) (now : ℕ) {t : Store}
    → file_event s e issue_id now ≡ some t
    → t.events ≡ insert (scoped e.project_id e.event_id) (record e { issue_id = issue_id }) s.events
unfolding file_event
events-file_event s e issue_id now h = ground arith

events-add_event :
    (sha : Sha) (s : Store) (e : Event) (g : Bytes) (now : ℕ) {t : Store}
    → add_event sha s e g now ≡ some t
    → t.events
      ≡ insert
          (scoped e.project_id e.event_id)
          (record e { issue_id = (with_group sha s e g now).1 })
          s.events
unfolding add_event
events-add_event sha s e g now h =
    events-file_event (with_group sha s e g now).0 e (with_group sha s e g now).1 now h
    ∙ ap (insert _ _) (events-with_group sha s e g now)

-- What a call does to the table of events.
abbrev Outcome : Sha → Store → Event → Bytes → ℕ → Store → Bool → Type 0
Outcome sha s e g now t new =
    let key = scoped e.project_id e.event_id in
    (is_some (lookup key s.events) ≡ true) × (new ≡ false) × (t ≡ s)
    ⊎ (lookup key s.events ≡ none)
      × (new ≡ true)
      × (t.events ≡ insert key (record e { issue_id = (with_group sha s e g now).1 }) s.events)

record_event-Outcome :
    (sha : Sha) (s : Store) (e : Event) (g : Bytes) (now : ℕ) {t : Store} {new : Bool}
    → record_event sha s e g now ≡ some (t, new)
    → Outcome sha s e g now t new
unfolding record_event
record_event-Outcome sha s e g now {t} {new} h =
    elim (Option-cases (lookup (scoped e.project_id e.event_id) s.events)) [
      | inl missing ↦ elim (Option-cases (add_event sha s e g now)) [
        | inl fails ↦ absurd (ground arith)
        | inr (u, done) ↦
            let same : t ≡ u = ground arith in
            inr
              (missing, ground arith, ap (λ x. x.events) same ∙ events-add_event sha s e g now done)
      ]
      | inr (old, found) ↦ inl (ground arith)
    ]

-- An event that has been stored is not stored again, whatever its hash is then, and the store stays
-- as it was.
pub record_event-again :
    (sha : Sha) (s : Store) (e : Event) (g h : Bytes) (now later : ℕ) {t : Store} {new : Bool}
    → record_event sha s e g now ≡ some (t, new)
    → record_event sha t e h later ≡ some (t, false)
unfolding record_event
record_event-again sha s e g h now later r =
    let filed = record e { issue_id = (with_group sha s e g now).1 } in
    let key = scoped e.project_id e.event_id in
    ground (
      arith,
      record_event-Outcome sha s e g now r,
      lookup-insert key key filed s.events,
      equal_refl key,
    )

-- Of a sequence of events as many are accepted as the table of events grows by, whatever events come
-- twice.
pub accepted_grows :
    (sha : Sha) (s : Store) (batch : List (Event × Bytes)) (now accepted : ℕ) {t : Store}
    {total : ℕ}
    → record_events sha s batch now accepted ≡ some (t, total)
    → total + length s.events ≡ accepted + length t.events
unfolding record_events
accepted_grows sha s [] now accepted h = ground arith
accepted_grows sha s ((e, g) ∷ rest) now accepted h =
    let ((u, new), first, later) = >>=-eq-some (record_event sha s e g now) _ h in
    let filed = record e { issue_id = (with_group sha s e g now).1 } in
    ground (
      arith,
      record_event-Outcome sha s e g now first,
      length-insert_new (scoped e.project_id e.event_id) filed s.events,
      accepted_grows sha u rest now (if new then accepted + 1 else accepted) later,
    )

-- ===== src/Ingest/Issues.antt =====
-- The section of Store.Ingest of internal/sentryx/app.go that reads an issue of a group through a pointer,
-- which is nil where there is no such issue.
use mathlib.Core.Option.{some-injective}
use crocuta.Prelude.{
  ℕ, subst, ◌≡◌, ◌≢◌, refl, Bool, true, false, [], Option, none, some, Bytes, equal, equal_iff,
  equal_refl, Dict, lookup, insert, lookup-insert, Bool-cases, Option-cases, inl, inr, arith,
}
use crocuta.Store.{Event, Issue, Store}
use crocuta.Store.Digest.{Sha, short_hash, short_hash-ne-nil}
use crocuta.Store.Ingest.{
  scoped, is_some, new_issue, with_group, count_event, file_event, add_event, record_event,
}

-- Each group has an id, and there is an issue of that id.
abbrev pub IsGrouped : Store → Type 0
IsGrouped s =
    (k id : Bytes)
    → lookup k s.group_to_id ≡ some id
    → (id ≢ []) × (is_some (lookup id s.issues) ≡ true)

is_some-insert :
    (k j : Bytes) (i : Issue) (m : Dict Issue)
    → is_some (lookup j m) ≡ true
    → is_some (lookup j (insert k i m)) ≡ true
is_some-insert k j i m h = ground (arith, lookup-insert k j i m)

is_some-insert_same :
    (k : Bytes) (i : Issue) (m : Dict Issue) → is_some (lookup k (insert k i m)) ≡ true
is_some-insert_same k i m = rw (lookup-insert k k i m, equal_refl k) refl

is_some-eq : (o : Option Issue) → is_some o ≡ true → (i : Issue) × (o ≡ some i)
is_some-eq none h = cc
is_some-eq (some i) h = (i, refl)

module _ (sha : Sha) (s : Store) (e : Event) (g : Bytes) (now : ℕ) (grouped : IsGrouped s) where
  abbrev key : Bytes
  key = scoped e.project_id g

  grown-IsGrouped :
      (hash : Bytes) (i : Issue) (k id : Bytes)
      → hash ≢ []
      → lookup k (insert key hash s.group_to_id) ≡ some id
      → (id ≢ []) × (is_some (lookup id (insert hash i s.issues)) ≡ true)
  grown-IsGrouped hash i k id full found = elim (Bool-cases (equal key k)) [
    | inl h ↦
        let same : hash ≡ id =
          some-injective _ _ (rw (lookup-insert key k hash s.group_to_id, h) at found) in
        subst (λ (j : Bytes). (j ≢ []) × (is_some (lookup j (insert hash i s.issues)) ≡ true)) same
          (full, is_some-insert_same hash i s.issues)
    | inr h ↦
        let (named, there) =
          grouped k id (rw (lookup-insert key k hash s.group_to_id, h) at found) in
        (named, is_some-insert hash id i s.issues there)
  ]

  with_group-IsGrouped :
      IsGrouped (with_group sha s e g now).0
      × (is_some (lookup (with_group sha s e g now).1 (with_group sha s e g now).0.issues) ≡ true)
  unfolding with_group equal
  with_group-IsGrouped = elim (Option-cases (lookup key s.group_to_id)) [
    | inl missing ↦ rw missing (
      λ k id found.
          grown-IsGrouped (short_hash sha key) (new_issue (short_hash sha key) e g now) k id
            (λ x. short_hash-ne-nil sha key x) found,
      is_some-insert_same (short_hash sha key) (new_issue (short_hash sha key) e g now) s.issues,
    )
    | inr (id, found) ↦
        let (full, there) = grouped key id found in
        let named : equal id [] ≡ false = ground (arith, equal_iff id [], full) in
        rw (found, named) (grouped, there)
  ]

  file_event-known :
      (t : Store) (id : Bytes) (i : Issue)
      → IsGrouped t
      → lookup id t.issues ≡ some i
      → (u : Store) × (file_event t e id now ≡ some u) × IsGrouped u
  unfolding file_event
  file_event-known t id i g known = (
    record t {
      issues = insert id (count_event i e now) t.issues;
      events = insert (scoped e.project_id e.event_id) (record e { issue_id = id }) t.events;
    },
    rw known refl,
    λ k j found.
        ((g k j found).0, is_some-insert id j (count_event i e now) t.issues (g k j found).1),
  )

  file_event-IsGrouped :
      (t : Store) (id : Bytes)
      → IsGrouped t
      → is_some (lookup id t.issues) ≡ true
      → (u : Store) × (file_event t e id now ≡ some u) × IsGrouped u
  file_event-IsGrouped t id g there =
      let (i, known) = is_some-eq (lookup id t.issues) there in file_event-known t id i g known

  -- From a store in which each group has its issue, an event is always recorded, and each group has its issue
  -- afterwards.
  pub record_event-IsGrouped :
      (t : Store) × (new : Bool) × (record_event sha s e g now ≡ some (t, new)) × IsGrouped t
  unfolding record_event add_event
  record_event-IsGrouped =
      elim (Bool-cases (is_some (lookup (scoped e.project_id e.event_id) s.events))) [
        | inl old ↦ (s, false, rw old refl, grouped)
        | inr new ↦
            let (one, there) = with_group-IsGrouped in
            let (u, done, all) =
              file_event-IsGrouped (with_group sha s e g now).0 (with_group sha s e g now).1 one
                there in
            (u, true, rw (new, done) refl, all)
      ]

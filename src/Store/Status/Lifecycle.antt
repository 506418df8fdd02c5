-- ===== src/Store/Status/Lifecycle.antt =====
-- The states of an issue under SetIssueStatus and Ingest of internal/sentryx/features.go and app.go.
use crocuta.Prelude.{
  ℕ, ◌+◌, ◌≡◌, ◌≢◌, true, [], none, some, Bytes, Option-cases, equal_iff, equal_refl, lookup,
  insert, lookup-insert, arith, ◌⊎◌, inl, inr, AllValues, AllValues-insert, to_lower, trim_space,
}
use crocuta.Store.{Event, Issue, Store}
use crocuta.Store.Digest.{Sha}
use crocuta.Store.Ingest.{
  scoped, with_group, reopen, count_event, file_event, add_event, record_event,
}
use crocuta.Store.Status.{
  ok, resolved, unresolved, ignored, with_status, store_status, set_issue_status,
}

abbrev IsStatus : Bytes → Type 0
IsStatus status = (status ≡ resolved) ⊎ (status ≡ unresolved) ⊎ (status ≡ ignored)

-- Every issue of the store has one of the three states.
abbrev pub HasStates : Store → Type 0
HasStates s = AllValues (λ i. IsStatus i.status) s.issues

store_status-HasStates :
    (s : Store) (id status release : Bytes) (now : ℕ) {t : Store} {i : Issue}
    → IsStatus status
    → HasStates s
    → store_status s id status release now ≡ ok (t, i)
    → HasStates t × (lookup id t.issues ≡ some i) × (i.status ≡ status)
unfolding store_status with_status
store_status-HasStates s id status release now {t} {i} known h e =
    elim (Option-cases (lookup id s.issues)) [
      | inl missing ↦ absurd (ground arith)
      | inr (old, found) ↦
          let changed = with_status old status release now in
          let all : AllValues (λ i. IsStatus i.status) (insert id changed s.issues) =
            AllValues-insert _ id changed s.issues known h in
          let same : t.issues ≡ insert id changed s.issues = ground arith in
          let given : i ≡ changed = ground arith in
          (
            rw same all,
            rw same (ground (arith, lookup-insert id id changed s.issues, equal_refl id)),
            ground arith,
          )
    ]

-- Setting a state succeeds for the three states alone, in any case and with space around them; the
-- issue then has that state, and all issues have one of the three.
pub set_issue_status-HasStates :
    (s : Store) (id status release : Bytes) (now : ℕ) {t : Store} {i : Issue}
    → HasStates s
    → set_issue_status s id status release now ≡ ok (t, i)
    → IsStatus (to_lower (trim_space status))
      × HasStates t
      × (lookup id t.issues ≡ some i)
      × (i.status ≡ to_lower (trim_space status))
unfolding set_issue_status
set_issue_status-HasStates s id status release now {t} {i} h e =
    let normal = to_lower (trim_space status) in
    let known : IsStatus normal =
      ground
        (arith, equal_iff normal resolved, equal_iff normal unresolved, equal_iff normal ignored) in
    let done : store_status s id normal release now ≡ ok (t, i) = ground arith in
    let r = store_status-HasStates s id normal release now known h done in (known, r.0, r.1, r.2)

-- What a new event makes of the issue of its group.
pub record After (i j : Issue) : Type 0 where
  pub counted : j.count ≡ i.count + 1
  pub reopened : i.status ≡ resolved → (j.status ≡ unresolved) × (j.regression ≡ true)
  pub left_alone : i.status ≢ resolved → (j.status ≡ i.status) × (j.regression ≡ i.regression)

count_event-After : (i : Issue) (e : Event) (now : ℕ) → After i (count_event i e now)
unfolding count_event reopen
count_event-After i e now = record {
  counted = ground arith;
  reopened = λ h. ground (arith, equal_iff i.status resolved);
  left_alone = λ h. ground (arith, equal_iff i.status resolved);
}

module _ (sha : Sha) (s : Store) (e : Event) (g id : Bytes) (now : ℕ) (i : Issue)
    (new : lookup (scoped e.project_id e.event_id) s.events ≡ none)
    (group : lookup (scoped e.project_id g) s.group_to_id ≡ some id) (named : id ≢ [])
    (known : lookup id s.issues ≡ some i) where
  with_group-known : with_group sha s e g now ≡ (s, id)
  unfolding with_group
  with_group-known = ground (arith, equal_iff id [])

  abbrev after_event : Store
  after_event = record s {
    issues = insert id (count_event i e now) s.issues;
    events = insert (scoped e.project_id e.event_id) (record e { issue_id = id }) s.events;
  }

  add_event-known : add_event sha s e g now ≡ some after_event
  unfolding add_event file_event
  add_event-known = rw with_group-known (rw (known, file_event))

  -- A new event of a known group is counted by the group's issue: one that was resolved comes back
  -- as an unresolved regression, one in another state keeps it, and all other issues stay as they
  -- were.
  pub record_event-After :
      (t : Store) × (j : Issue) × (record_event sha s e g now ≡ some (t, true))
      × (lookup id t.issues ≡ some j)
      × After i j
      × ((k : Bytes) → id ≢ k → lookup k t.issues ≡ lookup k s.issues)
  unfolding record_event
  record_event-After = (
    after_event,
    count_event i e now,
    rw (new, add_event-known),
    ground (arith, lookup-insert id id (count_event i e now) s.issues, equal_refl id),
    count_event-After i e now,
    λ k other. ground (arith, lookup-insert id k (count_event i e now) s.issues, equal_iff id k),
  )

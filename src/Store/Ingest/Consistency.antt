-- ===== src/Store/Ingest/Consistency.antt =====
-- Store.Ingest of internal/sentryx/app.go and how the tables of the store fit together.
use crocuta.Prelude.{
  ℕ, ◌+◌, ◌<◌, ◌≡◌, refl, Bool, true, false, [], ◌∷◌, Option, none, some, if◌then◌else◌, Bytes,
  lookup, insert, Dict, arith, Bool-cases, Option-cases, inl, inr, equal, equal_refl, equal_iff,
  lookup-insert, ltb,
}
use crocuta.Store.{Event, Issue, Store, new_store}
use crocuta.Store.Digest.{Sha, short_hash, short_hash-ne-nil}
use crocuta.Store.Ingest.{
  scoped, is_some, new_issue, with_group, count_event, file_event, add_event, record_event, reopen,
}

-- The events that are filed under an issue.
abbrev pub count_issue : Bytes → Dict Event → ℕ
count_issue id [] = 0
count_issue id ((k, e) ∷ m) = (if equal e.issue_id id then 1 else 0) + count_issue id m

count_issue-insert :
    (id k : Bytes) (e : Event) (m : Dict Event)
    → lookup k m ≡ none
    → count_issue id (insert k e m) ≡ count_issue id m + (if equal e.issue_id id then 1 else 0)
unfolding lookup insert
count_issue-insert id k e [] h = omega arith
count_issue-insert id k e ((j, w) ∷ m) h = ground (arith, count_issue-insert id k e m)

pub record IsConsistent (sha : Sha) (s : Store) : Type 0 where
  pub grouped :
      (k id : Bytes)
      → lookup k s.group_to_id ≡ some id
      → (id ≡ short_hash sha k) × (is_some (lookup id s.issues) ≡ true)
  pub filed :
      (id : Bytes) → 0 < count_issue id s.events → (k : Bytes) × (lookup k s.group_to_id ≡ some id)
  pub counted :
      (id : Bytes) (i : Issue) → lookup id s.issues ≡ some i → i.count ≡ count_issue id s.events

pub new_store-IsConsistent : (sha : Sha) → IsConsistent sha new_store
unfolding lookup
new_store-IsConsistent sha = record {
  grouped = λ k id e. cc;
  filed = λ id h. absurd (omega arith);
  counted = λ id i e. cc;
}

-- No other group of the store has the short hash of this group.
abbrev pub NoCollision : Sha → Store → Bytes → Type 0
NoCollision sha s key = (k : Bytes) → lookup k s.group_to_id ≡ some (short_hash sha key) → k ≡ key

module _ (sha : Sha) (s : Store) (e : Event) (g : Bytes) (now : ℕ) (c : IsConsistent sha s) where
  abbrev key : Bytes
  key = scoped e.project_id g

  abbrev made : Issue
  made = new_issue (short_hash sha key) e g now

  abbrev grown : Store
  grown = record s {
    group_to_id = insert key (short_hash sha key) s.group_to_id;
    issues = insert (short_hash sha key) made s.issues;
  }

  no_events :
      NoCollision sha s key
      → lookup key s.group_to_id ≡ none
      → count_issue (short_hash sha key) s.events ≡ 0
  no_events apart missing = elim (Bool-cases (ltb 0 (count_issue (short_hash sha key) s.events))) [
    | inl more ↦
        let (k, found) = c.filed (short_hash sha key) (ground arith) in
        let same = apart k found in absurd (ground (arith, rw same at found))
    | inr zero ↦ ground arith
  ]

  grown-IsConsistent :
      NoCollision sha s key → lookup key s.group_to_id ≡ none → IsConsistent sha grown
  unfolding new_issue
  grown-IsConsistent apart missing = record {
    grouped = λ k id found. ground (
      arith,
      lookup-insert key k (short_hash sha key) s.group_to_id,
      equal_iff key k,
      c.grouped k id,
      lookup-insert (short_hash sha key) id made s.issues,
      equal_iff (short_hash sha key) id,
    );
    filed = λ id h.
        let (k, found) = c.filed id h in
        (
          k,
          ground (arith, lookup-insert key k (short_hash sha key) s.group_to_id, equal_iff key k),
        );
    counted = λ id i found. ground (
      arith,
      lookup-insert (short_hash sha key) id made s.issues,
      equal_iff (short_hash sha key) id,
      no_events apart missing,
      c.counted id i,
    );
  }

-- The event that is stored, with its issue.
abbrev pub filed_event : Event → Bytes → Event
filed_event e issue_id = record e { issue_id = issue_id }

abbrev stored : Store → Event → Bytes → ℕ → Issue → Store
stored s e id now i = record s {
  issues = insert id (count_event i e now) s.issues;
  events = insert (scoped e.project_id e.event_id) (filed_event e id) s.events;
}

module _ (sha : Sha) (s : Store) (e : Event) (id : Bytes) (now : ℕ) (i : Issue) (k : Bytes)
    (c : IsConsistent sha s) (known : lookup id s.issues ≡ some i)
    (group : lookup k s.group_to_id ≡ some id)
    (new : lookup (scoped e.project_id e.event_id) s.events ≡ none) where
  file_event-stored : file_event s e id now ≡ some (stored s e id now i)
  unfolding file_event
  file_event-stored = rw (known, file_event)

  count-stored :
      (j : Bytes)
      → count_issue j (stored s e id now i).events
        ≡ count_issue j s.events + (if equal id j then 1 else 0)
  count-stored j =
      count_issue-insert j (scoped e.project_id e.event_id) (filed_event e id) s.events new

  count-count_event : (count_event i e now).count ≡ i.count + 1
  unfolding count_event reopen
  count-count_event = ground arith

  stored-IsConsistent : IsConsistent sha (stored s e id now i)
  stored-IsConsistent = record {
    grouped = λ j id' found.
        ground (arith, c.grouped j id' found, lookup-insert id id' (count_event i e now) s.issues);
    filed = λ j h. elim (Bool-cases (equal id j)) [
      | inl same ↦ (k, ground (arith, equal_iff id j))
      | inr other ↦ c.filed j (ground (arith, count-stored j))
    ];
    counted = λ j i' found. ground (
      arith,
      count-stored j,
      count-count_event,
      equal_iff id j,
      lookup-insert id j (count_event i e now) s.issues,
      c.counted j i',
      c.counted id i known,
    );
  }

is_some-eq {ℓ} : {A : Type ℓ} (o : Option A) → is_some o ≡ true → (a : A) × (o ≡ some a)
is_some-eq none h = cc
is_some-eq (some a) h = (a, refl)

-- A state in which an event can be filed, with its issue.
record Ready (sha : Sha) (s : Store) (g : Store × Bytes) : Type 0 where
  consistent : IsConsistent sha g.0
  issue : Issue
  known : lookup g.1 g.0.issues ≡ some issue
  key : Bytes
  group : lookup key g.0.group_to_id ≡ some g.1
  events : g.0.events ≡ s.events

module _ (sha : Sha) (s : Store) (e : Event) (g : Bytes) (now : ℕ) (c : IsConsistent sha s)
    (apart : NoCollision sha s (scoped e.project_id g)) where
  abbrev group_key : Bytes
  group_key = scoped e.project_id g

  with_group-Ready : Ready sha s (with_group sha s e g now)
  unfolding with_group equal
  with_group-Ready = elim (Option-cases (lookup group_key s.group_to_id)) [
    | inl missing ↦ rw missing (record {
      consistent = grown-IsConsistent sha s e g now c apart missing;
      issue = new_issue (short_hash sha group_key) e g now;
      known = ground (
        arith,
        lookup-insert (short_hash sha group_key) (short_hash sha group_key)
            (new_issue (short_hash sha group_key) e g now) s.issues,
        equal_refl (short_hash sha group_key),
      );
      key = group_key;
      group = ground (
        arith,
        lookup-insert group_key group_key (short_hash sha group_key) s.group_to_id,
        equal_refl group_key,
      );
      events = refl;
    })
    | inr (id, found) ↦
        let (hash, there) = c.grouped group_key id found in
        let (i, known) = is_some-eq (lookup id s.issues) there in
        let named : equal id [] ≡ false = ground (
          arith,
          equal_iff id [],
          λ (x : short_hash sha group_key ≡ []). short_hash-ne-nil sha group_key x,
        ) in
        rw (found, named)
          (record {
            consistent = c;
            issue = i;
            known = known;
            key = group_key;
            group = found;
            events = refl;
          })
  ]

  -- In a consistent store, with no collision of short hashes, an event is always recorded, and the
  -- store is consistent afterwards: no group lacks its issue, and each issue's count is the number
  -- of its events.
  pub record_event-IsConsistent :
      (t : Store) × (new : Bool) × (record_event sha s e g now ≡ some (t, new)) × IsConsistent sha t
  unfolding record_event add_event
  record_event-IsConsistent =
      elim (Option-cases (lookup (scoped e.project_id e.event_id) s.events)) [
        | inl missing ↦
            let (grouped, id) = with_group sha s e g now in
            let r = with_group-Ready in
            let free = rw (← r.events) at missing in
            let done =
              file_event-stored sha grouped e id now r.issue r.key r.consistent r.known r.group
                free in
            (
              stored grouped e id now r.issue,
              true,
              rw (missing, add_event, done),
              stored-IsConsistent sha grouped e id now r.issue r.key r.consistent r.known r.group
                  free,
            )
        | inr (old, found) ↦ (s, false, ground arith, c)
      ]

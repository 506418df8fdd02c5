-- ===== src/Store/Ingest.antt =====
-- Store.Ingest of internal/sentryx/app.go for an error event that has been decoded, scrubbed,
-- symbolicated and hashed: the section under the lock.
pub mod Dedup
pub mod Consistency
use crocuta.Prelude.{
  ℕ, ◌+◌, Bool, true, false, List, [], ◌∷◌, ◌++◌, Option, none, some, ◌>>=◌, if◌then◌else◌, Bytes,
  codes, equal, lookup, insert,
}
use crocuta.Store.{Event, Issue, Store}
use crocuta.Store.Digest.{Sha, short_hash}

-- projectID + ":" + value
abbrev pub scoped : Bytes → Bytes → Bytes
scoped project_id value = project_id ++ (b':' ∷ value)

abbrev pub is_some {ℓ} : {A : Type ℓ} → Option A → Bool
is_some none = false
is_some (some a) = true

-- A missing key of a map of strings reads as the empty string.
abbrev pub or_empty : Option Bytes → Bytes
or_empty none = []
or_empty (some value) = value

unfoldable pub new_issue : Bytes → Event → Bytes → ℕ → Issue
new_issue issue_id event group_hash now = record {
  id = issue_id;
  project_id = event.project_id;
  title = event.title;
  level = event.level;
  count = 0;
  users = 0;
  first_seen = now;
  last_seen = now;
  latest_event = [];
  group_hash = group_hash;
  status = codes "unresolved";
  status_changed_at = now;
  resolved_in_release = [];
  ignore_until = none;
  regression = false;
  ignore_count = 0;
  ignore_window = 0;
}

-- The issue of the event's group, made anew for a new group.
unfoldable pub with_group : Sha → Store → Event → Bytes → ℕ → Store × Bytes
unfolding new_issue
with_group sha s event group_hash now =
    let key = scoped event.project_id group_hash in
    let known = or_empty (lookup key s.group_to_id) in
    let issue_id = short_hash sha key in
    if equal known []
    then (
      record s {
        group_to_id = insert key issue_id s.group_to_id;
        issues = insert issue_id (new_issue issue_id event group_hash now) s.issues;
      },
      issue_id,
    )
    else (s, known)

-- A resolved issue comes back as a regression.
unfoldable pub reopen : Issue → ℕ → Issue
reopen issue now =
    if equal issue.status (codes "resolved")
    then record issue { status = codes "unresolved"; status_changed_at = now; regression = true }
    else issue

unfoldable pub count_event : Issue → Event → ℕ → Issue
unfolding reopen
count_event issue event now = record (reopen issue now) {
  count = (reopen issue now).count + 1;
  last_seen = now;
  latest_event = event.event_id;
}

-- The event filed under its issue. `none` is the nil dereference of an issue that is not there.
unfoldable pub file_event : Store → Event → Bytes → ℕ → Option Store
unfolding count_event
file_event s event issue_id now = do
  issue ← lookup issue_id s.issues
  some (record s {
    issues = insert issue_id (count_event issue event now) s.issues;
    events =
        insert (scoped event.project_id event.event_id) (record event { issue_id = issue_id })
          s.events;
  })

unfoldable pub add_event : Sha → Store → Event → Bytes → ℕ → Option Store
add_event sha s event group_hash now =
    let (grouped, issue_id) = with_group sha s event group_hash now in
    file_event grouped event issue_id now

-- The store, and whether the event was accepted: an event that is there already is not.
unfoldable pub record_event : Sha → Store → Event → Bytes → ℕ → Option (Store × Bool)
record_event sha s event group_hash now =
    if is_some (lookup (scoped event.project_id event.event_id) s.events)
    then some (s, false)
    else (do filed ← add_event sha s event group_hash now; some (filed, true))

-- The loop over the error events of an envelope, with the count of those accepted.
unfoldable pub record_events : Sha → Store → List (Event × Bytes) → ℕ → ℕ → Option (Store × ℕ)
record_events sha s [] now accepted = some (s, accepted)
record_events sha s ((event, group_hash) ∷ rest) now accepted = do
  (s', new) ← record_event sha s event group_hash now
  record_events sha s' rest now (if new then accepted + 1 else accepted)

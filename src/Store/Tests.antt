-- ===== src/Store/Tests.antt =====
-- The memory store at concrete events. Here sha256 is the function that returns zeros.
use crocuta.Prelude.{
  ◌+◌, ◌≡◌, ◌≢◌, refl, Bool, true, false, [], ◌∷◌, none, some, Bytes, codes, replicate, length,
  lookup, insert, equal, inl, inr, to_lower, trim_space,
}
use crocuta.Store.{Event, Issue, Store, new_store}
use crocuta.Store.Digest.{Sha, short_hash}
use crocuta.Store.Ingest.{
  record_event, record_events, add_event, with_group, file_event, count_event, new_issue,
}
use crocuta.Store.Ingest.Dedup.{record_event-again, accepted_grows}
use crocuta.Store.Ingest.Consistency.{
  IsConsistent, new_store-IsConsistent, record_event-IsConsistent,
}
use crocuta.Store.Status.{ok, set_issue_status, store_status, with_status, resolved, get_issue}
use crocuta.Store.Status.Lifecycle.{
  HasStates, After, set_issue_status-HasStates, record_event-After,
}

abbrev zeros : Sha
zeros = record { sum256 = λ value. replicate 32 0; length-sum256 = λ value. refl }

abbrev event : Event
event = record {
  project_id = codes "1";
  event_id = codes "e1";
  received_at = 10;
  level = codes "error";
  release = [];
  environment = [];
  title = codes "boom";
  tags = [];
  user = some (record { id = []; email = codes "A@b.c" });
  issue_id = [];
}

abbrev group : Bytes
group = codes "g"

abbrev issue_id : Bytes
issue_id = codes "0000000000000000"

abbrev first_issue : Issue
first_issue = record {
  id = issue_id;
  project_id = codes "1";
  title = codes "boom";
  level = codes "error";
  count = 1;
  users = 0;
  first_seen = 10;
  last_seen = 10;
  latest_event = codes "e1";
  group_hash = group;
  status = codes "unresolved";
  status_changed_at = 10;
  resolved_in_release = [];
  ignore_until = none;
  regression = false;
  ignore_count = 0;
  ignore_window = 0;
}

abbrev one_event : Store
one_event = record {
  events = (codes "1:e1", record event { issue_id = issue_id }) ∷ [];
  issues = (issue_id, first_issue) ∷ [];
  group_to_id = (codes "1:g", issue_id) ∷ [];
}

recorded : record_event zeros new_store event group 10 ≡ some (one_event, true)
unfolding record_event add_event with_group file_event lookup insert equal short_hash new_issue
    count_event
recorded = refl

two_copies :
    record_events zeros new_store ((event, group) ∷ (event, group) ∷ []) 10 0 ≡ some (one_event, 1)
unfolding record_events record_event add_event with_group file_event lookup insert equal short_hash
    new_issue count_event
two_copies = refl

abbrev closed_issue : Issue
closed_issue = record first_issue {
  status = resolved;
  status_changed_at = 20;
  resolved_in_release = codes "1.2";
}

abbrev closed : Store
closed = record one_event { issues = (issue_id, closed_issue) ∷ [] }

closes :
    set_issue_status one_event issue_id (codes " Resolved") (codes "1.2") 20
    ≡ ok (closed, closed_issue)
unfolding set_issue_status store_status with_status lookup insert equal to_lower trim_space
closes = refl

one_user : get_issue one_event [] issue_id ≡ some (record first_issue { users = 1 })
unfolding get_issue lookup insert equal to_lower
one_user = refl

abbrev second_event : Event
second_event = record event { event_id = codes "e2"; received_at = 30 }

record_event-again_example :
    record_event zeros one_event event (codes "h") 11 ≡ some (one_event, false)
record_event-again_example =
    record_event-again zeros new_store event group (codes "h") 10 11 recorded

accepted_grows_example : 1 + 0 ≡ 0 + length one_event.events
accepted_grows_example =
    accepted_grows zeros new_store ((event, group) ∷ (event, group) ∷ []) 10 0 two_copies

record_event-IsConsistent_example :
    (t : Store) × (new : Bool) × (record_event zeros new_store event group 10 ≡ some (t, new))
    × IsConsistent zeros t
unfolding lookup
record_event-IsConsistent_example =
    record_event-IsConsistent zeros new_store event group 10 (new_store-IsConsistent zeros)
      (λ k e. cc)

set_issue_status-HasStates_example : HasStates closed
unfolding lookup
set_issue_status-HasStates_example =
    (set_issue_status-HasStates one_event issue_id (codes " Resolved") (codes "1.2") 20
      ((inr (inl refl)), tt) closes).1

record_event-After_example :
    (t : Store) × (j : Issue) × (record_event zeros closed second_event group 30 ≡ some (t, true))
    × (lookup issue_id t.issues ≡ some j)
    × After closed_issue j
    × ((k : Bytes) → issue_id ≢ k → lookup k t.issues ≡ lookup k closed.issues)
unfolding lookup equal
record_event-After_example =
    record_event-After zeros closed second_event group issue_id 30 closed_issue refl refl (λ e. cc)
      refl

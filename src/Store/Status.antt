-- ===== src/Store/Status.antt =====
-- SetIssueStatus and GetIssue of internal/sentryx/features.go.
pub mod Lifecycle
use crocuta.Prelude.{
  ℕ, ◌+◌, Bool, false, not, ◌&&◌, List, [], ◌∷◌, ◌++◌, Option, none, some, if◌then◌else◌, Bytes,
  codes, equal, lookup, insert, to_lower, trim_space, Dict, length,
}
use crocuta.Store.{User, Event, Issue, Store}

pub data StatusError : Type 0 where
  invalid_issue_status issue_not_found : StatusError

pub data Result {ℓ} (A : Type ℓ) : Type ℓ where
  ok : A → Result A
  err : StatusError → Result A

abbrev pub resolved : Bytes
resolved = codes "resolved"

abbrev pub unresolved : Bytes
unresolved = codes "unresolved"

abbrev pub ignored : Bytes
ignored = codes "ignored"

unfoldable pub with_status : Issue → Bytes → Bytes → ℕ → Issue
with_status issue status resolved_in_release now = record issue {
  status = status;
  status_changed_at = now;
  resolved_in_release = resolved_in_release;
  regression = false;
  ignore_count = if equal status ignored then issue.ignore_count + 1 else issue.ignore_count;
}

-- The part under the lock, for a status in its normal form.
unfoldable pub store_status : Store → Bytes → Bytes → Bytes → ℕ → Result (Store × Issue)
store_status s issue_id status resolved_in_release now = elim (lookup issue_id s.issues) [
  | none ↦ err issue_not_found
  | some issue ↦
      let changed = with_status issue status resolved_in_release now in
      ok (record s { issues = insert issue_id changed s.issues }, changed)
]

unfoldable pub set_issue_status : Store → Bytes → Bytes → Bytes → ℕ → Result (Store × Issue)
set_issue_status s issue_id status resolved_in_release now =
    let normal = to_lower (trim_space status) in
    if not (equal normal resolved) && not (equal normal unresolved) && not (equal normal ignored)
    then err invalid_issue_status
    else store_status s issue_id normal resolved_in_release now

-- eventUserIdentity
unfoldable pub event_user_identity : Option User → Bytes
event_user_identity none = []
event_user_identity (some user) =
    if not (equal user.id [])
    then codes "id:" ++ user.id
    else if not (equal user.email [])
    then codes "email:" ++ to_lower user.email
    else []

-- The identities of the users of an issue's events, each once.
unfoldable pub issue_users : Bytes → Dict Event → Dict (Unit {0})
unfolding event_user_identity
issue_users issue_id [] = []
issue_users issue_id ((k, event) ∷ rest) =
    let users = issue_users issue_id rest in
    let identity = event_user_identity event.user in
    if equal event.issue_id issue_id && not (equal identity [])
    then insert identity tt users
    else users

unfoldable pub get_issue : Store → Bytes → Bytes → Option Issue
unfolding issue_users
get_issue s project_id issue_id = elim (lookup issue_id s.issues) [
  | none ↦ none
  | some issue ↦
      if not (equal project_id []) && not (equal issue.project_id project_id)
      then none
      else some (record issue { users = length (issue_users issue_id s.events) })
]

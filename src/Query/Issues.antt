-- ===== src/Query/Issues.antt =====
-- issueSortKey, ListIssuesPage and ListEventsPage of internal/sentryx/features.go, with ListIssues and
-- ListEvents of app.go. Go visits a map in any order: here it is the order of the store's lists.
pub mod Order
pub mod Walk
use crocuta.Prelude.{
  ℕ, zero, suc, ◌+◌, ◌-◌, ◌/◌, ◌%◌, ◌≡◌, Bool, true, false, not, ◌&&◌, ◌||◌, List, [], ◌∷◌, ◌++◌,
  Option, none, some, if◌then◌else◌, ltb, ◌==◌, Bytes, codes, equal, Dict, lookup, length,
  filter_by, map, All,
}
use crocuta.Prelude.Int.{pos_part}
use crocuta.Store.{Event, Issue, Store}
use crocuta.Store.Status.{issue_users}
use crocuta.Query.{
  QueryOptions, default_query_options, query_matches_issue, issue_tag_filters,
  event_matches_issue_filters, event_matches, is_empty, passes,
}
use crocuta.Query.Cursor.{Base64, HasNoNul}
use crocuta.Query.Sort.{slice_stable, less_bytes}
use crocuta.Query.Page.{Page, page_of}

-- `Format(time.RFC3339Nano)` of a time in UTC: printable text.
pub record TimeFormat : Type 0 where
  pub rfc3339_nano : ℕ → Bytes
  pub printable : (t : ℕ) → HasNoNul (rfc3339_nano t)

abbrev pub values {ℓ} : {V : Type ℓ} → Dict V → List V
values [] = []
values ((k, v) ∷ m) = v ∷ values m

-- `width` decimal digits, the last ones of the number.
unfoldable pub digits : ℕ → ℕ → Bytes
digits zero n = []
digits (suc width) n = digits width (n / 10) ++ ((b'0' + n % 10) ∷ [])

-- fmt.Sprintf("%020d", n) for an int64 that is not negative
abbrev pub decimal_20 : ℕ → Bytes
decimal_20 n = digits 20 n

unfoldable pub issue_sort_key : TimeFormat → Bytes → Issue → Bytes
issue_sort_key f sort issue =
    if equal sort (codes "first_seen")
    then f.rfc3339_nano issue.first_seen
    else if equal sort (codes "count")
    then decimal_20 issue.count
    else if equal sort (codes "users")
    then decimal_20 issue.users
    else f.rfc3339_nano issue.last_seen

unfoldable pub list_issues : Store → Bytes → List Issue
list_issues s project_id =
    slice_stable (λ x y. ltb y.last_seen x.last_seen)
      (filter_by (λ issue. passes project_id issue.project_id) (values s.issues))

unfoldable pub list_events : Store → Bytes → Bytes → List Event
list_events s project_id issue_id =
    filter_by (λ event. passes project_id event.project_id && passes issue_id event.issue_id)
      (values s.events)

-- The events of `s` in the project, for the users of each issue.
abbrev pub project_events : Bytes → Dict Event → Dict Event
project_events project_id [] = []
project_events project_id ((k, event) ∷ rest) =
    let kept = project_events project_id rest in
    if passes project_id event.project_id then (k, event) ∷ kept else kept

abbrev pub any_event : (Event → Bool) → List Event → Bool
any_event p [] = false
any_event p (event ∷ rest) = p event || any_event p rest

-- Whether an issue is in the list: the filters of its own, and an event that passes the others.
unfoldable pub issue_listed : List Event → QueryOptions → Issue → Bool
issue_listed events options issue =
    let tag_filters = issue_tag_filters options.query in
    let needs_event_filter =
      not (is_empty options.environment)
      || not (is_empty options.release)
      || not (length tag_filters == 0) in
    let matching =
      any_event
        (λ event.
          event_matches_issue_filters event options tag_filters && equal event.issue_id issue.id)
        events in
    query_matches_issue issue options && (not needs_event_filter || matching)

-- left > right on the keys, the smaller id first where they are equal
unfoldable pub issue_before : TimeFormat → Bytes → Issue → Issue → Bool
issue_before f sort x y =
    let left = issue_sort_key f sort x in
    let right = issue_sort_key f sort y in
    if equal left right then less_bytes x.id y.id else less_bytes right left

abbrev pub with_users : Store → QueryOptions → Issue → Issue
with_users s options issue = record issue {
  users = length (issue_users issue.id (project_events options.project_id s.events));
}

unfoldable pub sorted_issues : TimeFormat → Store → QueryOptions → List Issue
sorted_issues f s options =
    let events = list_events s options.project_id [] in
    let counted = map (with_users s options) (list_issues s options.project_id) in
    slice_stable (issue_before f options.sort) (filter_by (issue_listed events options) counted)

abbrev pub issue_id_of : Issue → Bytes
issue_id_of issue = issue.id

unfoldable pub list_issues_page : TimeFormat → Base64 → Store → QueryOptions → Page Issue
list_issues_page f b s options =
    let o = default_query_options options in
    page_of (issue_sort_key f o.sort) issue_id_of b (sorted_issues f s o) o.cursor
      (pos_part o.limit)

abbrev pub event_before : Event → Event → Bool
event_before x y =
    if x.received_at == y.received_at
    then less_bytes x.event_id y.event_id
    else ltb y.received_at x.received_at

unfoldable pub sorted_events : Store → QueryOptions → List Event
sorted_events s options = slice_stable event_before (
    filter_by (λ event. event_matches event options)
      (list_events s options.project_id options.issue_id))

unfoldable pub list_events_page : TimeFormat → Base64 → Store → QueryOptions → Page Event
list_events_page f b s options =
    let o = default_query_options options in
    page_of (λ event. f.rfc3339_nano event.received_at) (λ event. event.event_id) b
      (sorted_events s o) o.cursor (pos_part o.limit)

-- ===== src/Query.antt =====
-- internal/sentryx/features.go: the filters of the issue and event lists, and their pages. A time is
-- a number of nanoseconds, and 0 is the zero `time.Time`.
pub mod Cursor
pub mod Sort
pub mod Page
pub mod Issues
mod Tests
use crocuta.Prelude.{
  ℕ, Bool, true, false, not, ◌&&◌, ◌||◌, List, [], ◌∷◌, Option, none, some, if◌then◌else◌, ltb,
  ◌==◌, Bytes, codes, equal, Dict, lookup, insert, to_lower, cut, contains, fields,
}
use crocuta.Prelude.Int.{ℤ, pos, negsuc, leb_ℤ, ltb_ℤ, pos_part, neg_part}
use crocuta.Store.{Event, Issue}

pub record QueryOptions : Type 0 where
  pub project_id : Bytes
  pub issue_id : Bytes
  pub start : ℕ
  pub finish : ℕ
  pub query : Bytes
  pub level : Bytes
  pub environment : Bytes
  pub release : Bytes
  pub status : Bytes
  pub sort : Bytes
  pub cursor : Bytes
  pub limit : ℤ

abbrev pub is_empty : Bytes → Bool
is_empty s = equal s []

abbrev pub known_sort : Bytes → Bool
known_sort sort =
    equal sort (codes "last_seen")
    || equal sort (codes "first_seen")
    || equal sort (codes "count")
    || equal sort (codes "users")

unfoldable pub default_query_options : QueryOptions → QueryOptions
default_query_options options = record options {
  limit =
      if leb_ℤ options.limit (pos 0) || ltb_ℤ (pos 100) options.limit
      then pos 50
      else options.limit;
  sort = if known_sort options.sort then options.sort else codes "last_seen";
}

-- A filter that is not set lets everything pass.
abbrev pub passes : Bytes → Bytes → Bool
passes wanted actual = is_empty wanted || equal actual wanted

-- One word of the query, `key:value` or a part of the title.
unfoldable pub token_matches : Issue → Bytes → Option (Bytes × Bytes) → Bool
token_matches issue token none = contains (to_lower issue.title) (to_lower token)
token_matches issue token (some (key, text)) =
    let value = to_lower text in
    let name = to_lower key in
    if equal name (codes "is")
    then equal issue.status value
    else if equal name (codes "level")
    then equal (to_lower issue.level) value
    else if equal name (codes "title")
    then contains (to_lower issue.title) value
    else true

unfoldable pub tokens_match : Issue → List Bytes → Bool
unfolding token_matches
tokens_match issue [] = true
tokens_match issue (token ∷ rest) =
    if not (token_matches issue token (cut b':' token)) then false else tokens_match issue rest

unfoldable pub query_matches_issue : Issue → QueryOptions → Bool
unfolding tokens_match
query_matches_issue issue options =
    if not (passes options.project_id issue.project_id)
    then false
    else if not (passes options.level issue.level)
    then false
    else if not (passes options.status issue.status)
    then false
    else if not (options.start == 0) && ltb issue.last_seen options.start
    then false
    else if not (options.finish == 0) && not (ltb issue.first_seen options.finish)
    then false
    else tokens_match issue (fields options.query)

abbrev pub filter_of : Option (Bytes × Bytes) → Dict Bytes → Dict Bytes
filter_of none filters = filters
filter_of (some (key, value)) filters =
    let name = to_lower key in
    if is_empty key || is_empty value
    then filters
    else if equal name (codes "is") || equal name (codes "level") || equal name (codes "title")
    then filters
    else insert key value filters

unfoldable pub tag_filters_from : Dict Bytes → List Bytes → Dict Bytes
tag_filters_from filters [] = filters
tag_filters_from filters (token ∷ rest) = tag_filters_from (filter_of (cut b':' token) filters) rest

unfoldable pub issue_tag_filters : Bytes → Dict Bytes
unfolding tag_filters_from
issue_tag_filters query = tag_filters_from [] (fields query)

abbrev pub or_blank : Option Bytes → Bytes
or_blank none = []
or_blank (some value) = value

-- What an event has for the key of a filter.
abbrev pub actual_value : Event → Bytes → Bytes
actual_value event key =
    if equal key (codes "environment")
    then event.environment
    else if equal key (codes "release")
    then event.release
    else or_blank (lookup key event.tags)

unfoldable pub tags_match : Event → Dict Bytes → Bool
tags_match event [] = true
tags_match event ((key, value) ∷ rest) =
    if not (equal (actual_value event key) value) then false else tags_match event rest

unfoldable pub event_matches_issue_filters : Event → QueryOptions → Dict Bytes → Bool
unfolding tags_match
event_matches_issue_filters event options tags =
    if not (passes options.environment event.environment)
    then false
    else if not (passes options.release event.release)
    then false
    else tags_match event tags

unfoldable pub event_matches : Event → QueryOptions → Bool
event_matches event options =
    if not (passes options.project_id event.project_id)
    then false
    else if not (passes options.issue_id event.issue_id)
    then false
    else if not (options.start == 0) && ltb event.received_at options.start
    then false
    else if not (options.finish == 0) && not (ltb event.received_at options.finish)
    then false
    else if not (passes options.level event.level)
    then false
    else if not (passes options.environment event.environment)
    then false
    else if not (passes options.release event.release)
    then false
    else true

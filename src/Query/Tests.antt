-- ===== src/Query/Tests.antt =====
-- The query modules on concrete issues and cursors.
use crocuta.Prelude.{
  List, ◌≡◌, ◌≢◌, refl, Bytes, codes, [], ◌∷◌, some, none, false, ℕ, length, ◌+◌, equal, lookup,
  fields, cut, to_lower, insert, equal_iff, arith,
}
use crocuta.Prelude.Int.{pos}
use crocuta.Store.{Issue, Store}
use crocuta.Query.{QueryOptions, default_query_options, issue_tag_filters}
use crocuta.Query.Cursor.{Base64, encode_cursor, decode_cursor, decode_cursor-encode_cursor}
use crocuta.Query.Sort.{Apart}
use crocuta.Query.Page.{walk, IsPaged}
use crocuta.Query.Issues.{TimeFormat, sorted_issues, list_issues_page, values, issue_sort_key}
use crocuta.Query.Issues.Order.{Falling, sorted_issues-Falling}
use crocuta.Query.Issues.Walk.{list_issues_page-walk, OtherId}

abbrev plain_base64 : Base64
plain_base64 = record {
  encode = λ s. s;
  decode = λ s. some s;
  decode-encode = λ s. refl;
  encode-nil = refl;
}

abbrev short_times : TimeFormat
short_times = record { rfc3339_nano = λ t. (b'0' + 0) ∷ []; printable = λ t. (refl, tt) }

decode_cursor-encode_cursor_example :
    decode_cursor plain_base64 (encode_cursor plain_base64 (codes "7") (codes "a"))
    ≡ some (codes "7", codes "a")
decode_cursor-encode_cursor_example =
    decode_cursor-encode_cursor plain_base64 (codes "7") (codes "a") (refl, tt)

abbrev issue_named : Bytes → ℕ → Issue
issue_named id count = record {
  id = id;
  project_id = codes "p";
  title = codes "Crash";
  level = codes "error";
  count = count;
  users = 0;
  first_seen = 1;
  last_seen = 5;
  latest_event = [];
  group_hash = [];
  status = codes "unresolved";
  status_changed_at = 0;
  resolved_in_release = [];
  ignore_until = none;
  regression = false;
  ignore_count = 0;
  ignore_window = 0;
}

abbrev three_issues : Store
three_issues = record {
  events = [];
  issues =
      (codes "a", issue_named (codes "a") 3)
      ∷ (codes "b", issue_named (codes "b") 9)
      ∷ (codes "c", issue_named (codes "c") 3)
      ∷ [];
  group_to_id = [];
}

abbrev by_count : QueryOptions
by_count = record {
  project_id = codes "p";
  issue_id = [];
  start = 0;
  finish = 0;
  query = codes "is:unresolved";
  level = [];
  environment = [];
  release = [];
  status = [];
  sort = codes "count";
  cursor = [];
  limit = pos 2;
}

differ : (s t : Bytes) → equal s t ≡ false → s ≢ t
differ s t h e = ground (arith, equal_iff s t)

different_ids : Apart OtherId (values three_issues.issues)
unfolding equal
different_ids = (
  (differ (codes "a") (codes "b") refl, (differ (codes "a") (codes "c") refl, tt)),
  ((differ (codes "b") (codes "c") refl, tt), (tt, tt)),
)

list_issues_page-walk_example :
    walk
      (λ c. list_issues_page short_times plain_base64 three_issues (record by_count { cursor = c }))
      (length (sorted_issues short_times three_issues (default_query_options by_count)) + 1)
      []
    ≡ sorted_issues short_times three_issues (default_query_options by_count)
list_issues_page-walk_example =
    list_issues_page-walk short_times plain_base64 three_issues by_count different_ids

sorted_issues-Falling_example :
    Falling
      (issue_sort_key short_times (codes "count"))
      (sorted_issues short_times three_issues by_count)
sorted_issues-Falling_example = sorted_issues-Falling short_times three_issues by_count

tag_filters_test :
    lookup (codes "os") (issue_tag_filters (codes "is:resolved os:Linux")) ≡ some (codes "Linux")
unfolding issue_tag_filters lookup fields cut equal to_lower insert
tag_filters_test = refl

abbrev letters : List Bytes
letters = codes "a" ∷ codes "b" ∷ codes "c" ∷ []

letters-IsPaged : IsPaged (λ s. []) (λ s. s) letters
unfolding equal
letters-IsPaged = record {
  apart = (
    (differ (codes "a") (codes "b") refl, (differ (codes "a") (codes "c") refl, tt)),
    ((differ (codes "b") (codes "c") refl, tt), (tt, tt)),
  );
  clean = (tt, (tt, (tt, tt)));
}

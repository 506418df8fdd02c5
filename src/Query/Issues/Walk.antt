-- ===== src/Query/Issues/Walk.antt =====
-- The pages of ListIssuesPage one after the other, for a store that does not change between them.
use crocuta.Prelude.{
  ℕ, zero, suc, ◌+◌, ◌≤◌, ◌≡◌, ◌≢◌, sym, Bool, List, [], ◌∷◌, ◌++◌, if◌then◌else◌, Bytes, length,
  filter_by, map, All, equal, codes, arith, Bool-cases, inl, inr, ◌||◌,
}
use crocuta.Prelude.Int.{ℤ, pos_part, pos, negsuc, ltb_ℤ, leb_ℤ}
use crocuta.Store.{Issue, Store}
use crocuta.Query.{
  QueryOptions, default_query_options, query_matches_issue, event_matches_issue_filters,
}
use crocuta.Query.Cursor.{Base64, HasNoNul}
use crocuta.Query.Sort.{Apart, Apart-slice_stable}
use crocuta.Query.Page.{walk, walk-all}
use crocuta.Query.Issues.{
  TimeFormat, values, digits, issue_sort_key, list_issues, list_issues_page, sorted_issues,
  issue_id_of, with_users, issue_listed,
}

HasNoNul-append : (s t : Bytes) → HasNoNul s → HasNoNul t → HasNoNul (s ++ t)
HasNoNul-append [] t h k = k
HasNoNul-append (c ∷ s) t h k = (h.0, HasNoNul-append s t h.1 k)

HasNoNul-digits : (width n : ℕ) → HasNoNul (digits width n)
unfolding digits
HasNoNul-digits zero n = tt
HasNoNul-digits (suc width) n = HasNoNul-append _ _ (HasNoNul-digits width _) (ground arith, tt)

HasNoNul-issue_sort_key :
    (f : TimeFormat) (sort : Bytes) (issue : Issue) → HasNoNul (issue_sort_key f sort issue)
unfolding issue_sort_key
HasNoNul-issue_sort_key f sort issue = elim (Bool-cases (equal sort (codes "first_seen"))) [
  | inl h ↦ rw h (f.printable issue.first_seen)
  | inr h ↦ elim (Bool-cases (equal sort (codes "count"))) [
    | inl k ↦ rw (h, k) (HasNoNul-digits 20 issue.count)
    | inr k ↦ elim (Bool-cases (equal sort (codes "users"))) [
      | inl l ↦ rw (h, k, l) (HasNoNul-digits 20 issue.users)
      | inr l ↦ rw (h, k, l) (f.printable issue.last_seen)
    ]
  ]
]

abbrev pub OtherId : Issue → Issue → Type 0
OtherId x y = x.id ≢ y.id

All-filter_by :
    (P : Issue → Type 0) (p : Issue → Bool) (xs : List Issue) → All P xs → All P (filter_by p xs)
All-filter_by P p [] h = tt
All-filter_by P p (x ∷ xs) h = elim (Bool-cases (p x)) [
  | inl true_at ↦ rw true_at (h.0, All-filter_by P p xs h.1)
  | inr false_at ↦ rw false_at (All-filter_by P p xs h.1)
]

Apart-filter_by :
    (p : Issue → Bool) (xs : List Issue) → Apart OtherId xs → Apart OtherId (filter_by p xs)
Apart-filter_by p [] h = tt
Apart-filter_by p (x ∷ xs) h = elim (Bool-cases (p x)) [
  | inl true_at ↦ rw true_at (All-filter_by (OtherId x) p xs h.0, Apart-filter_by p xs h.1)
  | inr false_at ↦ rw false_at (Apart-filter_by p xs h.1)
]

All-with_users :
    (s : Store) (o : QueryOptions) (x : Issue) (xs : List Issue)
    → All (OtherId x) xs
    → All (OtherId (with_users s o x)) (map (with_users s o) xs)
All-with_users s o x [] h = tt
All-with_users s o x (y ∷ ys) h = (h.0, All-with_users s o x ys h.1)

Apart-with_users :
    (s : Store) (o : QueryOptions) (xs : List Issue)
    → Apart OtherId xs
    → Apart OtherId (map (with_users s o) xs)
Apart-with_users s o [] h = tt
Apart-with_users s o (x ∷ xs) h = (All-with_users s o x xs h.0, Apart-with_users s o xs h.1)

Apart-sorted_issues :
    (f : TimeFormat) (s : Store) (o : QueryOptions)
    → Apart OtherId (values s.issues)
    → Apart OtherId (sorted_issues f s o)
unfolding sorted_issues list_issues
Apart-sorted_issues f s o h =
    let symm : (x y : Issue) → OtherId x y → OtherId y x = λ x y d e. d (sym e) in
    Apart-slice_stable _ OtherId symm _ (
      Apart-filter_by _ _
        (Apart-with_users s o _ (Apart-slice_stable _ OtherId symm _ (Apart-filter_by _ _ h))))

All-everywhere : {A : Type 0} (P : A → Type 0) (xs : List A) → ((x : A) → P x) → All P xs
All-everywhere P [] h = tt
All-everywhere P (x ∷ xs) h = (h x, All-everywhere P xs h)

page_limit-positive :
    (l : ℤ) → 1 ≤ pos_part (if leb_ℤ l (pos 0) || ltb_ℤ (pos 100) l then pos 50 else l)
page_limit-positive (pos n) = ground arith
page_limit-positive (negsuc n) = ground arith

limit-positive : (o : QueryOptions) → 1 ≤ pos_part (default_query_options o).limit
unfolding default_query_options
limit-positive o = page_limit-positive o.limit

-- For a store whose issues have different ids, following the next cursor of ListIssuesPage from the
-- first page on gives every issue that the options select, once and in the order of the list, whatever
-- the limit and the sort that were asked for; one page more than there are issues is enough.
pub list_issues_page-walk :
    (f : TimeFormat) (b : Base64) (s : Store) (options : QueryOptions)
    → Apart OtherId (values s.issues)
    → walk
        (λ c. list_issues_page f b s (record options { cursor = c }))
        (length (sorted_issues f s (default_query_options options)) + 1)
        []
      ≡ sorted_issues f s (default_query_options options)
unfolding list_issues_page default_query_options sorted_issues issue_listed query_matches_issue
    event_matches_issue_filters
list_issues_page-walk f b s options h =
    let o : QueryOptions = default_query_options options in
    walk-all (issue_sort_key f o.sort) issue_id_of b (sorted_issues f s o) (pos_part o.limit)
      (record {
        apart = Apart-sorted_issues f s o h;
        clean = All-everywhere _ _ (HasNoNul-issue_sort_key f o.sort);
      })
      (limit-positive options)

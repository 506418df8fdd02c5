-- ===== src/Query/Issues/Order.antt =====
-- The order of ListIssuesPage: sort key down, id up.
use crocuta.Prelude.{
  ◌≡◌, ◌≢◌, sym, ◌∙◌, true, false, List, [], ◌∷◌, Bytes, equal, equal_iff, equal_refl, arith,
  Bool-cases, inl, inr,
}
use crocuta.Store.{Issue, Store}
use crocuta.Query.{QueryOptions}
use crocuta.Query.Sort.{less_bytes, less_bytes_asymm, Ordered, Ordered-slice_stable}
use crocuta.Query.Issues.{TimeFormat, issue_sort_key, issue_before, sorted_issues}

true-ne-false : true ≢ false
true-ne-false h = cc

less_bytes_irrefl : (s : Bytes) → less_bytes s s ≡ false
less_bytes_irrefl s = elim (Bool-cases (less_bytes s s)) [
  | inl h ↦ absurd (true-ne-false (sym h ∙ less_bytes_asymm s s h))
  | inr h ↦ h
]

issue_before-asymm :
    (f : TimeFormat) (sort : Bytes) (x y : Issue)
    → issue_before f sort x y ≡ true
    → issue_before f sort y x ≡ false
unfolding issue_before
issue_before-asymm f sort x y h = ground (
  arith,
  equal_iff (issue_sort_key f sort x) (issue_sort_key f sort y),
  equal_iff (issue_sort_key f sort y) (issue_sort_key f sort x),
  equal_refl (issue_sort_key f sort x),
  less_bytes_asymm x.id y.id,
  less_bytes_asymm (issue_sort_key f sort y) (issue_sort_key f sort x),
)

-- From one issue to the next the key does not grow as a text, and where it stays the id does not fall.
abbrev pub Falling : (Issue → Bytes) → List Issue → Type 0
Falling key [] = Unit
Falling key (x ∷ []) = Unit
Falling key (x ∷ y ∷ ys) =
    (less_bytes (key x) (key y) ≡ false)
    × (key x ≡ key y → less_bytes y.id x.id ≡ false)
    × Falling key (y ∷ ys)

not_before :
    (f : TimeFormat) (sort : Bytes) (x y : Issue)
    → issue_before f sort y x ≡ false
    → (less_bytes (issue_sort_key f sort x) (issue_sort_key f sort y) ≡ false)
      × (issue_sort_key f sort x ≡ issue_sort_key f sort y → less_bytes y.id x.id ≡ false)
unfolding issue_before
not_before f sort x y h =
    elim (Bool-cases (equal (issue_sort_key f sort y) (issue_sort_key f sort x))) [
      | inl same ↦
          let e = (equal_iff (issue_sort_key f sort y) (issue_sort_key f sort x)).0 same in
          (rw e (less_bytes_irrefl (issue_sort_key f sort x)), λ k. rw same at h)
      | inr differ ↦ (
        rw differ at h,
        λ k. absurd (true-ne-false (sym (equal_refl (issue_sort_key f sort y)) ∙ rw k at differ)),
      )
    ]

Falling-Ordered :
    (f : TimeFormat) (sort : Bytes) (xs : List Issue)
    → Ordered (issue_before f sort) xs
    → Falling (issue_sort_key f sort) xs
Falling-Ordered f sort [] h = tt
Falling-Ordered f sort (x ∷ []) h = tt
Falling-Ordered f sort (x ∷ y ∷ ys) h =
    let (down, up) = not_before f sort x y h.0 in (down, up, Falling-Ordered f sort (y ∷ ys) h.1)

-- In the list that ListIssuesPage cuts its pages from, the sort keys do not grow in the order of Go's strings
-- from one issue to the next, and among equal keys the ids do not fall.
pub sorted_issues-Falling :
    (f : TimeFormat) (s : Store) (options : QueryOptions)
    → Falling (issue_sort_key f options.sort) (sorted_issues f s options)
unfolding sorted_issues
sorted_issues-Falling f s options =
    Falling-Ordered f options.sort _ (Ordered-slice_stable _ (issue_before-asymm f options.sort) _)

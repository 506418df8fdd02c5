-- ===== src/Query/Page.antt =====
-- The pages of ListIssuesPage and ListEventsPage of internal/sentryx/features.go: the part of a
-- sorted list behind the entry that a cursor names.
use mathlib.Core.Option.{some-injective}
use crocuta.Prelude.{
  ℕ, zero, suc, ◌+◌, ◌-◌, ◌≤◌, ◌<◌, ◌≡◌, ◌≢◌, refl, ap, subst, false, ◌&&◌, List, [], ◌∷◌, ◌++◌,
  Option, none, some, ltb, if◌then◌else◌, Bytes, equal, equal_iff, equal_refl, lt→ltb, ltb→lt,
  length, take, drop, get_elem?, All, arith, Bool-cases, inl, inr, take-append-drop,
}
use crocuta.Query.Cursor.{
  Base64, encode_cursor, decode_cursor, HasNoNul, decode_cursor-encode_cursor, encode_cursor-ne-nil,
  decode_cursor-nil,
}
use crocuta.Query.Sort.{Apart}

pub record Page (A : Type 0) : Type 0 where
  pub items : List A
  pub next_cursor : Bytes

-- if n > bound { n = bound }
unfoldable pub at_most : ℕ → ℕ → ℕ
at_most bound n = if ltb bound n then bound else n

at_most-le : (bound n : ℕ) → n ≤ bound → at_most bound n ≡ n
unfolding at_most
at_most-le bound n h = ground arith

at_most-ge : (bound n : ℕ) → bound ≤ n → at_most bound n ≡ bound
unfolding at_most
at_most-ge bound n h = ground arith

module _ {A : Type 0} (sort_key id : A → Bytes) where
  -- The loop over the entries for the one that the cursor names.
  unfoldable pub find_after : Bytes → Bytes → ℕ → List A → ℕ
  find_after key wanted index [] = 0
  find_after key wanted index (x ∷ xs) =
      if equal (sort_key x) key && equal (id x) wanted
      then index + 1
      else find_after key wanted (index + 1) xs

  abbrev pub start_at : Option (Bytes × Bytes) → List A → ℕ
  start_at none items = 0
  start_at (some (key, wanted)) items = find_after key wanted 0 items

  abbrev pub cursor_of : Base64 → Option A → Bytes
  cursor_of b none = []
  cursor_of b (some last) = encode_cursor b (sort_key last) (id last)

  unfoldable pub page_between : Base64 → List A → ℕ → ℕ → Page A
  page_between b items start finish = record {
    items = drop start (take finish items);
    next_cursor =
        if ltb finish (length items) then cursor_of b (get_elem? items (finish - 1)) else [];
  }

  unfoldable pub page_of : Base64 → List A → Bytes → ℕ → Page A
  page_of b items cursor limit =
      let start = at_most (length items) (start_at (decode_cursor b cursor) items) in
      page_between b items start (at_most (length items) (start + limit))

module _ {ℓ} {A : Type ℓ} where
  drop_split : (n m : ℕ) (xs : List A) → n ≤ m → drop n (take m xs) ++ drop m xs ≡ drop n xs
  drop_split zero m xs h = take-append-drop m xs
  drop_split (suc n) zero xs h = absurd (omega arith)
  drop_split (suc n) (suc m) [] h = refl
  drop_split (suc n) (suc m) (x ∷ xs) h = drop_split n m xs (omega arith)

  take_all : (n : ℕ) (xs : List A) → length xs ≤ n → take n xs ≡ xs
  take_all zero [] h = refl
  take_all zero (x ∷ xs) h = absurd (omega arith)
  take_all (suc n) [] h = refl
  take_all (suc n) (x ∷ xs) h = ap (λ ys. x ∷ ys) (take_all n xs (omega arith))

  drop_all : (n : ℕ) (xs : List A) → length xs ≤ n → drop n xs ≡ []
  drop_all zero [] h = refl
  drop_all zero (x ∷ xs) h = absurd (omega arith)
  drop_all (suc n) [] h = refl
  drop_all (suc n) (x ∷ xs) h = drop_all n xs (omega arith)

  get_elem?-some : (xs : List A) (i : ℕ) → i < length xs → (x : A) × (get_elem? xs i ≡ some x)
  get_elem?-some [] i h = absurd (omega arith)
  get_elem?-some (x ∷ xs) zero h = (x, refl)
  get_elem?-some (x ∷ xs) (suc i) h = get_elem?-some xs i (omega arith)

  All-get_elem? {κ} :
      (P : A → Type κ) (xs : List A) (i : ℕ) {x : A} → All P xs → get_elem? xs i ≡ some x → P x
  All-get_elem? P [] i a e = cc
  All-get_elem? P (y ∷ ys) zero a e = subst P (some-injective _ _ e) a.0
  All-get_elem? P (y ∷ ys) (suc i) a e = All-get_elem? P ys i a.1 e

-- The entries have different ids, and sort keys that a cursor can hold.
pub record IsPaged {A : Type 0} (sort_key id : A → Bytes) (items : List A) : Type 0 where
  pub apart : Apart (λ x y. id x ≢ id y) items
  pub clean : All (λ x. HasNoNul (sort_key x)) items

ltb→ge : (n m : ℕ) → ltb n m ≡ false → m ≤ n
ltb→ge n m h = ground arith

not-nil : {s : Bytes} → s ≢ [] → equal s [] ≡ false
not-nil {s} h = ground (arith, equal_iff s [])

ltb_irrefl : (n : ℕ) → ltb n n ≡ false
ltb_irrefl n = ground arith

-- The pages from a cursor on, one after the other, at most `fuel` of them.
unfoldable pub walk : {A : Type 0} → (Bytes → Page A) → ℕ → Bytes → List A
walk page zero cursor = []
walk page (suc fuel) cursor =
    let rest = walk page fuel (page cursor).next_cursor in
    if equal (page cursor).next_cursor [] then (page cursor).items else (page cursor).items ++ rest

module _ {A : Type 0} (sort_key id : A → Bytes) where
  find_after-at :
      (items : List A) (i index : ℕ) {x : A}
      → Apart (λ x y. id x ≢ id y) items
      → get_elem? items i ≡ some x
      → find_after sort_key id (sort_key x) (id x) index items ≡ index + i + 1
  unfolding find_after
  find_after-at [] i index apart e = cc
  find_after-at (y ∷ ys) zero index {x} apart e =
      let same : y ≡ x = some-injective _ _ e in
      ground (arith, equal_refl (sort_key x), equal_refl (id x), ap sort_key same, ap id same)
  find_after-at (y ∷ ys) (suc i) index {x} apart e = ground (
    arith,
    equal_iff (id y) (id x),
    All-get_elem? (λ z. id y ≢ id z) ys i apart.0 e,
    find_after-at ys i (index + 1) apart.1 e,
  )

  module _ (b : Base64) (items : List A) (limit : ℕ) (paged : IsPaged sort_key id items)
      (positive : 1 ≤ limit) where
    page-last :
        (cursor : Bytes) (n : ℕ)
        → start_at sort_key id (decode_cursor b cursor) items ≡ n
        → n ≤ length items
        → length items ≤ n + limit
        → page_of sort_key id b items cursor limit
          ≡ record { items = drop n items; next_cursor = [] }
    unfolding page_of page_between
    page-last cursor n e bound short =
        rw
          (
            e,
            at_most-le (length items) n bound,
            at_most-ge (length items) (n + limit) short,
            ltb_irrefl (length items),
            take_all (length items) items (omega arith),
          )
          refl

    page-more :
        (cursor : Bytes) (n : ℕ) {x : A}
        → start_at sort_key id (decode_cursor b cursor) items ≡ n
        → n + limit < length items
        → get_elem? items (n + limit - 1) ≡ some x
        → page_of sort_key id b items cursor limit ≡ record {
          items = drop n (take (n + limit) items);
          next_cursor = encode_cursor b (sort_key x) (id x);
        }
    unfolding page_of page_between
    page-more cursor n e more at =
        rw
          (
            e,
            at_most-le (length items) n (omega arith),
            at_most-le (length items) (n + limit) (omega arith),
            lt→ltb _ _ more,
            at,
          )
          refl

  walk-from :
      (b : Base64) (items : List A) (limit : ℕ)
      → IsPaged sort_key id items
      → 1 ≤ limit
      → (fuel : ℕ) (cursor : Bytes) (n : ℕ)
      → start_at sort_key id (decode_cursor b cursor) items ≡ n
      → n ≤ length items
      → length items - n < fuel
      → walk (λ c. page_of sort_key id b items c limit) fuel cursor ≡ drop n items
  unfolding walk
  walk-from b items limit paged positive zero cursor n e bound enough = absurd (omega arith)
  walk-from b items limit paged positive (suc fuel) cursor n e bound enough =
      elim (Bool-cases (ltb (n + limit) (length items))) [
        | inl more ↦
            let inside : n + limit < length items = ltb→lt _ _ more in
            let (x, at) = get_elem?-some items (n + limit - 1) (omega arith) in
            let next : start_at sort_key id (decode_cursor b (encode_cursor b (sort_key x) (id x)))
                  items
                ≡ n + limit =
              rw
                (
                  decode_cursor-encode_cursor b (sort_key x) (id x) (
                      All-get_elem? (λ y. HasNoNul (sort_key y)) items (n + limit - 1) paged.clean
                        at),
                  find_after-at items (n + limit - 1) 0 paged.apart at,
                )
                (omega arith) in
            rw
              (
                page-more b items limit paged positive cursor n e inside at,
                not-nil (encode_cursor-ne-nil b (sort_key x) (id x)),
                walk-from b items limit paged positive fuel (encode_cursor b (sort_key x) (id x))
                    (n + limit) next (omega arith) (omega arith),
              )
              (drop_split n (n + limit) items (omega arith))
        | inr last ↦
            rw
              (
                page-last b items limit paged positive cursor n e bound (ltb→ge _ _ last),
                equal_refl [],
              )
              refl
      ]

  -- Following the next cursor from the first page on, until a page has none, gives every entry of the
  -- list once and in its order: the list itself. The entries have different ids and sort keys without a
  -- zero byte, a page has at least one entry, and one page more than there are entries is enough.
  pub walk-all :
      (b : Base64) (items : List A) (limit : ℕ)
      → IsPaged sort_key id items
      → 1 ≤ limit
      → walk (λ c. page_of sort_key id b items c limit) (length items + 1) [] ≡ items
  walk-all b items limit paged positive =
      walk-from b items limit paged positive (length items + 1) [] 0 (rw (decode_cursor-nil b) refl)
        (omega arith) (omega arith)

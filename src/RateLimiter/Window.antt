-- ===== src/RateLimiter/Window.antt =====
-- RateLimiter.Allow of internal/sentryx/security.go: the calls of one window.
use crocuta.Prelude.{
  ℕ, ◌+◌, ◌-◌, ◌≤◌, ◌<◌, ◌≡◌, refl, sym, ◌∙◌, subst, ltb, true, false, not, ◌&&◌, arith, Bool-cases,
  inl, inr, Bytes, List, [], ◌∷◌, lookup, none, some, Unique, length, ◌⊎◌, if◌then◌else◌, equal,
  equal_iff, min, equal_refl, lookup-insert, lookup-keep_if, Unique-insert, length-insert-le,
  length-keep_if-le, All,
}
use crocuta.Prelude.Int.{pos, leb_ℤ}
use crocuta.RateLimiter.{RateWindow, RateLimiter, allow, cleanup, swept, current, count_in, expired}
use crocuta.RateLimiter.Retry.{swept-Unique, limit-swept}

-- The calls for a bucket in a sequence of calls, and those of them that get through.
abbrev pub calls : Bytes → List (Bytes × ℕ) → ℕ
calls bucket [] = 0
calls bucket ((k, now) ∷ rest) = (if equal k bucket then 1 else 0) + calls bucket rest

unfoldable pub passed : Bytes → RateLimiter → List (Bytes × ℕ) → ℕ
passed bucket r [] = 0
passed bucket r ((k, now) ∷ rest) =
    (if equal k bucket && (allow r k now).allowed then 1 else 0)
    + passed bucket (allow r k now).limiter rest

-- The bucket has had `used` calls through in a window that began at `lo` or later.
abbrev Used : RateLimiter → Bytes → ℕ → ℕ → Type 0
Used r bucket lo used =
    ((lookup bucket r.entries ≡ none) × (used ≡ 0))
    ⊎ ((w : RateWindow) × (lookup bucket r.entries ≡ some w) × (w.count ≡ used) × (lo ≤ w.start))

-- While the table has room, sweeping it drops no window that is running.
lookup-swept_room :
    (r : RateLimiter) (bucket : Bytes) (now lo used : ℕ)
    → Unique r.entries
    → length r.entries < r.max_entries
    → now < lo + r.window
    → Used r bucket lo used
    → Used (swept r now) bucket lo used
unfolding swept cleanup
lookup-swept_room r bucket now lo used u room t h = ground (
  arith,
  lookup-keep_if (λ v. not (expired r v now)) bucket r.entries u,
  length-keep_if-le (λ v. not (expired r v now)) r.entries,
)

length-swept : (r : RateLimiter) (now : ℕ) → length (swept r now).entries ≤ length r.entries
unfolding swept cleanup
length-swept r now = ground (arith, length-keep_if-le (λ v. not (expired r v now)) r.entries)

-- A call for another bucket.
count_in-other :
    (r : RateLimiter) (bucket k : Bytes) (entry : RateWindow) (now lo used : ℕ)
    → equal k bucket ≡ false
    → Used r bucket lo used
    → Used (count_in r k entry now).limiter bucket lo used
unfolding count_in
count_in-other r bucket k entry now lo used ne h =
    ground (arith, lookup-insert k bucket (record entry { count = entry.count + 1 }) r.entries)

current-Used :
    (r : RateLimiter) (bucket : Bytes) (now lo used : ℕ)
    → 0 < lo
    → lo ≤ now
    → now < lo + r.window
    → Used r bucket lo used
    → ((current r (lookup bucket r.entries) now).count ≡ used)
      × (lo ≤ (current r (lookup bucket r.entries) now).start)
unfolding current
current-Used r bucket now lo used z a b h = ground arith

-- A call for the bucket itself is counted up to the limit.
count_in_self :
    (r : RateLimiter) (bucket : Bytes) (entry : RateWindow) (now lo n : ℕ)
    → r.limit ≡ pos n
    → lo ≤ entry.start
    → entry.count < n
    → ((count_in r bucket entry now).allowed ≡ true)
      × Used (count_in r bucket entry now).limiter bucket lo (entry.count + 1)
unfolding count_in
count_in_self r bucket entry now lo n lim a lt =
    let next = record entry { count = entry.count + 1 } in
    (
      ground arith,
      inr (
        next,
        ground (arith, lookup-insert bucket bucket next r.entries, equal_refl bucket),
        refl,
        a,
      ),
    )

count_in_full :
    (r : RateLimiter) (bucket : Bytes) (entry : RateWindow) (now n : ℕ)
    → r.limit ≡ pos n
    → n ≤ entry.count
    → ((count_in r bucket entry now).allowed ≡ false) × ((count_in r bucket entry now).limiter ≡ r)
unfolding count_in
count_in_full r bucket entry now n lim le = ground arith

-- What every call keeps.
record Frame (r q : RateLimiter) : Type 0 where
  limit : q.limit ≡ r.limit
  window : q.window ≡ r.window
  max_entries : q.max_entries ≡ r.max_entries
  unique : Unique q.entries
  grows : length q.entries ≤ length r.entries + 1

count_in-Frame :
    (r : RateLimiter) (k : Bytes) (entry : RateWindow) (now : ℕ)
    → Unique r.entries
    → Frame r (count_in r k entry now).limiter
unfolding count_in
count_in-Frame r k entry now u =
    let next = record entry { count = entry.count + 1 } in
    let size = length-insert-le k next r.entries in
    elim (Bool-cases (leb_ℤ r.limit (pos entry.count))) [
      | inl full ↦ rw full (record {
        limit = refl;
        window = refl;
        max_entries = refl;
        unique = u;
        grows = omega arith;
      })
      | inr left ↦ rw left (record {
        limit = refl;
        window = refl;
        max_entries = refl;
        unique = Unique-insert k next r.entries u;
        grows = size;
      })
    ]

max_entries-swept : (r : RateLimiter) (now : ℕ) → (swept r now).max_entries ≡ r.max_entries
unfolding swept cleanup
max_entries-swept r now = ground arith

allow-Frame :
    (r : RateLimiter) (k : Bytes) (now : ℕ) → Unique r.entries → Frame r (allow r k now).limiter
unfolding allow
allow-Frame r k now u = elim (Bool-cases (leb_ℤ r.limit (pos 0))) [
  | inl off ↦
      rw off (record {
        limit = refl;
        window = refl;
        max_entries = refl;
        unique = u;
        grows = omega arith;
      })
  | inr on ↦
      let entry = current (swept r now) (lookup k (swept r now).entries) now in
      let f = count_in-Frame (swept r now) k entry now (swept-Unique r now u) in
      rw on (record {
        limit = f.limit ∙ (limit-swept r now).0;
        window = f.window ∙ (limit-swept r now).1;
        max_entries = f.max_entries ∙ max_entries-swept r now;
        unique = f.unique;
        grows = omega (arith, f.grows, length-swept r now);
      })
]

module _ (r : RateLimiter) (bucket : Bytes) (now lo used n : ℕ) (u : Unique r.entries)
    (room : length r.entries < r.max_entries) (start : 0 < lo) (after : lo ≤ now)
    (before : now < lo + r.window) (lim : r.limit ≡ pos n) (some_room : 0 < n)
    (h : Used r bucket lo used) where
  swept-Used : Used (swept r now) bucket lo used
  swept-Used = lookup-swept_room r bucket now lo used u room before h

  current_count :
      ((current (swept r now) (lookup bucket (swept r now).entries) now).count ≡ used)
      × (lo ≤ (current (swept r now) (lookup bucket (swept r now).entries) now).start)
  current_count =
      current-Used (swept r now) bucket now lo used start after
        (omega (arith, before, (limit-swept r now).1)) swept-Used

  -- A call for the bucket passes exactly if it is under the limit.
  allow-Used_self :
      ((allow r bucket now).allowed ≡ ltb used n)
      × Used (allow r bucket now).limiter bucket lo (if ltb used n then used + 1 else used)
  unfolding allow
  allow-Used_self =
      let entry = current (swept r now) (lookup bucket (swept r now).entries) now in
      let lim' = (limit-swept r now).0 ∙ lim in
      rw (on_lem) (elim (Bool-cases (ltb used n)) [
        | inl under ↦
            let c =
              count_in_self (swept r now) bucket entry now lo n lim' current_count.1
                (ground (arith, current_count.0)) in
            rw under (
              c.0,
              subst (λ t. Used (count_in (swept r now) bucket entry now).limiter bucket lo (t + 1))
                  current_count.0 c.1,
            )
        | inr full ↦
            let c =
              count_in_full (swept r now) bucket entry now n lim'
                (ground (arith, current_count.0)) in
            rw full (c.0, rw c.1 swept-Used)
      ])
    where
      on_lem : leb_ℤ r.limit (pos 0) ≡ false
      on_lem = ground arith

  -- A call for another bucket leaves its window alone.
  allow-Used_other :
      (k : Bytes) → equal k bucket ≡ false → Used (allow r k now).limiter bucket lo used
  unfolding allow
  allow-Used_other k ne =
      rw on_lem (count_in-other (swept r now) bucket k _ now lo used ne swept-Used)
    where
      on_lem : leb_ℤ r.limit (pos 0) ≡ false
      on_lem = ground arith

-- In any sequence of calls at times in one window, for whatever buckets, a bucket that has had `used`
-- calls through gets the first `n - used` of its calls through, and no more, as long as the table
-- has room for the sequence.
pub passed-eq-min :
    (r : RateLimiter) (bucket : Bytes) (lo hi used n : ℕ) (cs : List (Bytes × ℕ))
    → Unique r.entries
    → length r.entries + length cs ≤ r.max_entries
    → 0 < lo
    → hi ≤ lo + r.window
    → All (λ c. (lo ≤ c.1) × (c.1 < hi)) cs
    → r.limit ≡ pos n
    → 0 < n
    → used ≤ n
    → Used r bucket lo used
    → passed bucket r cs ≡ min (n - used) (calls bucket cs)
unfolding passed
passed-eq-min r bucket lo hi used n [] u room z w times lim nz le h = omega arith
passed-eq-min r bucket lo hi used n ((k, now) ∷ rest) u room z w (t, times) lim nz le h =
    let f = allow-Frame r k now u in
    let go = λ (used' : ℕ) (le' : used' ≤ n) (h' : Used (allow r k now).limiter bucket lo used').
      passed-eq-min (allow r k now).limiter bucket lo hi used' n rest f.unique
        (omega (arith, f.grows, f.max_entries)) z (omega (arith, f.window)) times (f.limit ∙ lim) nz
        le' h' in
    elim (Bool-cases (equal k bucket)) [
      | inl same ↦
          let e = (equal_iff k bucket).0 same in
          let s =
            allow-Used_self r bucket now lo used n u (omega arith) z t.0 (omega arith) lim nz h in
          elim (Bool-cases (ltb used n)) [
            | inl under ↦
                let h' =
                  subst (λ b. Used (allow r b now).limiter bucket lo (used + 1)) (sym e)
                    (rw under at s.1) in
                ground (arith, go (used + 1) (ground arith) h', e, s.0)
            | inr full ↦
                let h' =
                  subst (λ b. Used (allow r b now).limiter bucket lo used) (sym e)
                    (rw full at s.1) in
                ground (arith, go used le h', e, s.0)
          ]
      | inr other ↦ ground (
        arith,
        go used le (
            allow-Used_other r bucket now lo used n u (omega arith) z t.0 (omega arith) lim nz h k
              other),
      )
    ]

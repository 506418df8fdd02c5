-- ===== src/RateLimiter/Bounds.antt =====
-- RateLimiter of internal/sentryx/security.go: the size of its table and its counters.
use crocuta.Prelude.{
  ℕ, ◌+◌, ◌≤◌, ◌<◌, ◌≡◌, not, arith, Bool-cases, inl, inr, leb, Bytes, length, AllValues,
  AllValues-insert, AllValues-keep_if, length-insert-le,
}
use crocuta.Prelude.Int.{pos, pos_part, leb_ℤ}
use crocuta.RateLimiter.{
  RateWindow, RateLimiter, kept, cleanup, swept, count_in, allow, expired, needs_cleanup,
}

-- No counter is above the limit, and the table is no larger than its capacity.
pub record IsBounded (r : RateLimiter) : Type 0 where
  pub room : 0 < r.max_entries
  pub fits : length r.entries ≤ r.max_entries
  pub counted : AllValues (λ w. w.count ≤ pos_part r.limit) r.entries

cleanup-IsBounded :
    (r : RateLimiter) (now : ℕ)
    → IsBounded r
    → IsBounded (cleanup r now) × (length (cleanup r now).entries < r.max_entries)
unfolding cleanup
cleanup-IsBounded r now b = elim (Bool-cases (leb r.max_entries (length (kept r now)))) [
  | inl full ↦ rw full (record { room = b.room; fits = omega arith; counted = tt }, b.room)
  | inr room ↦ rw room (record { room = b.room; fits = ground arith; counted = low }, ground arith)
]
  where
    low : AllValues (λ w. w.count ≤ pos_part r.limit) (kept r now)
    low = AllValues-keep_if _ (λ v. not (expired r v now)) r.entries b.counted

pub swept-IsBounded :
    (r : RateLimiter) (now : ℕ)
    → IsBounded r
    → IsBounded (swept r now) × (length (swept r now).entries < r.max_entries)
unfolding swept
swept-IsBounded r now b = elim (Bool-cases (needs_cleanup r now)) [
  | inl full ↦ rw full (cleanup-IsBounded r now b)
  | inr room ↦ rw room (b, ground arith)
]

max_entries-swept : (r : RateLimiter) (now : ℕ) → (swept r now).max_entries ≡ r.max_entries
unfolding swept cleanup
max_entries-swept r now = ground arith

count_in-IsBounded :
    (r : RateLimiter) (bucket : Bytes) (entry : RateWindow) (now : ℕ)
    → IsBounded r
    → length r.entries < r.max_entries
    → IsBounded (count_in r bucket entry now).limiter
unfolding count_in
count_in-IsBounded r bucket entry now b room =
    let next = record entry { count = entry.count + 1 } in
    let size = length-insert-le bucket next r.entries in
    elim (Bool-cases (leb_ℤ r.limit (pos entry.count))) [
      | inl full ↦ rw full b
      | inr left ↦ rw left (record {
        room = b.room;
        fits = omega arith;
        counted = AllValues-insert _ bucket next r.entries (ground arith) b.counted;
      })
    ]

-- A call keeps every counter at or below the limit and the table within its capacity.
pub allow-IsBounded :
    (r : RateLimiter) (bucket : Bytes) (now : ℕ)
    → IsBounded r
    → IsBounded (allow r bucket now).limiter
unfolding allow
allow-IsBounded r bucket now b = elim (Bool-cases (leb_ℤ r.limit (pos 0))) [
  | inl off ↦ rw off b
  | inr on ↦
      let (b', room) = swept-IsBounded r now b in
      rw on (count_in-IsBounded (swept r now) bucket _ now b' (rw max_entries-swept room))
]

-- ===== src/RateLimiter/Retry.antt =====
-- RateLimiter.Allow of internal/sentryx/security.go: what a refused client is told.
use crocuta.Prelude.{
  ℕ, ◌+◌, ◌*◌, ◌≤◌, ◌≡◌, true, false, not, arith, Bool-cases, inl, inr, leb, Bytes, lookup, Option,
  none, some, Option-cases, Unique, lookup-keep_if, Unique-keep_if, le→leb, length, ◌⊎◌,
}
use crocuta.Prelude.Int.{pos, leb_ℤ}
use crocuta.RateLimiter.{
  RateWindow, RateLimiter, second, kept, allow, cleanup, swept, current, count_in, remaining,
  expired, needs_cleanup,
}

-- Sweeping keeps the entry of a bucket, or drops it.
pub lookup-swept :
    (r : RateLimiter) (bucket : Bytes) (now : ℕ)
    → Unique r.entries
    → (lookup bucket (swept r now).entries ≡ lookup bucket r.entries)
      ⊎ (lookup bucket (swept r now).entries ≡ none)
unfolding swept cleanup lookup
lookup-swept r bucket now u =
    ground (arith, lookup-keep_if (λ v. not (expired r v now)) bucket r.entries u)

pub limit-swept :
    (r : RateLimiter) (now : ℕ)
    → ((swept r now).limit ≡ r.limit) × ((swept r now).window ≡ r.window)
unfolding swept cleanup
limit-swept r now = ground arith

count-current :
    (r : RateLimiter) (found : Option RateWindow) (w : RateWindow) (now : ℕ)
    → (found ≡ some w) ⊎ (found ≡ none)
    → expired r w now ≡ true
    → (current r found now).count ≡ 0
unfolding current
count-current r found w now h e = ground arith

-- A bucket whose window is over gets through.
pub allow-expired :
    (r : RateLimiter) (bucket : Bytes) (w : RateWindow) (now : ℕ)
    → Unique r.entries
    → leb_ℤ r.limit (pos 0) ≡ false
    → lookup bucket r.entries ≡ some w
    → expired r w now ≡ true
    → (allow r bucket now).allowed ≡ true
unfolding allow count_in
allow-expired r bucket w now u on found over = ground (
  arith,
  lookup-swept r bucket now u,
  limit-swept r now,
  count-current (swept r now) (lookup bucket (swept r now).entries) w now,
)

-- The state that a refusal shows: a running window of the bucket.
record Refused (r : RateLimiter) (bucket : Bytes) (now : ℕ) (w : RateWindow) : Type 0 where
  on : leb_ℤ r.limit (pos 0) ≡ false
  found : lookup bucket (swept r now).entries ≡ some w
  running : expired (swept r now) w now ≡ false
  limiter : (allow r bucket now).limiter ≡ swept r now
  retry_after : (allow r bucket now).retry_after ≡ remaining (swept r now) w now

allow-Refused :
    (r : RateLimiter) (bucket : Bytes) (now : ℕ)
    → (allow r bucket now).allowed ≡ false
    → (w : RateWindow) × Refused r bucket now w
unfolding allow count_in current
allow-Refused r bucket now e = elim (Option-cases (lookup bucket (swept r now).entries)) [
  | inl missing ↦ absurd (ground (arith, limit-swept r now))
  | inr (w, found) ↦ (w, ground (arith, limit-swept r now))
]

remaining_enough :
    (r : RateLimiter) (w : RateWindow) (now : ℕ)
    → (1 ≤ remaining r w now) × (w.start + r.window ≤ now + remaining r w now * second)
unfolding remaining
remaining_enough r w now = ground arith

waited :
    (r : RateLimiter) (w : RateWindow) (now later : ℕ)
    → w.start + r.window ≤ now + remaining r w now * second
    → now + remaining r w now * second ≤ later
    → expired r w later ≡ true
waited r w now later h k = le→leb (w.start + r.window) later (omega arith)

pub swept-Unique : (r : RateLimiter) (now : ℕ) → Unique r.entries → Unique (swept r now).entries
unfolding swept cleanup
swept-Unique r now u = elim (Bool-cases (needs_cleanup r now)) [
  | inl h ↦ rw h (elim (Bool-cases (leb r.max_entries (length (kept r now)))) [
    | inl full ↦ rw full tt
    | inr room ↦ rw room (Unique-keep_if _ r.entries u)
  ])
  | inr h ↦ rw h u
]

-- A client that is refused and comes back at any time after the announced wait, with no call in between, is
-- let through, and the wait is at least a second. The limiter's table has each bucket once.
pub allow_after_retry :
    (r : RateLimiter) (bucket : Bytes) (now later : ℕ)
    → Unique r.entries
    → (allow r bucket now).allowed ≡ false
    → now + (allow r bucket now).retry_after * second ≤ later
    → let v = allow r bucket now in
      (1 ≤ v.retry_after) × ((allow v.limiter bucket later).allowed ≡ true)
allow_after_retry r bucket now later u e after =
    let (w, h) = allow-Refused r bucket now e in
    let wait = remaining_enough (swept r now) w now in
    rw (h.limiter, h.retry_after)
      (
        wait.0,
        allow-expired (swept r now) bucket w later (swept-Unique r now u)
            (rw (limit-swept r now).0 h.on) h.found
            (waited (swept r now) w now later wait.1 (rw h.retry_after at after)),
      )

-- ===== src/RateLimiter/Tests.antt =====
-- The limiter of security.go at concrete calls.
use crocuta.Prelude.{
  ℕ, ◌+◌, ◌*◌, ◌≤◌, ◌≡◌, refl, true, false, List, [], ◌∷◌, Bytes, codes, arith, inl, lookup, insert,
  equal, min,
}
use crocuta.Prelude.Int.{pos}
use crocuta.RateLimiter.{RateLimiter, minute, second, allow, swept, current, count_in, remaining}
use crocuta.RateLimiter.Bounds.{IsBounded, allow-IsBounded}
use crocuta.RateLimiter.Retry.{allow_after_retry}
use crocuta.RateLimiter.Window.{calls, passed, passed-eq-min}

abbrev fresh : RateLimiter
fresh = record { limit = pos 2; window = minute; max_entries = 10; last_cleanup = 5; entries = [] }

abbrev bucket : Bytes
bucket = codes "1:key:10.0.0.1"

abbrev used_up : RateLimiter
used_up = record fresh { entries = (bucket, record { start = 7; count = 2 }) ∷ [] }

abbrev requests : List (Bytes × ℕ)
requests = (bucket, 7) ∷ (codes "2:key:10.0.0.1", 8) ∷ (bucket, 9) ∷ (bucket, 10) ∷ []

refused : (allow used_up bucket 8).allowed ≡ false
unfolding allow swept current count_in lookup equal
refused = refl

refused_wait : (allow used_up bucket 8).retry_after ≡ 60
unfolding allow swept current count_in lookup equal remaining
refused_wait = refl

two_pass : passed bucket fresh requests ≡ 2
unfolding passed allow swept current count_in lookup equal insert
two_pass = refl

allow-IsBounded_example : IsBounded (allow used_up bucket 8).limiter
allow-IsBounded_example =
    allow-IsBounded used_up bucket 8
      (record { room = omega arith; fits = omega arith; counted = omega arith })

allow_after_retry_example :
    (1 ≤ (allow used_up bucket 8).retry_after)
    × ((allow
          (allow used_up bucket 8).limiter
          bucket
          (8 + (allow used_up bucket 8).retry_after * second)).allowed
        ≡ true)
unfolding lookup
allow_after_retry_example =
    allow_after_retry used_up bucket 8 (8 + (allow used_up bucket 8).retry_after * second)
      (refl, tt) refused (omega arith)

passed-eq-min_example : passed bucket fresh requests ≡ min 2 (calls bucket requests)
unfolding lookup
passed-eq-min_example =
    passed-eq-min fresh bucket 6 (6 + minute) 0 2 requests tt (omega arith) (omega arith)
      (omega arith) (omega arith) refl (omega arith) (omega arith) (inl (refl, refl))

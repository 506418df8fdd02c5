-- ===== src/RateLimiter.antt =====
-- internal/sentryx/security.go, RateLimiter: a fixed window for each bucket, in one table of
-- bounded size. A time is a number of nanoseconds after the zero `time.Time`, which is 0 here. The
-- mutex makes each call atomic, so a call is a function of the table.
pub mod Bounds
pub mod Retry
pub mod Window
mod Tests
use crocuta.Prelude.{
  ℕ, ◌+◌, ◌-◌, ◌*◌, ◌/◌, Bool, true, false, not, ◌||◌, [], Option, none, some, ltb, leb, ◌==◌,
  if◌then◌else◌, Bytes, Dict, lookup, insert, keep_if, length,
}
use crocuta.Prelude.Int.{ℤ, pos, negsuc, pos_part, neg_part, leb_ℤ}

abbrev pub second : ℕ
second = 1000000000

abbrev pub minute : ℕ
minute = 60 * second

abbrev pub default_max_rate_limiter_entries : ℕ
default_max_rate_limiter_entries = 10000

pub record RateWindow : Type 0 where
  pub start : ℕ
  pub count : ℕ

pub record RateLimiter : Type 0 where
  pub limit : ℤ
  pub window : ℕ
  pub max_entries : ℕ
  pub last_cleanup : ℕ
  pub entries : Dict RateWindow

-- `none` is the nil limiter, which lets everything pass.
unfoldable pub new_rate_limiter : ℤ → ℕ → Option RateLimiter
new_rate_limiter limit now =
    if leb_ℤ limit (pos 0)
    then none
    else some (record {
      limit = limit;
      window = minute;
      max_entries = default_max_rate_limiter_entries;
      last_cleanup = now;
      entries = [];
    })

-- now.Sub(v.start) >= r.window
abbrev pub expired : RateLimiter → RateWindow → ℕ → Bool
expired r v now = leb (v.start + r.window) now

-- The entries that `cleanup` keeps at first.
abbrev pub kept : RateLimiter → ℕ → Dict RateWindow
kept r now = keep_if (λ v. not (expired r v now)) r.entries

unfoldable pub cleanup : RateLimiter → ℕ → RateLimiter
cleanup r now = record r {
  last_cleanup = now;
  entries = if leb r.max_entries (length (kept r now)) then [] else kept r now;
}

-- What the table holds for a bucket; a missing key reads as the zero value.
abbrev pub stored : Option RateWindow → RateWindow
stored none = record { start = 0; count = 0 }
stored (some w) = w

abbrev pub needs_cleanup : RateLimiter → ℕ → Bool
needs_cleanup r now = leb (r.last_cleanup + r.window) now || leb r.max_entries (length r.entries)

unfoldable pub swept : RateLimiter → ℕ → RateLimiter
swept r now = if needs_cleanup r now then cleanup r now else r

-- The window that a call at `now` counts in.
unfoldable pub current : RateLimiter → Option RateWindow → ℕ → RateWindow
current r found now =
    if (stored found).start == 0 || expired r (stored found) now
    then record { start = now; count = 0 }
    else stored found

unfoldable pub remaining : RateLimiter → RateWindow → ℕ → ℕ
remaining r entry now =
    let left = (entry.start + r.window + second - 1 - now) / second in
    if ltb left 1 then 1 else left

pub record Verdict : Type 0 where
  pub allowed : Bool
  pub retry_after : ℕ
  pub limiter : RateLimiter

unfoldable pub count_in : RateLimiter → Bytes → RateWindow → ℕ → Verdict
count_in r bucket entry now =
    if leb_ℤ r.limit (pos entry.count)
    then record { allowed = false; retry_after = remaining r entry now; limiter = r }
    else record {
      allowed = true;
      retry_after = 0;
      limiter = record r {
        entries = insert bucket (record entry { count = entry.count + 1 }) r.entries;
      };
    }

unfoldable pub allow : RateLimiter → Bytes → ℕ → Verdict
allow r bucket now =
    if leb_ℤ r.limit (pos 0)
    then record { allowed = true; retry_after = 0; limiter = r }
    else let r' = swept r now in count_in r' bucket (current r' (lookup bucket r'.entries) now) now

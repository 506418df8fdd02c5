-- ===== src/Alerts/Delay.antt =====
-- alertRetryDelay of internal/sentryx/alerts.go in closed form.
use crocuta.Prelude.Int.{pos, ltb_ℤ, half_word, wrap64_id}
use crocuta.Prelude.{
  ◌<◌, ◌-◌, false, ltb, if◌then◌else◌, ◌∙◌, ℕ, zero, suc, ◌*◌, ◌^◌, ◌≤◌, min, ◌≡◌, ap, arith,
}
use native.Mathlib.Nat.{pow-suc}
use crocuta.RateLimiter.{second, minute}
use crocuta.Alerts.{hour, minutes_of, doubled, cap_delay, alert_retry_delay}

power-positive : (n : ℕ) → 1 ≤ 2 ^ n
power-positive zero = omega arith
power-positive (suc n) = omega (arith, power-positive n)

grows : (d r : ℕ) → d ≤ d * 2 ^ r
grows d zero = omega arith
grows d (suc r) = omega (arith, grows d r, ap (λ (t : ℕ). d * t) (pow-suc 2 r))

doubled-min :
    (cap rounds d : ℕ) → cap ≤ hour → min cap (doubled rounds d) ≡ min cap (d * 2 ^ rounds)
unfolding doubled
doubled-min cap zero d h = omega arith
doubled-min cap (suc r) d h =
    ground
      (arith, doubled-min cap r (d * 2) h, grows d (suc r), ap (λ (t : ℕ). d * t) (pow-suc 2 r))

-- An hour, or the cooldown where that is less and not zero.
abbrev pub longest : ℕ → ℕ
longest cooldown = if ltb 0 cooldown then min hour (cooldown * minute) else hour

longest-le : (cooldown : ℕ) → longest cooldown ≤ hour
longest-le cooldown = ground arith

cap_delay-longest :
    (cooldown : ℕ) → cooldown * minute < half_word → cap_delay cooldown ≡ pos (longest cooldown)
unfolding minutes_of
cap_delay-longest cooldown h = rw (wrap64_id (pos (cooldown * minute)) h) (ground arith)

capped :
    (cap delay : ℕ)
    → (if ltb_ℤ (pos cap) (pos delay) then pos cap else pos delay) ≡ pos (min cap delay)
capped cap delay = ground arith

suc-after : (n : ℕ) → ltb (suc n) 1 ≡ false
suc-after n = ground arith

suc-minus : (n : ℕ) → suc n - 1 ≡ n
suc-minus n = omega arith

-- After the first failure the delay is 30 seconds, doubled with each further failure and cut at one hour
-- or, where that is less and not zero, at the rule's cooldown. The nanoseconds of the cooldown fit into 64
-- bits.
pub alert_retry_delay-closed :
    (failures cooldown : ℕ)
    → cooldown * minute < half_word
    → alert_retry_delay (suc failures) cooldown
      ≡ pos (min (longest cooldown) (30 * second * 2 ^ failures))
unfolding alert_retry_delay
alert_retry_delay-closed failures cooldown h =
    rw (cap_delay-longest cooldown h, suc-after failures, suc-minus failures)
      (capped (longest cooldown) (doubled failures (30 * second))
        ∙ ap pos (doubled-min (longest cooldown) failures (30 * second) (longest-le cooldown)))

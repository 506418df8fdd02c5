-- ===== src/Alerts/Attempts.antt =====
-- EvaluateAlerts of internal/sentryx/alerts.go, again and again for one rule and one issue.
use crocuta.Prelude.{
  equal_fold, ℕ, ◌+◌, ◌≤◌, ◌≡◌, refl, ap, ◌∙◌, Bool, true, false, Option, none, some, if◌then◌else◌,
  ◌&&◌, arith, Bool-cases, inl, inr, codes, List, [], ◌∷◌,
}
use crocuta.Alerts.{
  AlertRule, NotificationState, alert_in_cooldown, record_alert_attempt, is_valid, Round, notify,
  deliver,
}
use crocuta.Alerts.Cooldown.{failures_of}

abbrev pub failed_since : List Bool → ℕ
failed_since [] = 0
failed_since (true ∷ earlier) = 0
failed_since (false ∷ earlier) = failed_since earlier + 1

-- The row after attempts at the given times, the latest one first.
unfoldable pub attempted : List (ℕ × Bool) → Option NotificationState
attempted [] = none
attempted ((now, delivered) ∷ earlier) =
    some (record_alert_attempt (attempted earlier) now delivered)

abbrev pub results : List (ℕ × Bool) → List Bool
results [] = []
results ((now, delivered) ∷ earlier) = delivered ∷ results earlier

failures_of-attempt :
    (row : Option NotificationState) (t : ℕ) (delivered : Bool)
    → failures_of (some (record_alert_attempt row t delivered))
      ≡ (if delivered then 0 else failures_of row + 1)
unfolding record_alert_attempt
failures_of-attempt none t delivered = ground arith
failures_of-attempt (some state) t delivered = refl

-- The failures of a row are the attempts since the last delivery, or all of them where there was none.
pub failures-attempted :
    (attempts : List (ℕ × Bool))
    → failures_of (attempted attempts) ≡ failed_since (results attempts)
unfolding attempted
failures-attempted [] = refl
failures-attempted ((t, true) ∷ earlier) = failures_of-attempt (attempted earlier) t true
failures-attempted ((t, false) ∷ earlier) =
    failures_of-attempt (attempted earlier) t false
    ∙ ap (λ (n : ℕ). n + 1) (failures-attempted earlier)

-- How many of the rounds deliver something.
unfoldable pub deliveries : AlertRule → Option NotificationState → List Round → ℕ
deliveries rule row [] = 0
deliveries rule row (round ∷ rest) =
    let (next, delivered) = notify rule row round in
    let later = deliveries rule next rest in if delivered then later + 1 else later

-- The rounds in which the database fails, on the read or on the write.
abbrev pub faults : List Round → ℕ
faults [] = 0
faults (round ∷ rest) = if round.is_read && round.is_written then faults rest else faults rest + 1

faults-unread :
    (round : Round) (rest : List Round)
    → round.is_read ≡ false
    → faults (round ∷ rest) ≡ faults rest + 1
faults-unread round rest h = rw h refl

faults-unwritten :
    (round : Round) (rest : List Round)
    → round.is_written ≡ false
    → faults (round ∷ rest) ≡ faults rest + 1
faults-unwritten round rest h = ground arith

faults-le : (round : Round) (rest : List Round) → faults rest ≤ faults (round ∷ rest)
faults-le round rest = ground arith

-- The row after an attempt that a round writes or fails to write.
abbrev kept : Round → Option NotificationState → Bool → Option NotificationState
kept round row delivered =
    if round.is_written then some (record_alert_attempt row round.at delivered) else row

abbrev Notified : Option NotificationState → Type 0
Notified none = ⊥
Notified (some state) = is_valid state.last_notified ≡ true

recorded-Notified :
    (row : Option NotificationState) (t : ℕ) (delivered : Bool)
    → Notified row
    → Notified (some (record_alert_attempt row t delivered))
unfolding record_alert_attempt
recorded-Notified none t delivered v = absurd v
recorded-Notified (some state) t true v = refl
recorded-Notified (some state) t false v = v

kept-Notified :
    (round : Round) (row : Option NotificationState) (delivered : Bool)
    → Notified row
    → Notified (kept round row delivered)
kept-Notified round row delivered v = elim (Bool-cases round.is_written) [
  | inl e ↦ rw e (recorded-Notified row round.at delivered v)
  | inr e ↦ rw e v
]

delivered-Notified :
    (round : Round) (row : Option NotificationState)
    → round.is_written ≡ true
    → Notified (kept round row true)
unfolding record_alert_attempt
delivered-Notified round none h = rw h refl
delivered-Notified round (some state) h = rw h refl

waits :
    (rule : AlertRule) (row : Option NotificationState) (now : ℕ)
    → equal_fold rule.condition (codes "new_issue") ≡ true
    → Notified row
    → alert_in_cooldown rule row now ≡ true
unfolding alert_in_cooldown
waits rule none now h v = absurd v
waits rule (some state) now h v = rw (h, v) refl

silent :
    (rule : AlertRule) (row : Option NotificationState) (rounds : List Round)
    → equal_fold rule.condition (codes "new_issue") ≡ true
    → Notified row
    → deliveries rule row rounds ≤ faults rounds
unfolding deliveries notify alert_in_cooldown
silent rule row [] h v = omega arith
silent rule row (round ∷ rest) h v = elim (Bool-cases round.is_read) [
  | inl e ↦
      let more = faults-le round rest in
      let here : deliveries rule row (round ∷ rest) ≤ faults rest =
        rw (e, waits rule row round.at h v) (silent rule row rest h v) in
      omega arith
  | inr e ↦
      let all = faults-unread round rest e in
      elim (Bool-cases ((deliver round.http rule.actions).0)) [
        | inl sent ↦
            let later = silent rule (kept round row true) rest h (kept-Notified round row true v) in
            let here : deliveries rule row (round ∷ rest) ≤ faults rest + 1 =
              rw (e, sent) (omega arith) in
            omega arith
        | inr unsent ↦
            let later =
              silent rule (kept round row false) rest h (kept-Notified round row false v) in
            let here : deliveries rule row (round ∷ rest) ≤ faults rest + 1 =
              rw (e, unsent) (omega arith) in
            omega arith
      ]
]

-- A rule on new issues delivers for an issue at most once, and once more for each round in which the
-- database failed to read or to write the row, whatever the row it starts from, the times of the rounds and
-- the answers of the network.
pub deliveries_new_issue :
    (rule : AlertRule) (row : Option NotificationState) (rounds : List Round)
    → equal_fold rule.condition (codes "new_issue") ≡ true
    → deliveries rule row rounds ≤ 1 + faults rounds
unfolding deliveries notify
deliveries_new_issue rule row [] h = omega arith
deliveries_new_issue rule row (round ∷ rest) h =
    let more = faults-le round rest in
    elim (Bool-cases (alert_in_cooldown rule (if round.is_read then row else none) round.at)) [
      | inl waiting ↦ rw waiting (omega (arith, deliveries_new_issue rule row rest h))
      | inr free ↦ elim (Bool-cases ((deliver round.http rule.actions).0)) [
        | inr unsent ↦
            let later = deliveries_new_issue rule (kept round row false) rest h in
            rw (free, unsent) (omega arith)
        | inl sent ↦ elim (Bool-cases round.is_written) [
          | inl written ↦
              let later =
                silent rule (kept round row true) rest h (delivered-Notified round row written) in
              rw (free, sent) (omega arith)
          | inr unwritten ↦
              let later = deliveries_new_issue rule (kept round row true) rest h in
              let all = faults-unwritten round rest unwritten in rw (free, sent) (omega arith)
        ]
      ]
    ]

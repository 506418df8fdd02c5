-- ===== src/Alerts/Cooldown.antt =====
-- alertInCooldown of internal/sentryx/alerts.go on the row that recordAlertAttempt writes.
use crocuta.Prelude.{ℕ, ◌+◌, ◌≡◌, true, false, ◌||◌, Option, none, some, arith, codes}
use crocuta.Alerts.{
  AlertRule, NotificationState, is_before, minutes_of, alert_retry_delay, alert_in_cooldown,
  record_alert_attempt, equal_fold,
}

abbrev pub failures_of : Option NotificationState → ℕ
failures_of none = 0
failures_of (some state) = state.failures

abbrev pub notified_of : Option NotificationState → Option ℕ
notified_of none = none
notified_of (some state) = state.last_notified

-- After a failed attempt at `t` of a rule that has notified nobody about the issue, the rule is in
-- cooldown at exactly the times before `t` plus the delay for the failures so far, this one included.
pub alert_in_cooldown_failed :
    (rule : AlertRule) (row : Option NotificationState) (t now : ℕ)
    → notified_of row ≡ none
    → alert_in_cooldown rule (some (record_alert_attempt row t false)) now
      ≡ is_before now t (alert_retry_delay (failures_of row + 1) rule.cooldown_minutes)
unfolding alert_in_cooldown record_alert_attempt
alert_in_cooldown_failed rule none t now e = ground arith
alert_in_cooldown_failed rule (some state) t now e = rw e (ground arith)

-- After a delivery at `t` a rule is in cooldown at the times before `t` plus its cooldown, and a rule on
-- new issues is in cooldown for good.
pub alert_in_cooldown_delivered :
    (rule : AlertRule) (row : Option NotificationState) (t now : ℕ)
    → alert_in_cooldown rule (some (record_alert_attempt row t true)) now ≡ (
        equal_fold rule.condition (codes "new_issue")
        || is_before now t (minutes_of rule.cooldown_minutes))
unfolding alert_in_cooldown record_alert_attempt
alert_in_cooldown_delivered rule none t now = ground arith
alert_in_cooldown_delivered rule (some state) t now = ground arith

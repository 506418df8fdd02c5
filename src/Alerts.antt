-- ===== src/Alerts.antt =====
-- The alert evaluator of internal/sentryx/alerts.go: the delay after a failed delivery, the cooldown of
-- a rule for an issue, the row that an attempt writes, and the loop over the candidates. Times and
-- durations are nanoseconds. The row's table is the map from (rule, issue) to the state of the pair,
-- which the upsert of recordAlertAttempt keeps: here the row of one pair.
pub mod Delay
pub mod Rules
pub mod Cooldown
pub mod Attempts
mod Tests
use crocuta.Prelude.{
  equal_fold, ℕ, zero, suc, ◌+◌, ◌-◌, ◌*◌, Bool, true, false, ◌&&◌, ◌||◌, List, [], ◌∷◌, Option,
  none, some, if◌then◌else◌, ltb, ◌==◌, Bytes, codes, equal, to_lower, has_prefix, Dict,
}
use crocuta.Prelude.Int.{ℤ, pos, pos_part, neg_part, ltb_ℤ, wrap64}
use crocuta.RateLimiter.{second, minute}

pub record AlertAction : Type 0 where
  pub type : Bytes
  pub url : Bytes

-- The fields of AlertRule that the evaluator reads.
pub record AlertRule : Type 0 where
  pub id : Bytes
  pub project_id : Bytes
  pub condition : Bytes
  pub window_minutes : ℕ
  pub cooldown_minutes : ℕ
  pub enabled : Bool
  pub actions : List AlertAction

abbrev pub hour : ℕ
hour = 60 * minute

-- The loop `for attempt := 1; attempt < failures && delay < time.Hour; attempt++ { delay *= 2 }`, with
-- the number of rounds left.
unfoldable pub doubled : ℕ → ℕ → ℕ
doubled zero delay = delay
doubled (suc rounds) delay =
    let further = doubled rounds (delay * 2) in if ltb delay hour then further else delay

-- time.Duration(minutes) * time.Minute, which wraps at 64 bits
unfoldable pub minutes_of : ℕ → ℤ
minutes_of minutes = wrap64 (pos (minutes * minute))

abbrev pub cap_delay : ℕ → ℤ
cap_delay cooldown_minutes =
    let cooldown = minutes_of cooldown_minutes in
    if ltb 0 cooldown_minutes && ltb_ℤ cooldown (pos hour) then cooldown else pos hour

unfoldable pub alert_retry_delay : ℕ → ℕ → ℤ
alert_retry_delay failures cooldown_minutes =
    if ltb failures 1
    then pos 0
    else (let delay = pos (doubled (failures - 1) (30 * second)) in
        if ltb_ℤ (cap_delay cooldown_minutes) delay then cap_delay cooldown_minutes else delay)

-- now < t + d, for a duration that may be negative
abbrev pub is_before : ℕ → ℕ → ℤ → Bool
is_before now t d = ltb (now + neg_part d) (t + pos_part d)

-- A row of sentryx_alert_notification_state.
pub record NotificationState : Type 0 where
  pub last_notified : Option ℕ
  pub last_attempted : Option ℕ
  pub failures : ℕ

abbrev pub is_valid {ℓ} : {A : Type ℓ} → Option A → Bool
is_valid none = false
is_valid (some a) = true

-- now.Before(attempted + delay), for a time that is there
abbrev pub before_retry : ℕ → Option ℕ → ℤ → Bool
before_retry now none delay = false
before_retry now (some attempted) delay = is_before now attempted delay

-- now - notified < cooldown, for a time that is there
abbrev pub cooling : ℕ → Option ℕ → ℤ → Bool
cooling now none cooldown = false
cooling now (some notified) cooldown = is_before now notified cooldown

-- `none` is what the query gives where there is no row, and also where it fails.
unfoldable pub alert_in_cooldown : AlertRule → Option NotificationState → ℕ → Bool
alert_in_cooldown rule none now = false
alert_in_cooldown rule (some state) now =
    if equal_fold rule.condition (codes "new_issue") && is_valid state.last_notified
    then true
    else if ltb 0 state.failures
        && before_retry now state.last_attempted
            (alert_retry_delay state.failures rule.cooldown_minutes)
    then true
    else cooling now state.last_notified (minutes_of rule.cooldown_minutes)

-- The row after INSERT ... ON CONFLICT DO UPDATE.
unfoldable pub record_alert_attempt : Option NotificationState → ℕ → Bool → NotificationState
record_alert_attempt none now delivered = record {
  last_notified = if delivered then some now else none;
  last_attempted = some now;
  failures = if delivered then 0 else 1;
}
record_alert_attempt (some state) now delivered = record {
  last_notified = if delivered then some now else state.last_notified;
  last_attempted = some now;
  failures = if delivered then 0 else state.failures + 1;
}

-- What the HTTP client answers to a request for a URL: none for an error, or the status code.
abbrev pub Http : Type 0
Http = Bytes → Option ℕ

abbrev pub accepted : Option ℕ → Bool
accepted none = false
accepted (some status) = ltb status 300

abbrev pub is_webhook : AlertAction → Bool
is_webhook action = equal_fold action.type (codes "webhook") && has_prefix action.url (codes "http")

-- The loop over the actions: whether one was delivered, and how many were tried.
unfoldable pub deliver : Http → List AlertAction → Bool × ℕ
deliver http [] = (false, 0)
deliver http (action ∷ rest) =
    let later = deliver http rest in
    if is_webhook action then (accepted (http action.url) || later.0, later.1 + 1) else later

-- A round of the evaluator: its time, the network, and whether the database reads and writes the row.
pub record Round : Type 0 where
  pub at : ℕ
  pub http : Http
  pub is_read : Bool
  pub is_written : Bool

-- One candidate of an enabled rule: the row after it, and whether an action was delivered. The error of a
-- query is taken for a missing row, and that of a statement is only reported.
unfoldable pub notify :
    AlertRule → Option NotificationState → Round → Option NotificationState × Bool
notify rule row round =
    if alert_in_cooldown rule (if round.is_read then row else none) round.at
    then (row, false)
    else (let delivered = (deliver round.http rule.actions).0 in
        let after = some (record_alert_attempt row round.at delivered) in
        (if round.is_written then after else row, delivered))

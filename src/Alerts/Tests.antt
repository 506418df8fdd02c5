-- ===== src/Alerts/Tests.antt =====
-- The alert evaluator on concrete rules.
use crocuta.Prelude.{
  AllValues, ◌*◌, ◌^◌, ◌≤◌, ◌≡◌, ◌+◌, List, arith, min, refl, true, false, some, none, [], ◌∷◌,
  codes, equal, to_lower,
}
use crocuta.RateLimiter.{second}
use crocuta.Alerts.{AlertRule, Http, Round, alert_retry_delay, doubled, minutes_of}
use crocuta.Prelude.Int.{pos, negsuc, wrap64}
use crocuta.Alerts.Rules.{RuleRow, IsNormal, serve_all, creates, deletes, serve_all-IsNormal}
use crocuta.Alerts.Delay.{longest, alert_retry_delay-closed}
use crocuta.Alerts.Attempts.{faults, deliveries, deliveries_new_issue}

abbrev new_issue_rule : AlertRule
new_issue_rule = record {
  id = codes "r";
  project_id = codes "p";
  condition = codes "New_Issue";
  window_minutes = 60;
  cooldown_minutes = 5;
  enabled = true;
  actions = record { type = codes "webhook"; url = codes "http://a" } ∷ [];
}

abbrev fine : Http
fine url = some 200

abbrev down : Http
down url = none

alert_retry_delay-closed_example :
    alert_retry_delay 4 10 ≡ pos (min (longest 10) (30 * second * 2 ^ 3))
alert_retry_delay-closed_example = alert_retry_delay-closed 3 10 (omega arith)

-- A delivery that is not written is delivered again, and then no more.
abbrev rounds : List Round
rounds =
    record { at = 0; http = down; is_read = true; is_written = true }
    ∷ record { at = 90 * second; http = fine; is_read = true; is_written = false }
    ∷ record { at = 900 * second; http = fine; is_read = true; is_written = true }
    ∷ record { at = 9000 * second; http = fine; is_read = true; is_written = true }
    ∷ []

deliveries_new_issue_example : deliveries new_issue_rule none rounds ≤ 1 + faults rounds
unfolding equal to_lower
deliveries_new_issue_example = deliveries_new_issue new_issue_rule none rounds refl

retry_delay_test : alert_retry_delay 3 0 ≡ pos (120 * second)
unfolding alert_retry_delay doubled
retry_delay_test = refl

-- A cooldown of some 292 years wraps, and leaves no delay.
retry_delay_wraps : alert_retry_delay 3 153722868 ≡ negsuc 9223371993709551615
unfolding alert_retry_delay doubled minutes_of wrap64
retry_delay_wraps = refl

abbrev bare_rule : RuleRow
bare_rule = record {
  id = [];
  project_id = codes "p";
  condition = codes " New_Issue ";
  threshold = negsuc 4;
  window_minutes = pos 0;
  cooldown_minutes = negsuc 0;
  created_at = 0;
  updated_at = 0;
}

serve_all-IsNormal_example :
    AllValues IsNormal
      (serve_all (creates (codes "r") 9 bare_rule ∷ deletes (codes "q") (codes "r") ∷ []) [])
serve_all-IsNormal_example =
    serve_all-IsNormal (creates (codes "r") 9 bare_rule ∷ deletes (codes "q") (codes "r") ∷ []) []
      tt

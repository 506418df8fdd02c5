-- ===== src/Alerts/Rules.antt =====
-- The alert rules of the memory store, in internal/sentryx/features.go: normalizeAlertRule and the table.
-- Name, filters, actions and the switch of a rule pass through unchanged and are left out. The id that
-- alertRuleID makes is an argument.
use crocuta.Prelude.{
  filter_by, ltb, ℕ, ◌≤◌, ◌≡◌, refl, Bool, true, false, not, ◌&&◌, ◌||◌, List, [], ◌∷◌, Option,
  none, some, if◌then◌else◌, ◌==◌, Bytes, codes, equal, Dict, lookup, insert, delete, AllValues,
  AllValues-insert, to_lower, trim_space, arith, Bool-cases, inl, inr, Option-cases,
}
use crocuta.Query.Sort.{slice_stable}
use crocuta.Prelude.Int.{ℤ, pos, negsuc, pos_part, leb_ℤ, ltb_ℤ}

pub record RuleRow : Type 0 where
  pub id : Bytes
  pub project_id : Bytes
  pub condition : Bytes
  pub threshold : ℤ
  pub window_minutes : ℤ
  pub cooldown_minutes : ℤ
  pub created_at : ℕ
  pub updated_at : ℕ

abbrev pub positive_or : ℤ → ℤ → ℤ
positive_or default n = if leb_ℤ n (pos 0) then default else n

abbrev pub not_negative : ℤ → ℤ
not_negative n = if ltb_ℤ n (pos 0) then pos 0 else n

abbrev pub is_single : Bytes → Bool
is_single condition = equal condition (codes "new_issue") || equal condition (codes "regression")

unfoldable pub normalize_alert_rule : Bytes → ℕ → RuleRow → RuleRow
normalize_alert_rule fresh_id now rule =
    let condition = to_lower (trim_space rule.condition) in
    record rule {
      id = if equal rule.id [] then fresh_id else rule.id;
      condition = condition;
      threshold = if is_single condition then pos 1 else positive_or (pos 1) rule.threshold;
      window_minutes = positive_or (pos 60) rule.window_minutes;
      cooldown_minutes = not_negative rule.cooldown_minutes;
      created_at = if rule.created_at == 0 then now else rule.created_at;
      updated_at = now;
    }

unfoldable pub create_alert_rule : Bytes → ℕ → RuleRow → Dict RuleRow → Dict RuleRow
create_alert_rule fresh_id now rule rules =
    let normal = normalize_alert_rule fresh_id now rule in insert normal.id normal rules

-- A rule that is not there is not updated.
unfoldable pub update_alert_rule : Bytes → ℕ → RuleRow → Dict RuleRow → Option (Dict RuleRow)
update_alert_rule fresh_id now rule rules = elim (lookup rule.id rules) [
  | none ↦ none
  | some old ↦
      let normal = normalize_alert_rule fresh_id now rule in some (insert normal.id normal rules)
]

unfoldable pub delete_alert_rule : Bytes → Bytes → Dict RuleRow → Option (Dict RuleRow)
delete_alert_rule project_id id rules = elim (lookup id rules) [
  | none ↦ none
  | some rule ↦
      if not (equal project_id []) && not (equal rule.project_id project_id)
      then none
      else some (delete id rules)
]

abbrev pub rules_of : Dict RuleRow → List RuleRow
rules_of [] = []
rules_of ((id, rule) ∷ rest) = rule ∷ rules_of rest

unfoldable pub list_alert_rules : Bytes → Dict RuleRow → List RuleRow
list_alert_rules project_id rules =
    slice_stable (λ x y. ltb x.created_at y.created_at)
      (filter_by (λ rule. equal project_id [] || equal rule.project_id project_id) (rules_of rules))

pub data Request : Type 0 where
  creates updates : Bytes → ℕ → RuleRow → Request
  deletes : Bytes → Bytes → Request

abbrev pub or_same : Dict RuleRow → Option (Dict RuleRow) → Dict RuleRow
or_same rules none = rules
or_same rules (some changed) = changed

-- One request, where one that fails changes nothing.
unfoldable pub serve : Request → Dict RuleRow → Dict RuleRow
serve (creates fresh_id now rule) rules = create_alert_rule fresh_id now rule rules
serve (updates fresh_id now rule) rules = or_same rules (update_alert_rule fresh_id now rule rules)
serve (deletes project_id id) rules = or_same rules (delete_alert_rule project_id id rules)

unfoldable pub serve_all : List Request → Dict RuleRow → Dict RuleRow
serve_all [] rules = rules
serve_all (request ∷ rest) rules = serve_all rest (serve request rules)

-- What the evaluator relies on.
pub record IsNormal (rule : RuleRow) : Type 0 where
  pub threshold_positive : 1 ≤ pos_part rule.threshold
  pub window_positive : 1 ≤ pos_part rule.window_minutes
  pub cooldown_not_negative : ltb_ℤ rule.cooldown_minutes (pos 0) ≡ false
  pub single : is_single rule.condition ≡ true → rule.threshold ≡ pos 1

positive : (n d : ℤ) → 1 ≤ pos_part d → 1 ≤ pos_part (positive_or d n)
positive (pos n) d h = ground arith
positive (negsuc n) d h = ground arith

not_below : (n : ℤ) → ltb_ℤ (not_negative n) (pos 0) ≡ false
not_below (pos n) = ground arith
not_below (negsuc n) = ground arith

threshold_at_least : (b : Bool) (n : ℤ) → 1 ≤ pos_part (if b then pos 1 else positive_or (pos 1) n)
threshold_at_least true n = omega arith
threshold_at_least false n = positive n (pos 1) (omega arith)

normalize_alert_rule-IsNormal :
    (fresh_id : Bytes) (now : ℕ) (rule : RuleRow)
    → IsNormal (normalize_alert_rule fresh_id now rule)
unfolding normalize_alert_rule
normalize_alert_rule-IsNormal fresh_id now rule = record {
  threshold_positive =
      threshold_at_least (is_single (to_lower (trim_space rule.condition))) rule.threshold;
  window_positive = positive rule.window_minutes (pos 60) (omega arith);
  cooldown_not_negative = not_below rule.cooldown_minutes;
  single = λ h. rw h refl;
}

AllValues-delete :
    (id : Bytes) (rules : Dict RuleRow)
    → AllValues IsNormal rules
    → AllValues IsNormal (delete id rules)
unfolding delete
AllValues-delete id [] h = h
AllValues-delete id ((key, rule) ∷ rules) h = elim (Bool-cases (equal key id)) [
  | inl this ↦ rw this (AllValues-delete id rules h.1)
  | inr other ↦ rw other (h.0, AllValues-delete id rules h.1)
]

serve-IsNormal :
    (request : Request) (rules : Dict RuleRow)
    → AllValues IsNormal rules
    → AllValues IsNormal (serve request rules)
unfolding serve create_alert_rule update_alert_rule delete_alert_rule
serve-IsNormal (creates fresh_id now rule) rules h =
    AllValues-insert IsNormal _ _ rules (normalize_alert_rule-IsNormal fresh_id now rule) h
serve-IsNormal (updates fresh_id now rule) rules h = elim (Option-cases (lookup rule.id rules)) [
  | inl absent ↦ rw (absent, update_alert_rule) h
  | inr (old, there) ↦
      rw (there, update_alert_rule)
        (AllValues-insert IsNormal _ _ rules (normalize_alert_rule-IsNormal fresh_id now rule) h)
]
serve-IsNormal (deletes project_id id) rules h = elim (Option-cases (lookup id rules)) [
  | inl absent ↦ rw (absent, delete_alert_rule) h
  | inr (rule, there) ↦
      elim (Bool-cases (not (equal project_id []) && not (equal rule.project_id project_id))) [
        | inl foreign ↦ rw (there, delete_alert_rule, foreign) h
        | inr own ↦ rw (there, delete_alert_rule, own) (AllValues-delete id rules h)
      ]
]

-- Whatever rules are created, updated and deleted, all rules of the table have a threshold and a window of
-- at least one and no negative cooldown, and a rule on new issues or regressions has the threshold one.
pub serve_all-IsNormal :
    (requests : List Request) (rules : Dict RuleRow)
    → AllValues IsNormal rules
    → AllValues IsNormal (serve_all requests rules)
unfolding serve_all
serve_all-IsNormal [] rules h = h
serve_all-IsNormal (request ∷ rest) rules h =
    serve_all-IsNormal rest (serve request rules) (serve-IsNormal request rules h)

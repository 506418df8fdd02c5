-- ===== src/Pii/Hidden.antt =====
-- What the actions of internal/sentryx/pii.go leave in a field, and which keys call for one.
use crocuta.Prelude.{
  equal_fold, ◌≡◌, ◌⊎◌, refl, sym, Bool, true, false, ◌&&◌, ◌||◌, Option, none, some, if◌then◌else◌,
  Bytes, codes, equal, equal_iff, to_lower, to_lower_byte, trim_space, trim_left, trim_right,
  is_space, Bool-cases, ◌++◌, Option-cases, inl, inr, arith,
}
use crocuta.Store.Digest.{Sha, hex_encode}
use crocuta.Pii.{PiiRule, Regexps, PiiProcessor, replaced, normalize_action, has_none}
use crocuta.Pii.Scrub.{
  Value, Codec, Redaction, string_value, is_left, is_listed, holds_card, rule_for, default_action,
  action_for, of_rule,
}

-- What becomes of a field: it stays, it goes, a text takes its place, or its value is scrubbed.
pub data Fate : Type 0 where
  stays : Fate
  gone : Fate
  becomes : Bytes → Fate
  scrubbed_below : Fate

-- The text that the action of a rule puts in the place of a value.
abbrev pub left_by : Sha → Bytes → Bytes → Bytes → Bytes
left_by sha action replacement value =
    if equal action (codes "hash")
    then codes "sha256:" ++ hex_encode (sha.sum256 value)
    else if equal action (codes "replace")
    then (if has_none replacement then codes "[Filtered]" else replacement)
    else codes "[Filtered]"

normalize_action-cases :
    (a : Bytes)
    → (normalize_action a ≡ codes "remove")
      ⊎ ((normalize_action a ≡ codes "hash")
          ⊎ ((normalize_action a ≡ codes "replace") ⊎ (normalize_action a ≡ codes "mask")))
unfolding normalize_action
normalize_action-cases a = ground (
  arith,
  equal_iff (to_lower (trim_space a)) (codes "remove"),
  equal_iff (to_lower (trim_space a)) (codes "hash"),
  equal_iff (to_lower (trim_space a)) (codes "replace"),
)

mask_again : normalize_action (codes "mask") ≡ codes "mask"
unfolding normalize_action to_lower to_lower_byte trim_space trim_left trim_right is_space equal
mask_again = refl

remove_again : normalize_action (codes "remove") ≡ codes "remove"
unfolding normalize_action to_lower to_lower_byte trim_space trim_left trim_right is_space equal
remove_again = refl

hash_again : normalize_action (codes "hash") ≡ codes "hash"
unfolding normalize_action to_lower to_lower_byte trim_space trim_left trim_right is_space equal
hash_again = refl

replace_again : normalize_action (codes "replace") ≡ codes "replace"
unfolding normalize_action to_lower to_lower_byte trim_space trim_left trim_right is_space equal
replace_again = refl

normalize_action-normalize_action :
    (a : Bytes) → normalize_action (normalize_action a) ≡ normalize_action a
normalize_action-normalize_action a = elim (normalize_action-cases a) [
  | inl e ↦ rw e remove_again
  | inr (inl e) ↦ rw e hash_again
  | inr (inr (inl e)) ↦ rw e replace_again
  | inr (inr (inr e)) ↦ rw e mask_again
]

left_by-replaced :
    (sha : Sha) (value action replacement : Bytes)
    → equal action (codes "remove") ≡ false
    → replaced sha value action replacement ≡ left_by sha action replacement value
unfolding replaced
left_by-replaced sha value action replacement h = rw h refl

module _ (rx : Regexps) where
  -- The configuration masks the field, where no rule names it.
  unfoldable pub calls_for_mask : PiiProcessor rx → Bytes → Bytes → Value → Bool
  calls_for_mask p key path v =
      (p.config.scrub_ip_addresses && equal_fold key (codes "ip_address"))
      || ((p.config.scrub_defaults && (rx.match_string p.key_pattern key || holds_card rx p v))
          || is_listed p.config.sensitive_fields key path)

  default_action-some :
      (p : PiiProcessor rx) (key path : Bytes) (v : Value) (a : Redaction)
      → default_action rx p key path v ≡ some a
      → (a.action ≡ codes "mask") × (calls_for_mask p key path v ≡ true)
  unfolding default_action calls_for_mask
  default_action-some p key path v a e = ground arith

  default_action-none :
      (p : PiiProcessor rx) (key path : Bytes) (v : Value)
      → default_action rx p key path v ≡ none
      → calls_for_mask p key path v ≡ false
  unfolding default_action calls_for_mask
  default_action-none p key path v e = ground arith

  module _ (sha : Sha) (codec : Codec) where
    abbrev ruled : Option PiiRule → Bool → Bytes → Fate
    ruled (some rule) masks value =
        if equal (normalize_action rule.action) (codes "remove")
        then gone
        else becomes (left_by sha (normalize_action rule.action) rule.replacement value)
    ruled none true value = becomes (codes "[Filtered]")
    ruled none false value = scrubbed_below

    -- `_meta` and the safe fields stay, the first rule that names a field decides, and then the
    -- configuration.
    unfoldable pub fate : PiiProcessor rx → Bytes → Bytes → Value → Fate
    fate p key path v =
        if is_left rx p key path
        then stays
        else ruled (rule_for rx p.custom key path) (calls_for_mask p key path v)
            (string_value codec v)

    abbrev pub acted : Option Redaction → Bytes → Fate
    acted none value = scrubbed_below
    acted (some a) value =
        if equal a.action (codes "remove")
        then gone
        else becomes (replaced sha value (normalize_action a.action) a.replacement)

    acted-mask :
        (a : Redaction) (value : Bytes)
        → a.action ≡ codes "mask"
        → acted (some a) value ≡ becomes (codes "[Filtered]")
    unfolding replaced equal
    acted-mask a value h = rw (h, mask_again) refl

    acted-rule :
        (rule : PiiRule) (masks : Bool) (value : Bytes)
        → acted (some (of_rule rx rule)) value ≡ ruled (some rule) masks value
    acted-rule rule masks value =
        elim (Bool-cases (equal (normalize_action rule.action) (codes "remove"))) [
          | inl e ↦ rw e refl
          | inr e ↦
              rw
                (
                  e,
                  normalize_action-normalize_action rule.action,
                  left_by-replaced sha value (normalize_action rule.action) rule.replacement e,
                )
                refl
        ]

    pub fate-action_for :
        (p : PiiProcessor rx) (key path : Bytes) (v : Value)
        → is_left rx p key path ≡ false
        → fate p key path v ≡ acted (action_for rx p key path v) (string_value codec v)
    unfolding fate action_for
    fate-action_for p key path v e = elim (Option-cases (rule_for rx p.custom key path)) [
      | inr (rule, found) ↦
          rw (e, found) (sym (acted-rule rule (calls_for_mask p key path v) (string_value codec v)))
      | inl unruled ↦ elim (Option-cases (default_action rx p key path v)) [
        | inl quiet ↦ rw (e, unruled, quiet, default_action-none p key path v quiet) refl
        | inr (a, masks) ↦
            let (action, calls) = default_action-some p key path v a masks in
            rw (e, unruled, masks, calls) (sym (acted-mask a (string_value codec v) action))
      ]
    ]

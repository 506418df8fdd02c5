-- ===== src/Pii/Scrub.antt =====
-- scrubText, shouldSkip, actionFor, scrubValue and ScrubJSON of internal/sentryx/pii.go. A map of the
-- source is the list of its members, each key once. The second result of scrubValue, which is always
-- true, is left out.
use crocuta.Prelude.{
  equal_fold, Bool, true, false, ◌&&◌, ◌||◌, List, [], ◌∷◌, Option, none, some, if◌then◌else◌,
  Bytes, codes, equal, to_lower, trim_space, lookup,
}
use crocuta.Store.Digest.{Sha}
use crocuta.Pii.{
  PiiRule, PiiConfig, Regexps, PiiProcessor, CompiledPiiRule, Meta, new_pii_processor, redact,
  replace_all_func, selector_matches, join_selector_path, normalize_action, rule_type, has_none,
}

-- What encoding/json unmarshals into `any`. A number keeps the text it is written with.
mutual
  pub data Value : Type 0 where
    null : Value
    boolean : Bool → Value
    number : Bytes → Value
    text : Bytes → Value
    array : Elements → Value
    object : Members → Value

  pub data Elements : Type 0 where
    nil : Elements
    element : Value → Elements → Elements

  pub data Members : Type 0 where
    end : Members
    member : Bytes → Value → Members → Members

-- encoding/json, and fmt.Sprint on what is no string.
pub record Codec : Type 0 where
  pub unmarshal : Bytes → Option Value
  pub marshal : Value → Option Bytes
  pub sprint : Value → Bytes

abbrev pub string_value : Codec → Value → Bytes
string_value codec null = []
string_value codec (text s) = s
string_value codec v = codec.sprint v

abbrev pub is_present {ℓ} : {A : Type ℓ} → Option A → Bool
is_present none = false
is_present (some a) = true

-- What actionFor finds for a field.
pub record Redaction : Type 0 where
  pub action : Bytes
  pub reason : Bytes
  pub replacement : Bytes

abbrev pub mask : Bytes → Redaction
mask reason = record { action = codes "mask"; reason = reason; replacement = [] }

unfoldable pub is_listed : List Bytes → Bytes → Bytes → Bool
is_listed [] key path = false
is_listed (field ∷ fields) key path =
    (equal_fold (trim_space field) key || equal_fold (trim_space field) path)
    || is_listed fields key path

abbrev pub put_redacted : Redaction → Bytes → Bytes → Members → Members
put_redacted a key s rest =
    if equal a.action (codes "remove") then rest else member key (text s) rest

module _ (rx : Regexps) where
  unfoldable pub should_skip : PiiProcessor rx → Bytes → Bytes → Bool
  should_skip p key path =
      is_present (lookup (to_lower path) p.safe) || is_present (lookup (to_lower key) p.safe)

  unfoldable pub is_left : PiiProcessor rx → Bytes → Bytes → Bool
  is_left p key path = equal key (codes "_meta") || should_skip p key path

  -- The first of the rules that names the field.
  unfoldable pub rule_for : List (CompiledPiiRule rx) → Bytes → Bytes → Option PiiRule
  rule_for [] key path = none
  rule_for (r ∷ rules) key path =
      if selector_matches r.rule.selector path || selector_matches r.rule.selector (b'$' ∷ key)
      then some r.rule
      else rule_for rules key path

  abbrev pub holds_card : PiiProcessor rx → Value → Bool
  holds_card p (text s) = rx.match_string p.credit_card s
  holds_card p v = false

  -- The tests of the configuration, in their order.
  unfoldable pub default_action : PiiProcessor rx → Bytes → Bytes → Value → Option Redaction
  default_action p key path v =
      if p.config.scrub_ip_addresses && equal_fold key (codes "ip_address")
      then some (mask (codes "@ip"))
      else if p.config.scrub_defaults && rx.match_string p.key_pattern key
      then some (mask (codes "@password"))
      else if p.config.scrub_defaults && holds_card p v
      then some (mask (codes "@creditcard"))
      else if is_listed p.config.sensitive_fields key path
      then some (mask (codes "@sensitive"))
      else none

  abbrev pub of_rule : PiiRule → Redaction
  of_rule rule = record {
    action = normalize_action rule.action;
    reason = b'@' ∷ rule_type rule;
    replacement = rule.replacement;
  }

  abbrev pub or_default : Option PiiRule → Option Redaction → Option Redaction
  or_default none other = other
  or_default (some rule) other = some (of_rule rule)

  unfoldable pub action_for : PiiProcessor rx → Bytes → Bytes → Value → Option Redaction
  action_for p key path v = or_default (rule_for p.custom key path) (default_action p key path v)

  module _ (sha : Sha) where
    abbrev pub applies : CompiledPiiRule rx → Bytes → Bool
    applies r path = has_none r.rule.selector || selector_matches r.rule.selector path

    abbrev pub apply_rule :
        CompiledPiiRule rx → Option rx.Regexp → Bytes → Bytes → Meta → Bytes × Meta
    apply_rule r none path s meta = (s, meta)
    apply_rule r (some pattern) path s meta =
        if applies r path
        then replace_all_func
            (λ found meta.
              redact sha (b'@' ∷ rule_type r.rule) found r.rule.action r.rule.replacement path meta)
            (rx.pieces pattern s) meta
        else (s, meta)

    unfoldable pub apply_rules : List (CompiledPiiRule rx) → Bytes → Bytes → Meta → Bytes × Meta
    apply_rules [] path s meta = (s, meta)
    apply_rules (r ∷ rules) path s meta =
        let step = apply_rule r r.pattern path s meta in apply_rules rules path step.0 step.1

    -- The secrets and the card numbers of a text.
    abbrev pub scrub_defaults_of : PiiProcessor rx → Bytes → Bytes → Meta → Bytes × Meta
    scrub_defaults_of p path s meta =
        replace_all_func
          (λ found meta. redact sha (codes "@creditcard") found (codes "mask") [] path meta)
          (rx.pieces p.credit_card
            (rx.replace_all_string p.secret_pattern s (codes "$1[Filtered]")))
          meta

    unfoldable pub scrub_text : PiiProcessor rx → Bytes → Bytes → Meta → Bytes × Meta
    scrub_text p s path meta =
        let r = if p.config.scrub_defaults then scrub_defaults_of p path s meta else (s, meta) in
        apply_rules p.custom path r.0 r.1

    module _ (codec : Codec) where
      -- One member: what is done with it, how its value is scrubbed, and the members behind it.
      unfoldable pub scrub_member :
          Bytes
          → Bytes
          → Value
          → Bool
          → Option Redaction
          → (Meta → Value × Meta)
          → (Meta → Members × Meta)
          → Meta
          → Members × Meta
      scrub_member key path v true found below behind meta =
          let rest = behind meta in (member key v rest.0, rest.1)
      scrub_member key path v false none below behind meta =
          let r = below meta in let rest = behind r.1 in (member key r.0 rest.0, rest.1)
      scrub_member key path v false (some a) below behind meta =
          let r = redact sha a.reason (string_value codec v) a.action a.replacement path meta in
          let rest = behind r.1 in (put_redacted a key r.0 rest.0, rest.1)

      unfoldable mutual
        pub scrub_value : PiiProcessor rx → Bytes → Value → Meta → Value × Meta
        scrub_value p path null meta = (null, meta)
        scrub_value p path (boolean b) meta = (boolean b, meta)
        scrub_value p path (number s) meta = (number s, meta)
        scrub_value p path (text s) meta = let r = scrub_text p s path meta in (text r.0, r.1)
        scrub_value p path (array vs) meta =
            let r = scrub_elements p path vs meta in (array r.0, r.1)
        scrub_value p path (object ms) meta =
            let r = scrub_members p path ms meta in (object r.0, r.1)

        pub scrub_elements : PiiProcessor rx → Bytes → Elements → Meta → Elements × Meta
        scrub_elements p path nil meta = (nil, meta)
        scrub_elements p path (element v vs) meta =
            let r = scrub_value p path v meta in
            let rest = scrub_elements p path vs r.1 in (element r.0 rest.0, rest.1)

        pub scrub_members : PiiProcessor rx → Bytes → Members → Meta → Members × Meta
        scrub_members p path end meta = (end, meta)
        scrub_members p path (member key v ms) meta =
            scrub_member key (join_selector_path path key) v
              (is_left p key (join_selector_path path key))
              (action_for p key (join_selector_path path key) v)
              (scrub_value p (join_selector_path path key) v) (scrub_members p path ms) meta

      abbrev pub marshalled : Option Value → PiiProcessor rx → Option Bytes
      marshalled none p = none
      marshalled (some v) p = codec.marshal (scrub_value p [] v []).0

      unfoldable pub scrub_json : Bytes → PiiConfig → Option Bytes
      scrub_json payload config =
          if config.enabled
          then marshalled (codec.unmarshal payload) (new_pii_processor rx config)
          else some payload

-- ===== src/Pii.antt =====
-- internal/sentryx/pii.go: the scrubbing rules, the selectors, and what replaces a value. Go's regexp
-- package is a parameter, and so is SHA-256.
pub mod Scrub
pub mod Hidden
pub mod Clean
pub mod Meta
pub mod Reported
pub mod Envelopes
mod Tests
use crocuta.Prelude.{
  equal_fold, ℕ, Bool, true, false, not, ◌&&◌, ◌||◌, List, [], ◌∷◌, ◌++◌, Option, none, some,
  if◌then◌else◌, Bytes, codes, equal, to_lower, trim_space, split, has_prefix, has_suffix,
  trim_suffix, Dict, lookup, insert, map,
}
use crocuta.Store.Digest.{Sha, hex_encode}

pub record PiiRule : Type 0 where
  pub id : Bytes
  pub selector : Bytes
  pub type : Bytes
  pub action : Bytes
  pub pattern : Bytes
  pub replacement : Bytes

pub record PiiConfig : Type 0 where
  pub enabled : Bool
  pub scrub_defaults : Bool
  pub scrub_ip_addresses : Bool
  pub sensitive_fields : List Bytes
  pub safe_fields : List Bytes
  pub rules : List PiiRule

abbrev pub default_pii_config : PiiConfig
default_pii_config = record {
  enabled = true;
  scrub_defaults = true;
  scrub_ip_addresses = true;
  sensitive_fields = [];
  safe_fields = [];
  rules = [];
}

abbrev pub has_none {ℓ} : {A : Type ℓ} → List A → Bool
has_none [] = true
has_none (x ∷ xs) = false

-- The items that are not empty once their white space is off.
unfoldable pub kept_items : List Bytes → List Bytes
kept_items [] = []
kept_items (item ∷ items) =
    let rest = kept_items items in
    if has_none (trim_space item) then rest else trim_space item ∷ rest

unfoldable pub split_csv : Bytes → List Bytes
split_csv value = kept_items (split b',' value)

unfoldable pub normalized : PiiConfig → PiiConfig
normalized c =
    if not c.enabled
    then c
    else if not c.scrub_defaults
        && not c.scrub_ip_addresses
        && has_none c.sensitive_fields
        && has_none c.rules
    then record c { scrub_defaults = true; scrub_ip_addresses = true }
    else c

-- What a regular expression finds in a text: the stretches outside its matches, and the matches.
pub data Piece : Type 0 where
  outside found : Bytes → Piece

-- Go's package regexp.
pub record Regexps : Type 1 where
  pub Regexp : Type 0
  pub compile : Bytes → Option Regexp
  pub must_compile : Bytes → Regexp
  pub match_string : Regexp → Bytes → Bool
  -- ReplaceAllString: the expression, the text, the template
  pub replace_all_string : Regexp → Bytes → Bytes → Bytes
  -- the text as its matches divide it
  pub pieces : Regexp → Bytes → List Piece

-- ReplaceAllStringFunc, with a function that writes to a state.
unfoldable pub replace_all_func {ℓ} :
    {S : Type ℓ} → (Bytes → S → Bytes × S) → List Piece → S → Bytes × S
replace_all_func f [] s = ([], s)
replace_all_func f (outside t ∷ ps) s = let rest = replace_all_func f ps s in (t ++ rest.0, rest.1)
replace_all_func f (found t ∷ ps) s =
    let r = f t s in let rest = replace_all_func f ps r.1 in (r.0 ++ rest.0, rest.1)

unfoldable pub selector_matches : Bytes → Bytes → Bool
selector_matches selector path =
    let s = trim_space (to_lower selector) in
    let p = trim_space (to_lower path) in
    if has_none s
    then false
    else if equal s p
    then true
    else if has_suffix s (codes ".*")
    then has_prefix p (trim_suffix s (codes "*"))
    else false

unfoldable pub join_selector_path : Bytes → Bytes → Bytes
join_selector_path [] key =
    if equal key (codes "message") || equal key (codes "title") then b'$' ∷ key else key
join_selector_path (c ∷ parent) key = (c ∷ parent) ++ (b'.' ∷ key)

abbrev pub is_rule_action : Bytes → Bool
is_rule_action action =
    equal action (codes "remove") || equal action (codes "hash") || equal action (codes "replace")

unfoldable pub normalize_action : Bytes → Bytes
normalize_action action =
    if is_rule_action (to_lower (trim_space action))
    then to_lower (trim_space action)
    else codes "mask"

unfoldable pub rule_type : PiiRule → Bytes
rule_type rule = if has_none rule.type then codes "sensitive" else to_lower rule.type

-- The reasons by the path of the field: piiState.
abbrev pub Meta : Type 0
Meta = Dict Bytes

abbrev pub noted : Bytes → Bytes → Meta → Meta
noted path reason meta = if has_none path then meta else insert path reason meta

-- What stands for a value, by the action.
unfoldable pub replaced : Sha → Bytes → Bytes → Bytes → Bytes
replaced sha value action replacement =
    if equal action (codes "remove")
    then []
    else if equal action (codes "hash")
    then codes "sha256:" ++ hex_encode (sha.sum256 value)
    else if equal action (codes "replace")
    then (if has_none replacement then codes "[Filtered]" else replacement)
    else codes "[Filtered]"

unfoldable pub redact : Sha → Bytes → Bytes → Bytes → Bytes → Bytes → Meta → Bytes × Meta
redact sha reason value action replacement path meta =
    (replaced sha value (normalize_action action) replacement, noted path reason meta)

module _ (rx : Regexps) where
  pub record CompiledPiiRule : Type 0 where
    pub rule : PiiRule
    pub pattern : Option rx.Regexp

  pub record PiiProcessor : Type 0 where
    pub config : PiiConfig
    pub key_pattern : rx.Regexp
    pub secret_pattern : rx.Regexp
    pub credit_card : rx.Regexp
    pub custom : List CompiledPiiRule
    pub safe : Dict {0} Unit

  unfoldable pub safe_set : List Bytes → Dict {0} Unit → Dict {0} Unit
  safe_set [] safe = safe
  safe_set (field ∷ fields) safe = safe_set fields (insert (to_lower (trim_space field)) tt safe)

  abbrev pub compiled : PiiRule → CompiledPiiRule
  compiled rule = record {
    rule = rule;
    pattern = if has_none rule.pattern then none else rx.compile rule.pattern;
  }

  unfoldable pub new_pii_processor : PiiConfig → PiiProcessor
  new_pii_processor c = record {
    config = normalized c;
    key_pattern = rx.must_compile (
        codes
          "(?i)(password|passwd|secret|token|authorization|cookie|api[_-]?key|private[_-]?key)");
    secret_pattern = rx.must_compile (codes "(?i)(bearer\\s+|token=|password=)[^\\s&]+");
    credit_card = rx.must_compile (codes "(?i)\\b(?:\\d[ -]*?){13,19}\\b");
    custom = map compiled (normalized c).rules;
    safe = safe_set (normalized c).safe_fields [];
  }

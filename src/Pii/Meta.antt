-- ===== src/Pii/Meta.antt =====
-- The paths in the metadata of scrubValue of internal/sentryx/pii.go: piiState.
use crocuta.Prelude.{
  ◌≡◌, Bool, true, false, List, [], ◌∷◌, Option, none, some, Bytes, codes, lookup, lookup-insert,
  Bool-cases, inl, inr, arith,
}
use crocuta.Store.Digest.{Sha}
use crocuta.Pii.{
  Regexps, PiiProcessor, CompiledPiiRule, Piece, outside, found, Meta, redact, replace_all_func,
  noted, join_selector_path,
}
use crocuta.Pii.Scrub.{
  Value, null, boolean, number, text, array, object, Elements, nil, element, Members, end, member,
  Codec, Redaction, string_value, is_present, is_left, action_for, applies, apply_rule, apply_rules,
  scrub_defaults_of, scrub_text, scrub_value, scrub_member, scrub_elements, scrub_members,
}

abbrev pub names_path : Meta → Bytes → Bool
names_path meta path = is_present (lookup path meta)

-- No path of the first metadata is missing in the second.
abbrev pub Grows : Meta → Meta → Type 0
Grows m n = (path : Bytes) → names_path m path ≡ true → names_path n path ≡ true

noted-Grows : (path reason : Bytes) (meta : Meta) → Grows meta (noted path reason meta)
noted-Grows [] reason meta = λ k h. h
noted-Grows (c ∷ path) reason meta = λ k h. ground (arith, lookup-insert (c ∷ path) k reason meta)

pub redact-Grows :
    (sha : Sha) (reason value action replacement path : Bytes) (meta : Meta)
    → Grows meta (redact sha reason value action replacement path meta).1
unfolding redact
redact-Grows sha reason value action replacement path meta = noted-Grows path reason meta

replace_all_func-Grows :
    (f : Bytes → Meta → Bytes × Meta) (ps : List Piece) (meta : Meta)
    → ((s : Bytes) (m : Meta) → Grows m (f s m).1)
    → Grows meta (replace_all_func f ps meta).1
unfolding replace_all_func
replace_all_func-Grows f [] meta g = λ k h. h
replace_all_func-Grows f (outside t ∷ ps) meta g = replace_all_func-Grows f ps meta g
replace_all_func-Grows f (found t ∷ ps) meta g =
    λ k h. replace_all_func-Grows f ps (f t meta).1 g k (g t meta k h)

module _ (rx : Regexps) (sha : Sha) where
  apply_rule-Grows :
      (r : CompiledPiiRule rx) (pattern : Option rx.Regexp) (path s : Bytes) (meta : Meta)
      → Grows meta (apply_rule rx sha r pattern path s meta).1
  apply_rule-Grows r none path s meta = λ k h. h
  apply_rule-Grows r (some pattern) path s meta = elim (Bool-cases (applies rx sha r path)) [
    | inl e ↦ rw e (
        replace_all_func-Grows _ (rx.pieces pattern s) meta
          (λ t m. redact-Grows sha _ t _ _ path m))
    | inr e ↦ rw e (λ k h. h)
  ]

  apply_rules-Grows :
      (rules : List (CompiledPiiRule rx)) (path s : Bytes) (meta : Meta)
      → Grows meta (apply_rules rx sha rules path s meta).1
  unfolding apply_rules
  apply_rules-Grows [] path s meta = λ k h. h
  apply_rules-Grows (r ∷ rules) path s meta =
      let step : Bytes × Meta = apply_rule rx sha r r.pattern path s meta in
      λ k h.
        apply_rules-Grows rules path step.0 step.1 k (apply_rule-Grows r r.pattern path s meta k h)

  scrub_text-Grows :
      (p : PiiProcessor rx) (s path : Bytes) (meta : Meta)
      → Grows meta (scrub_text rx sha p s path meta).1
  unfolding scrub_text
  scrub_text-Grows p s path meta = elim (Bool-cases p.config.scrub_defaults) [
    | inl e ↦
        let r : Bytes × Meta = scrub_defaults_of rx sha p path s meta in
        rw e (λ k h. apply_rules-Grows p.custom path r.0 r.1 k (
          replace_all_func-Grows _
            (rx.pieces p.credit_card
              (rx.replace_all_string p.secret_pattern s (codes "$1[Filtered]")))
            meta (λ t m. redact-Grows sha _ t _ _ path m) k h))
    | inr e ↦ rw e (apply_rules-Grows p.custom path s meta)
  ]

  module _ (codec : Codec) where
    scrub_member-Grows :
        (key path : Bytes) (v : Value) (left : Bool) (a : Option Redaction)
        (below : Meta → Value × Meta) (behind : Meta → Members × Meta) (meta : Meta)
        → ((m : Meta) → Grows m (below m).1)
        → ((m : Meta) → Grows m (behind m).1)
        → Grows meta (scrub_member rx sha codec key path v left a below behind meta).1
    unfolding scrub_member
    scrub_member-Grows key path v true a below behind meta g h = h meta
    scrub_member-Grows key path v false none below behind meta g h =
        λ k e. h (below meta).1 k (g meta k e)
    scrub_member-Grows key path v false (some a) below behind meta g h = λ k e.
        h _ k
          (redact-Grows sha a.reason (string_value codec v) a.action a.replacement path meta k e)

    mutual
      unfolding scrub_value

      pub scrub_value-Grows :
          (p : PiiProcessor rx) (path : Bytes) (v : Value) (meta : Meta)
          → Grows meta (scrub_value rx sha codec p path v meta).1
      scrub_value-Grows p path null meta = λ k h. h
      scrub_value-Grows p path (boolean b) meta = λ k h. h
      scrub_value-Grows p path (number s) meta = λ k h. h
      scrub_value-Grows p path (text s) meta = scrub_text-Grows p s path meta
      scrub_value-Grows p path (array vs) meta = scrub_elements-Grows p path vs meta
      scrub_value-Grows p path (object ms) meta = scrub_members-Grows p path ms meta

      pub scrub_elements-Grows :
          (p : PiiProcessor rx) (path : Bytes) (vs : Elements) (meta : Meta)
          → Grows meta (scrub_elements rx sha codec p path vs meta).1
      scrub_elements-Grows p path nil meta = λ k h. h
      scrub_elements-Grows p path (element v vs) meta = λ k h.
          scrub_elements-Grows p path vs (scrub_value rx sha codec p path v meta).1 k
            (scrub_value-Grows p path v meta k h)

      pub scrub_members-Grows :
          (p : PiiProcessor rx) (path : Bytes) (ms : Members) (meta : Meta)
          → Grows meta (scrub_members rx sha codec p path ms meta).1
      scrub_members-Grows p path end meta = λ k h. h
      scrub_members-Grows p path (member key v ms) meta =
          scrub_member-Grows key (join_selector_path path key) v
            (is_left rx p key (join_selector_path path key))
            (action_for rx p key (join_selector_path path key) v)
            (scrub_value rx sha codec p (join_selector_path path key) v)
            (scrub_members rx sha codec p path ms) meta
            (scrub_value-Grows p (join_selector_path path key) v) (scrub_members-Grows p path ms)

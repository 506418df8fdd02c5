-- ===== src/SourceMap/Parse.antt =====
-- parseSourceMap of internal/sentryx/sourcemap.go, behind encoding/json.
use crocuta.Prelude.{
  ◌+◌, ◌≡◌, ◌≢◌, refl, ap, Bool, true, false, not, ◌||◌, List, Option, none, some, if◌then◌else◌,
  Bytes, equal, equal_iff, length, count_byte, [], Bool-cases, inl, inr, arith, ◌==◌,
}
use crocuta.Prelude.Int.{ℤ, pos, negsuc}
use crocuta.SourceMap.Mappings.{SourceMapping, decode_mappings}
use crocuta.SourceMap.Mappings.Lines.{length-decode_mappings}
use crocuta.SourceMap.Position.{SourceMap}

-- What the JSON text of a source map is unmarshalled into.
pub record Wire : Type 0 where
  pub version : ℤ
  pub debug_id : Bytes
  pub x_debug_id : Bytes
  pub file : Bytes
  pub source_root : Bytes
  pub sources : List Bytes
  pub sources_content : List Bytes
  pub names : List Bytes
  pub mappings : Bytes

pub data ParseError : Type 0 where
  invalid_json unsupported_map invalid_segment : ParseError

pub data ParsedMap : Type 0 where
  parsed : SourceMap → ParsedMap
  failed : ParseError → ParsedMap

abbrev pub is_three : ℤ → Bool
is_three (pos n) = n == 3
is_three (negsuc n) = false

abbrev pub with_lines : Wire → Option (List (List SourceMapping)) → ParsedMap
with_lines wire none = failed invalid_segment
with_lines wire (some lines) = parsed record {
  version = wire.version;
  debug_id = if equal wire.debug_id [] then wire.x_debug_id else wire.debug_id;
  file = wire.file;
  source_root = wire.source_root;
  sources = wire.sources;
  sources_content = wire.sources_content;
  names = wire.names;
  lines = lines;
}

-- From the outcome of Unmarshal.
unfoldable pub parse_source_map : Option Wire → ParsedMap
parse_source_map none = failed invalid_json
parse_source_map (some wire) =
    if not (is_three wire.version) || equal wire.mappings []
    then failed unsupported_map
    else with_lines wire (decode_mappings wire.mappings)

with_lines-parsed :
    (wire : Wire) (found : Option (List (List SourceMapping))) (m : SourceMap)
    → with_lines wire found ≡ parsed m
    → found ≡ some m.lines
with_lines-parsed wire none m e = cc
with_lines-parsed wire (some lines) m e = ap (λ (n : SourceMap). some n.lines) (parsed-injective e)
  where
    parsed_of : SourceMap → ParsedMap → SourceMap
    parsed_of d (parsed n) = n
    parsed_of d (failed f) = d

    parsed-injective : {a b : SourceMap} → parsed a ≡ parsed b → a ≡ b
    parsed-injective {a} e = ap (parsed_of a) e

failed-ne-parsed : {f : ParseError} {m : SourceMap} → failed f ≢ parsed m
failed-ne-parsed e = cc

or-false : (a b : Bool) → (not a || b) ≡ false → (a ≡ true) × (b ≡ false)
or-false a b h = ground arith

not-empty : (s : Bytes) → equal s [] ≡ false → s ≢ []
not-empty s h e = ground (arith, equal_iff s [])

-- A source map that is accepted was unmarshalled, is of version 3 and has mappings, and it has one line
-- for each `;` in them, and one more.
pub parse_source_map-parsed :
    (found : Option Wire) (m : SourceMap)
    → parse_source_map found ≡ parsed m
    → (wire : Wire) × (found ≡ some wire)
      × (is_three wire.version ≡ true)
      × (wire.mappings ≢ [])
      × (decode_mappings wire.mappings ≡ some m.lines)
      × (length m.lines ≡ count_byte b';' wire.mappings + 1)
unfolding parse_source_map
parse_source_map-parsed none m e = absurd (failed-ne-parsed e)
parse_source_map-parsed (some wire) m e =
    elim (Bool-cases (not (is_three wire.version) || equal wire.mappings [])) [
      | inl bad ↦ absurd (failed-ne-parsed (rw bad at e))
      | inr good ↦
          let lines : decode_mappings wire.mappings ≡ some m.lines =
            with_lines-parsed wire (decode_mappings wire.mappings) m (rw good at e) in
          (
            wire,
            refl,
            (or-false (is_three wire.version) (equal wire.mappings []) good).0,
            not-empty wire.mappings
                (or-false (is_three wire.version) (equal wire.mappings []) good).1,
            lines,
            length-decode_mappings wire.mappings lines,
          )
    ]

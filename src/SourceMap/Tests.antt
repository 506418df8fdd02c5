-- ===== src/SourceMap/Tests.antt =====
-- Source maps at concrete inputs.
use crocuta.Prelude.{
  ℕ, ◌+◌, ◌≡◌, ◌≢◌, refl, true, List, [], ◌∷◌, none, some, Bytes, codes, arith, length, count_byte,
  filter_by, equal, split, trim_suffix,
}
use crocuta.Prelude.Int.{ℤ, pos, negsuc, wrap64}
use crocuta.SourceMap.Vlq.{decode_vlq, ok, err, truncated, invalid_character, index_of, magnitude}
use crocuta.SourceMap.Vlq.RoundTrip.{encode, decode_vlq-encode}
use crocuta.SourceMap.Parse.{Wire, parse_source_map, parsed, is_three, parse_source_map-parsed}
use crocuta.SourceMap.Mappings.{SourceMapping, decode_mappings}
use crocuta.SourceMap.Position.{SourceMap, StackFrame, best_mapping, with_context, map_position}
use crocuta.SourceMap.Position.Best.{starts_by, last_or, best_mapping-last}
use crocuta.SourceMap.Position.Context.{IsWindow, with_context-IsWindow}

decoded : decode_vlq (codes "AAgBC") ≡ ok (pos 0 ∷ pos 0 ∷ pos 16 ∷ pos 1 ∷ [])
unfolding decode_vlq index_of magnitude
decoded = refl

refused : decode_vlq (codes "AAg") ≡ err truncated
unfolding decode_vlq index_of magnitude
refused = refl

foreign : decode_vlq (codes "A A") ≡ err invalid_character
unfolding decode_vlq index_of magnitude
foreign = refl

abbrev mapping : ℕ → ℕ → ℕ → ℤ → SourceMapping
mapping column line original_column name = record {
  generated_column = pos column;
  source_index = pos 0;
  original_line = pos line;
  original_column = pos original_column;
  name_index = name;
}

abbrev first_line : List SourceMapping
first_line = mapping 0 0 0 (negsuc 0) ∷ mapping 9 1 4 (pos 0) ∷ []

abbrev mappings : Bytes
mappings = codes "AAAA,SACIA;;AACA"

decoded_mappings :
    decode_mappings mappings ≡ some (first_line ∷ [] ∷ (mapping 0 2 4 (negsuc 0) ∷ []) ∷ [])
unfolding decode_mappings decode_vlq index_of magnitude split equal
decoded_mappings = refl

abbrev source : List Bytes
source = codes "let a" ∷ codes "run(a)" ∷ codes "end" ∷ []

abbrev example_map : SourceMap
example_map = record {
  version = pos 3;
  debug_id = [];
  file = codes "app.js";
  source_root = codes "src/";
  sources = codes "app.ts" ∷ [];
  sources_content = codes "let a\r\nrun(a)\nend" ∷ [];
  names = codes "run" ∷ [];
  lines = first_line ∷ [];
}

abbrev blank : StackFrame
blank = record {
  filename = codes "src/app.ts";
  abs_path = [];
  function = codes "run";
  lineno = pos 2;
  colno = pos 4;
  in_app = true;
  context_line = [];
  pre_context = [];
  post_context = [];
}

mapped :
    map_position example_map (pos 1) (pos 12)
    ≡ some (record blank {
      context_line = codes "run(a)";
      pre_context = codes "let a" ∷ [];
      post_context = codes "end" ∷ [];
    })
unfolding map_position equal split trim_suffix wrap64
mapped = refl

unmapped : map_position example_map (pos 0) (pos 12) ≡ none
unfolding map_position
unmapped = refl

decode_vlq-encode_example :
    decode_vlq (encode (pos 5 ∷ negsuc 1000 ∷ [])) ≡ ok (pos 5 ∷ negsuc 1000 ∷ [])
decode_vlq-encode_example = decode_vlq-encode (pos 5 ∷ negsuc 1000 ∷ []) (omega arith)

best_mapping-last_example :
    best_mapping (pos 12) none first_line ≡ last_or none (filter_by (starts_by (pos 12)) first_line)
best_mapping-last_example = best_mapping-last (pos 12) first_line ((refl, tt), (tt, tt))

with_context-IsWindow_example : IsWindow source 1 (with_context blank source (pos 1))
with_context-IsWindow_example = with_context-IsWindow blank source 1 refl

abbrev small_wire : Wire
small_wire = record {
  version = pos 3;
  debug_id = [];
  x_debug_id = codes "d";
  file = codes "app.js";
  source_root = [];
  sources = codes "app.ts" ∷ [];
  sources_content = [];
  names = [];
  mappings = codes ";";
}

abbrev small_map : SourceMap
small_map = record {
  version = pos 3;
  debug_id = codes "d";
  file = codes "app.js";
  source_root = [];
  sources = codes "app.ts" ∷ [];
  sources_content = [];
  names = [];
  lines = [] ∷ [] ∷ [];
}

small_wire-parsed : parse_source_map (some small_wire) ≡ parsed small_map
unfolding parse_source_map decode_mappings equal split
small_wire-parsed = refl

parse_source_map-parsed_example :
    (wire : Wire) × (some small_wire ≡ some wire)
    × (is_three wire.version ≡ true)
    × (wire.mappings ≢ [])
    × (decode_mappings wire.mappings ≡ some small_map.lines)
    × (length small_map.lines ≡ count_byte b';' wire.mappings + 1)
parse_source_map-parsed_example =
    parse_source_map-parsed (some small_wire) small_map small_wire-parsed

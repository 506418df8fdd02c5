-- ===== src/SourceMap/Position.antt =====
-- SourceMap.Map of internal/sentryx/sourcemap.go: from a generated position to a frame.
pub mod Best
pub mod Context
use crocuta.Prelude.{
  ℕ, ◌+◌, ◌-◌, Bool, true, false, not, ◌&&◌, List, [], ◌∷◌, ◌++◌, Option, none, some, ◌>>=◌, ltb,
  leb, if◌then◌else◌, Bytes, codes, equal, split, trim_suffix, length, take, drop, get_elem?,
}
use crocuta.Prelude.Int.{ℤ, pos, negsuc, ◌+ℤ◌, wrap64, add64, pos_part, neg_part, ltb_ℤ}
use crocuta.SourceMap.Mappings.{SourceMapping}

pub record SourceMap : Type 0 where
  pub version : ℤ
  pub debug_id : Bytes
  pub file : Bytes
  pub source_root : Bytes
  pub sources : List Bytes
  pub sources_content : List Bytes
  pub names : List Bytes
  pub lines : List (List SourceMapping)

pub record StackFrame : Type 0 where
  pub filename : Bytes
  pub abs_path : Bytes
  pub function : Bytes
  pub lineno : ℤ
  pub colno : ℤ
  pub in_app : Bool
  pub context_line : Bytes
  pub pre_context : List Bytes
  pub post_context : List Bytes

-- list[i] behind the test that i is in range
abbrev pub at {ℓ} : {A : Type ℓ} → List A → ℤ → Option A
at xs (pos i) = get_elem? xs i
at xs (negsuc i) = none

-- The loop over a line, up to the first mapping that starts behind the column.
unfoldable pub best_mapping : ℤ → Option SourceMapping → List SourceMapping → Option SourceMapping
best_mapping column best [] = best
best_mapping column best (mapping ∷ rest) =
    let further = best_mapping column (some mapping) rest in
    if ltb_ℤ column mapping.generated_column then best else further

-- strings.ReplaceAll(text, "\r\n", "\n")
unfoldable pub replace_crlf : Bytes → Bytes
replace_crlf [] = []
replace_crlf (c ∷ []) = c ∷ []
replace_crlf (c ∷ d ∷ rest) =
    let short = d ∷ replace_crlf rest in
    let long = c ∷ replace_crlf (d ∷ rest) in
    if equal (c ∷ d ∷ []) (b'\r' ∷ b'\n' ∷ []) then short else long

-- The lines around a line of the source text, five on each side where there are so many.
unfoldable pub with_context : StackFrame → List Bytes → ℤ → StackFrame
with_context frame source_lines (negsuc n) = frame
with_context frame source_lines (pos target_line) = elim (get_elem? source_lines target_line) [
  | none ↦ frame
  | some context_line ↦
      let pre_start = target_line - 5 in
      let limit = target_line + 1 + 5 in
      let post_end = if ltb (length source_lines) limit then length source_lines else limit in
      record frame {
        context_line = context_line;
        pre_context = drop pre_start (take target_line source_lines);
        post_context = drop (target_line + 1) (take post_end source_lines);
      }
]

abbrev pub source_content : SourceMap → ℤ → Bytes
source_content m index = elim (at m.sources_content index) [ none ↦ [] | some text ↦ text ]

-- `value` with the directory in front of it, if there is one.
abbrev pub rooted : Bytes → Bytes → Bytes
rooted source_root original =
    if not (equal source_root [])
    then trim_suffix source_root (codes "/") ++ (codes "/" ++ original)
    else original

abbrev pub name_of : Option Bytes → Bytes
name_of none = []
name_of (some name) = name

unfoldable pub frame_of : SourceMap → SourceMapping → Bytes → StackFrame
unfolding with_context replace_crlf
frame_of m best original =
    let frame : StackFrame = record {
      filename = rooted m.source_root original;
      abs_path = [];
      function = name_of (at m.names best.name_index);
      lineno = add64 best.original_line (pos 1);
      colno = best.original_column;
      in_app = true;
      context_line = [];
      pre_context = [];
      post_context = [];
    } in
    let text = source_content m best.source_index in
    if not (equal text [])
    then with_context frame (split b'\n' (replace_crlf text)) best.original_line
    else frame

unfoldable pub map_position : SourceMap → ℤ → ℤ → Option StackFrame
unfolding best_mapping frame_of ◌+ℤ◌
map_position m line column = do
  mappings ← at m.lines (line +ℤ negsuc 0)
  best ← best_mapping column none mappings
  original ← at m.sources best.source_index
  some (frame_of m best original)

-- ===== src/SourceMap/Mappings.antt =====
-- decodeMappings of internal/sentryx/sourcemap.go. The slice that grows by one line for each part,
-- and loses its last line at the end, is the list of the parts' lines.
pub mod Lines
use crocuta.Prelude.{
  ℕ, Bool, not, List, [], ◌∷◌, Option, none, some, ◌>>=◌, if◌then◌else◌, Bytes, equal, split,
}
use crocuta.Prelude.Int.{ℤ, pos, negsuc, ◌+ℤ◌, wrap64, add64}
use crocuta.SourceMap.Vlq.{Decoded, ok, err, decode_vlq}

pub record SourceMapping : Type 0 where
  pub generated_column : ℤ
  pub source_index : ℤ
  pub original_line : ℤ
  pub original_column : ℤ
  pub name_index : ℤ

-- The variables that run on from segment to segment.
pub record Previous : Type 0 where
  pub source : ℤ
  pub line : ℤ
  pub column : ℤ
  pub name : ℤ

abbrev pub start : Previous
start = record { source = pos 0; line = pos 0; column = pos 0; name = pos 0 }

-- The values of a segment; fewer than four are an error.
unfoldable pub apply_values : Previous → ℤ → List ℤ → Option (Previous × SourceMapping)
unfolding wrap64 ◌+ℤ◌
apply_values p generated_column (a ∷ b ∷ c ∷ d ∷ []) =
    let q = record p {
      source = add64 p.source b;
      line = add64 p.line c;
      column = add64 p.column d;
    } in
    some (
      q,
      record {
        generated_column = add64 generated_column a;
        source_index = q.source;
        original_line = q.line;
        original_column = q.column;
        name_index = negsuc 0;
      },
    )
apply_values p generated_column (a ∷ b ∷ c ∷ d ∷ e ∷ _) =
    let q : Previous = record {
      source = add64 p.source b;
      line = add64 p.line c;
      column = add64 p.column d;
      name = add64 p.name e;
    } in
    some (
      q,
      record {
        generated_column = add64 generated_column a;
        source_index = q.source;
        original_line = q.line;
        original_column = q.column;
        name_index = q.name;
      },
    )
apply_values p generated_column _ = none

abbrev pub values_of : Decoded → Option (List ℤ)
values_of (ok values) = some values
values_of (err e) = none

unfoldable pub decode_segment : Previous → ℤ → Bytes → Option (Previous × SourceMapping)
decode_segment p generated_column segment = do
  values ← values_of (decode_vlq segment)
  apply_values p generated_column values

unfoldable pub decode_segments : Previous → ℤ → List Bytes → Option (Previous × List SourceMapping)
decode_segments p generated_column [] = some (p, [])
decode_segments p generated_column (segment ∷ rest) = do
  (q, mapping) ← decode_segment p generated_column segment
  (last, mappings) ← decode_segments q mapping.generated_column rest
  some (last, mapping ∷ mappings)

unfoldable pub decode_line : Previous → Bytes → Option (Previous × List SourceMapping)
decode_line p line_value =
    if not (equal line_value [])
    then decode_segments p (pos 0) (split b',' line_value)
    else some (p, [])

unfoldable pub decode_lines : Previous → List Bytes → Option (List (List SourceMapping))
decode_lines p [] = some []
decode_lines p (line_value ∷ rest) = do
  (q, line) ← decode_line p line_value
  lines ← decode_lines q rest
  some (line ∷ lines)

unfoldable pub decode_mappings : Bytes → Option (List (List SourceMapping))
unfolding decode_lines decode_line decode_segments decode_segment apply_values
decode_mappings value = decode_lines start (split b';' value)

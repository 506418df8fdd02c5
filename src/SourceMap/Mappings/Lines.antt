-- ===== src/SourceMap/Mappings/Lines.antt =====
-- The shape of decoded mappings.
use crocuta.Prelude.{
  ◌+◌, ◌≡◌, ◌∙◌, List, [], ◌∷◌, some, >>=-eq-some, Bytes, length, split, length-split, count_byte,
  arith,
}
use crocuta.SourceMap.Mappings.{
  Previous, SourceMapping, start, decode_line, decode_lines, decode_mappings,
}

length-decode_lines :
    (p : Previous) (values : List Bytes) {lines : List (List SourceMapping)}
    → decode_lines p values ≡ some lines
    → length lines ≡ length values
unfolding decode_lines
length-decode_lines p [] e = ground arith
length-decode_lines p (v ∷ vs) {lines} e =
    let ((q, line), _, later) = >>=-eq-some (decode_line p v) _ e in
    let (rest, found, last) = >>=-eq-some (decode_lines q vs) _ later in
    ground (arith, length-decode_lines q vs found)

-- Accepted mappings have a line for each `;`, and one more.
pub length-decode_mappings :
    (value : Bytes) {lines : List (List SourceMapping)}
    → decode_mappings value ≡ some lines
    → length lines ≡ count_byte b';' value + 1
unfolding decode_mappings
length-decode_mappings value e =
    length-decode_lines start (split b';' value) e ∙ length-split b';' value

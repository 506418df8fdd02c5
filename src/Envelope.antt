-- ===== src/Envelope.antt =====
-- parseEnvelope and nextLine of internal/sentryx/app.go, and the item policy of item_policy.go. The part
-- body[index:] of the source is the list of the bytes that are left. encoding/json is a parameter.
pub mod Fuel
pub mod RoundTrip
pub mod Policy
pub mod Examples
mod Tests
use crocuta.Prelude.{
  ℕ, zero, suc, ◌+◌, ◌-◌, ◌≤◌, ◌≡◌, Bool, true, false, not, ◌&&◌, ◌||◌, List, [], ◌∷◌, ◌++◌, Option,
  none, some, if◌then◌else◌, ltb, ◌==◌, Bytes, codes, equal, cut, trim_suffix, trim_space, is_space,
  length, take, drop, All,
}
use crocuta.Prelude.Int.{ℤ, pos, pos_part}

-- The fields that an item's header is unmarshalled into.
pub record Header : Type 0 where
  pub type : Bytes
  pub length : ℤ
  pub event_id : Bytes
  pub filename : Bytes
  pub content_type : Bytes

-- A text without a line feed.
abbrev pub IsLine : Bytes → Type 0
IsLine s = All (λ c. (c == b'\n') ≡ false) s

-- len(bytes.TrimSpace(s)) == 0
unfoldable pub is_blank : Bytes → Bool
is_blank [] = true
is_blank (c ∷ cs) = is_space c && is_blank cs

-- encoding/json, as the parser and the policy use it: `Raw` is map[string]any.
pub record Json : Type 1 where
  pub Raw : Type 0
  -- Unmarshal into the map
  pub read : Bytes → Option Raw
  -- Unmarshal of the same line into the struct
  pub header_of : Bytes → Option Header
  -- Decode of the first value, and InputOffset
  pub decode_value : Bytes → Option (Bytes × ℕ)
  -- a copy of the map with its `type` and `length` set
  pub renewed : Raw → Bytes → ℕ → Raw
  -- Marshal
  pub write : Raw → Bytes
  -- raw["session_id"], where it is a string
  pub session_id : Raw → Option Bytes
  pub read-write : (raw : Raw) → read (write raw) ≡ some raw
  -- an object is written in one line, from brace to brace
  pub write-IsLine : (raw : Raw) → IsLine (write raw)
  pub write-brace : (raw : Raw) → (inner : Bytes) × (write raw ≡ inner ++ (b'}' ∷ []))
  -- the keys in small letters are written last, so that the struct takes them
  pub header_of-renewed :
      (raw : Raw) (h : Header) (type : Bytes) (n : ℕ)
      → header_of (write raw) ≡ some h
      → header_of (write (renewed raw type n)) ≡ some (record h { type = type; length = pos n })

pub data EnvelopeError : Type 0 where
  empty_envelope unexpected_eof invalid_item_header truncated_item invalid_value : EnvelopeError

pub data Parsed (A : Type 0) : Type 0 where
  ok : A → Parsed A
  err : EnvelopeError → Parsed A

-- bytes.TrimSuffix(line, "\r") of the line, and what is behind the line feed
abbrev pub line_of : Bytes → Option (Bytes × Bytes) → Bytes × Bytes
line_of rest none = (trim_suffix rest (b'\r' ∷ []), [])
line_of rest (some (line, next)) = (trim_suffix line (b'\r' ∷ []), next)

unfoldable pub next_line : Bytes → Parsed (Bytes × Bytes)
next_line [] = err unexpected_eof
next_line (c ∷ cs) = ok (line_of (c ∷ cs) (cut b'\n' (c ∷ cs)))

-- if index < len(body) && body[index] == '\n' { index++ }
abbrev pub skip_newline : Bytes → Bytes
skip_newline [] = []
skip_newline (c ∷ cs) = if c == b'\n' then cs else c ∷ cs

module _ (json : Json) where
  pub record EnvelopeItem : Type 0 where
    pub type : Bytes
    pub payload : Bytes
    pub event_id : Bytes
    pub filename : Bytes
    pub content_type : Bytes
    pub header : json.Raw

  abbrev pub item_of : json.Raw → Header → Bytes → EnvelopeItem
  item_of raw h payload = record {
    type = h.type;
    payload = payload;
    event_id = h.event_id;
    filename = h.filename;
    content_type = h.content_type;
    header = raw;
  }

  abbrev pub onto_items : EnvelopeItem → Parsed (List EnvelopeItem) → Parsed (List EnvelopeItem)
  onto_items item (ok items) = ok (item ∷ items)
  onto_items item (err e) = err e

  -- The two ways to find a payload without a length: one JSON value, or all that is left.
  unfoldable pub parse_unsized :
      (Bytes → Parsed (List EnvelopeItem)) → json.Raw → Header → Bytes → Parsed (List EnvelopeItem)
  parse_unsized continue raw h rest =
      if equal h.type (codes "event") || equal h.type (codes "error")
      then elim (json.decode_value rest) [
        | none ↦ err invalid_value
        | some (payload, consumed) ↦
            onto_items (item_of raw h payload) (continue (skip_newline (drop consumed rest)))
      ]
      else ok (item_of raw h (trim_space rest) ∷ [])

  unfoldable pub parse_payload :
      (Bytes → Parsed (List EnvelopeItem)) → json.Raw → Header → Bytes → Parsed (List EnvelopeItem)
  parse_payload continue raw h rest =
      let size = pos_part h.length in
      if ltb 0 size
      then (if ltb (length rest) size
          then err truncated_item
          else onto_items (item_of raw h (take size rest))
              (continue (skip_newline (drop size rest))))
      else parse_unsized continue raw h rest

  abbrev pub header_of_line : Bytes → Option json.Raw → Option (json.Raw × Header)
  header_of_line line none = none
  header_of_line line (some raw) = elim (json.header_of line) [
    | none ↦ none
    | some h ↦ if equal h.type [] then none else some (raw, h)
  ]

  -- One round of the loop, from a line of it.
  unfoldable pub parse_item :
      (Bytes → Parsed (List EnvelopeItem)) → Bytes × Bytes → Parsed (List EnvelopeItem)
  parse_item continue (line, rest) =
      if is_blank line then continue rest else elim (header_of_line line (json.read line)) [
        | none ↦ err invalid_item_header
        | some (raw, h) ↦ parse_payload continue raw h rest
      ]

  unfoldable pub parse_items : ℕ → Bytes → Parsed (List EnvelopeItem)
  parse_items fuel [] = ok []
  parse_items zero (c ∷ cs) = ok []
  parse_items (suc fuel) (c ∷ cs) =
      parse_item (parse_items fuel) (line_of (c ∷ cs) (cut b'\n' (c ∷ cs)))

  -- The items behind the envelope's header.
  abbrev pub items_behind : Parsed (Bytes × Bytes) → Parsed (List EnvelopeItem)
  items_behind (err e) = err e
  items_behind (ok (line, rest)) = parse_items (length rest) rest

  unfoldable pub parse_envelope : Bytes → Parsed (List EnvelopeItem)
  parse_envelope body = if is_blank body then err empty_envelope else items_behind (next_line body)

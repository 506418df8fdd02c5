-- ===== src/Envelope/RoundTrip.antt =====
-- The items that ApplyItemPolicy of internal/sentryx/item_policy.go writes, and parseEnvelope on them.
use crocuta.Prelude.{
  ℕ, zero, suc, ◌-◌, ◌≤◌, ◌≡◌, ◌≢◌, refl, sym, ap, subst, ◌∙◌, false, List, [], ◌∷◌, ◌++◌, some,
  ltb, Bytes, equal, equal_iff, cut, has_suffix, trim_suffix, length, drop, All, map, arith,
  is_space, lt→ltb, length-append, drop-length-append, take-length-append,
}
use crocuta.Prelude.Int.{pos}
use crocuta.Envelope.{
  Json, Header, Parsed, ok, EnvelopeItem, parse_item, parse_items, parse_payload, is_blank, IsLine,
  onto_items, item_of,
}

pub cut-line : (s t : Bytes) → IsLine s → cut b'\n' (s ++ (b'\n' ∷ t)) ≡ some (s, t)
unfolding cut
cut-line [] t h = refl
cut-line (c ∷ s) t h = ground (arith, cut-line s t h.1)

drop_but_last :
    (inner : Bytes) (x : ℕ) → drop (length (inner ++ (x ∷ [])) - 1) (inner ++ (x ∷ [])) ≡ x ∷ []
drop_but_last inner x =
    ap (λ (n : ℕ). drop n (inner ++ (x ∷ []))) (omega (arith, length-append inner (x ∷ [])))
    ∙ drop-length-append inner (x ∷ [])

trim_suffix-brace :
    (inner : Bytes) → trim_suffix (inner ++ (b'}' ∷ [])) (b'\r' ∷ []) ≡ inner ++ (b'}' ∷ [])
unfolding trim_suffix has_suffix equal
trim_suffix-brace inner = rw (drop_but_last inner b'}') (ground arith)

pub is_blank-brace : (inner : Bytes) → is_blank (inner ++ (b'}' ∷ [])) ≡ false
unfolding is_blank is_space
is_blank-brace [] = refl
is_blank-brace (c ∷ cs) = ground (arith, is_blank-brace cs)

append-ne-nil : (s : Bytes) (x : ℕ) → s ++ (x ∷ []) ≢ []
append-ne-nil [] x e = cc
append-ne-nil (c ∷ s) x e = cc

not-nil : {s : Bytes} → s ≢ [] → equal s [] ≡ false
not-nil {s} h = ground (arith, equal_iff s [])

not-longer : (s t : Bytes) → ltb (length (s ++ t)) (length s) ≡ false
not-longer s t = ground (arith, length-append s t)

module _ (json : Json) where
  abbrev pub renewed_header : EnvelopeItem json → json.Raw
  renewed_header item = json.renewed item.header item.type (length item.payload)

  -- What ApplyItemPolicy writes for the items it keeps.
  unfoldable pub write_items : List (EnvelopeItem json) → Bytes
  write_items [] = []
  write_items (item ∷ items) =
      json.write (renewed_header item) ++ (b'\n' ∷ (item.payload ++ (b'\n' ∷ write_items items)))

  -- An item with the header that was written for it.
  abbrev pub rewritten : EnvelopeItem json → EnvelopeItem json
  rewritten item = record item { header = renewed_header item }

  -- An item with a payload and a type, whose header gives its other fields.
  pub record IsWhole (item : EnvelopeItem json) : Type 0 where
    pub has_payload : 1 ≤ length item.payload
    pub has_type : item.type ≢ []
    pub parsed_header : Header
    pub header_of_raw : json.header_of (json.write item.header) ≡ some parsed_header
    pub event_id_of : parsed_header.event_id ≡ item.event_id
    pub filename_of : parsed_header.filename ≡ item.filename
    pub content_type_of : parsed_header.content_type ≡ item.content_type

  parse_items-nil : (fuel : ℕ) → parse_items json fuel [] ≡ ok []
  unfolding parse_items
  parse_items-nil fuel = refl

  parse_items-line :
      (fuel : ℕ) (s t : Bytes)
      → s ≢ []
      → IsLine s
      → parse_items json (suc fuel) (s ++ (b'\n' ∷ t))
        ≡ parse_item json (parse_items json fuel) (trim_suffix s (b'\r' ∷ []), t)
  unfolding parse_items
  parse_items-line fuel [] t full line = absurd (full refl)
  parse_items-line fuel (c ∷ s) t full line = rw (cut-line (c ∷ s) t line) refl

  -- A line that Marshal writes.
  written-line :
      (fuel : ℕ) (raw : json.Raw) (t : Bytes)
      → parse_items json (suc fuel) (json.write raw ++ (b'\n' ∷ t))
        ≡ parse_item json (parse_items json fuel) (json.write raw, t)
  written-line fuel raw t =
      let (inner, e) = json.write-brace raw in
      let full : json.write raw ≢ [] = λ h. append-ne-nil inner b'}' (sym e ∙ h) in
      let kept : trim_suffix (json.write raw) (b'\r' ∷ []) ≡ json.write raw =
        subst (λ s. trim_suffix s (b'\r' ∷ []) ≡ s) (sym e) (trim_suffix-brace inner) in
      parse_items-line fuel (json.write raw) t full (json.write-IsLine raw)
      ∙ ap (λ s. parse_item json (parse_items json fuel) (s, t)) kept

  parse_item-written :
      (continue : Bytes → Parsed (List (EnvelopeItem json))) (raw : json.Raw) (h : Header)
      (t : Bytes)
      → json.header_of (json.write raw) ≡ some h
      → h.type ≢ []
      → parse_item json continue (json.write raw, t) ≡ parse_payload json continue raw h t
  unfolding parse_item
  parse_item-written continue raw h t e typed =
      let (inner, w) = json.write-brace raw in
      let full : is_blank (json.write raw) ≡ false =
        subst (λ s. is_blank s ≡ false) (sym w) (is_blank-brace inner) in
      rw (full, json.read-write raw, e, not-nil typed) refl

  parse_payload-sized :
      (continue : Bytes → Parsed (List (EnvelopeItem json))) (raw : json.Raw) (h : Header)
      (payload rest : Bytes)
      → h.length ≡ pos (length payload)
      → 1 ≤ length payload
      → parse_payload json continue raw h (payload ++ (b'\n' ∷ rest))
        ≡ onto_items json (item_of json raw h payload) (continue rest)
  unfolding parse_payload
  parse_payload-sized continue raw h payload rest e positive =
      rw
        (
          e,
          lt→ltb 0 (length payload) positive,
          not-longer payload (b'\n' ∷ rest),
          take-length-append payload (b'\n' ∷ rest),
          drop-length-append payload (b'\n' ∷ rest),
        )
        refl

  item-read :
      (item : EnvelopeItem json) (w : IsWhole item) (n : ℕ)
      → item_of json
          (renewed_header item)
          (record w.parsed_header { type = item.type; length = pos n })
          item.payload
        ≡ rewritten item
  item-read item w n = rw (w.event_id_of, w.filename_of, w.content_type_of) refl

  -- The items that the policy writes are the items that the parser reads: each with its type, its payload
  -- and its other fields. Every item has a payload, a type and a header that gives its fields, and a round
  -- of the loop for each item is enough.
  pub parse_items-write_items :
      (items : List (EnvelopeItem json)) (fuel : ℕ)
      → All IsWhole items
      → length items ≤ fuel
      → parse_items json fuel (write_items items) ≡ ok (map rewritten items)
  unfolding write_items
  parse_items-write_items [] zero whole enough = parse_items-nil zero
  parse_items-write_items [] (suc fuel) whole enough = parse_items-nil (suc fuel)
  parse_items-write_items (item ∷ items) zero whole enough = absurd (omega arith)
  parse_items-write_items (item ∷ items) (suc fuel) (w, whole) enough =
      let raw : json.Raw = renewed_header item in
      let h : Header = record w.parsed_header {
        type = item.type;
        length = pos (length item.payload);
      } in
      let known : json.header_of (json.write raw) ≡ some h =
        json.header_of-renewed item.header w.parsed_header item.type (length item.payload)
          w.header_of_raw in
      written-line fuel raw (item.payload ++ (b'\n' ∷ write_items items))
      ∙ parse_item-written (parse_items json fuel) raw h _ known w.has_type
      ∙ parse_payload-sized (parse_items json fuel) raw h item.payload (write_items items) refl
          w.has_payload
      ∙ rw
          (
            item-read item w (length item.payload),
            parse_items-write_items items fuel whole (omega arith),
          )
          refl

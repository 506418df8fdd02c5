-- ===== src/Envelope/Fuel.antt =====
-- The rounds of the loop of parseEnvelope in internal/sentryx/app.go.
use crocuta.Prelude.{
  ℕ, zero, suc, ◌-◌, ◌≤◌, ◌≡◌, refl, ap, ◌||◌, List, [], ◌∷◌, ltb, ◌==◌, Bytes, codes, equal, cut,
  length, drop, length-drop, arith, Bool-cases, Option-cases, inl, inr,
}
use crocuta.Prelude.Int.{pos_part}
use crocuta.Envelope.{
  Json, Header, Parsed, EnvelopeItem, line_of, skip_newline, parse_item, parse_items, parse_payload,
  parse_unsized, is_blank, header_of_line, onto_items, item_of,
}

length-cut : (sep : ℕ) (s : Bytes) → length (line_of s (cut sep s)).1 ≤ length s - 1
unfolding cut
length-cut sep [] = omega arith
length-cut sep (c ∷ cs) = elim (Bool-cases (c == sep)) [
  | inl h ↦ rw h (omega arith)
  | inr h ↦ elim (Option-cases (cut sep cs)) [
    | inl e ↦ rw (h, e) (omega arith)
    | inr ((before, rest), e) ↦
        let shorter : length rest ≤ length cs - 1 = rw e at (length-cut sep cs) in
        rw (h, e) (omega (arith, shorter))
  ]
]

length-skip_newline : (s : Bytes) → length (skip_newline s) ≤ length s
length-skip_newline [] = omega arith
length-skip_newline (c ∷ cs) = ground arith

module _ (json : Json) where
  -- Two continuations that agree on what a payload leaves.
  abbrev AgreeUpTo :
      ℕ
      → (Bytes → Parsed (List (EnvelopeItem json)))
      → (Bytes → Parsed (List (EnvelopeItem json)))
      → Type 0
  AgreeUpTo n k l = (rest : Bytes) → length rest ≤ n → k rest ≡ l rest

  after :
      (k l : Bytes → Parsed (List (EnvelopeItem json))) (item : EnvelopeItem json) (n : ℕ)
      (rest : Bytes)
      → AgreeUpTo (length rest) k l
      → onto_items json item (k (skip_newline (drop n rest)))
        ≡ onto_items json item (l (skip_newline (drop n rest)))
  after k l item n rest agree = ap (onto_items json item) (
      agree (skip_newline (drop n rest))
        (omega (arith, length-skip_newline (drop n rest), length-drop n rest)))

  parse_unsized-agree :
      (k l : Bytes → Parsed (List (EnvelopeItem json))) (raw : json.Raw) (h : Header) (rest : Bytes)
      → AgreeUpTo (length rest) k l
      → parse_unsized json k raw h rest ≡ parse_unsized json l raw h rest
  unfolding parse_unsized
  parse_unsized-agree k l raw h rest agree =
      elim (Bool-cases (equal h.type (codes "event") || equal h.type (codes "error"))) [
        | inl e ↦ elim (Option-cases (json.decode_value rest)) [
          | inl d ↦ rw (e, d) refl
          | inr ((payload, consumed), d) ↦
              rw (e, d) (after k l (item_of json raw h payload) consumed rest agree)
        ]
        | inr e ↦ rw e refl
      ]

  parse_payload-agree :
      (k l : Bytes → Parsed (List (EnvelopeItem json))) (raw : json.Raw) (h : Header) (rest : Bytes)
      → AgreeUpTo (length rest) k l
      → parse_payload json k raw h rest ≡ parse_payload json l raw h rest
  unfolding parse_payload
  parse_payload-agree k l raw h rest agree = elim (Bool-cases (ltb 0 (pos_part h.length))) [
    | inl sized ↦ elim (Bool-cases (ltb (length rest) (pos_part h.length))) [
      | inl short ↦ rw (sized, short) refl
      | inr enough ↦ rw (sized, enough) (after k l _ (pos_part h.length) rest agree)
    ]
    | inr unsized ↦ rw unsized (parse_unsized-agree k l raw h rest agree)
  ]

  parse_item-agree :
      (k l : Bytes → Parsed (List (EnvelopeItem json))) (line rest : Bytes)
      → AgreeUpTo (length rest) k l
      → parse_item json k (line, rest) ≡ parse_item json l (line, rest)
  unfolding parse_item
  parse_item-agree k l line rest agree = elim (Bool-cases (is_blank line)) [
    | inl blank ↦ rw blank (agree rest (omega arith))
    | inr full ↦ elim (Option-cases (header_of_line json line (json.read line))) [
      | inl bad ↦ rw (full, bad) refl
      | inr ((raw, h), good) ↦ rw (full, good) (parse_payload-agree k l raw h rest agree)
    ]
  ]

  -- One round of the loop for each byte is enough: more rounds give the same items or the same error.
  pub parse_items_fuel :
      (n m : ℕ) (s : Bytes)
      → length s ≤ n
      → length s ≤ m
      → parse_items json n s ≡ parse_items json m s
  unfolding parse_items
  parse_items_fuel n m [] u v = refl
  parse_items_fuel (suc n) (suc m) (c ∷ cs) u v =
      let p : Bytes × Bytes = line_of (c ∷ cs) (cut b'\n' (c ∷ cs)) in
      let shorter : length p.1 ≤ length cs = omega (arith, length-cut b'\n' (c ∷ cs)) in
      parse_item-agree (parse_items json n) (parse_items json m) p.0 p.1 (λ rest h.
        parse_items_fuel n m rest (omega (arith, h, shorter)) (omega (arith, h, shorter)))
  parse_items_fuel zero m (c ∷ cs) u v = absurd (omega arith)
  parse_items_fuel (suc n) zero (c ∷ cs) u v = absurd (omega arith)

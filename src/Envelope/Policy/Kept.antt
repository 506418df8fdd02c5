-- ===== src/Envelope/Policy/Kept.antt =====
-- What parseEnvelope reads of the envelope that ApplyItemPolicy returns.
use crocuta.Prelude.{
  ℕ, zero, suc, ◌-◌, ◌≤◌, ◌≡◌, ◌≢◌, ◌⊎◌, refl, sym, subst, ◌∙◌, Bool, true, false, ◌&&◌, List, [],
  ◌∷◌, ◌++◌, ap, ==_iff, none, some, ◌==◌, Bytes, Dict, is_space, cut, trim_suffix, has_suffix,
  length, take, All, map, filter_by, arith, Bool-cases, inl, inr, length-append,
}
use crocuta.Store.Digest.{Sha}
use crocuta.Envelope.{
  Json, EnvelopeItem, EnvelopeError, ok, err, parse_envelope, next_line, line_of, is_blank, IsLine,
}
use crocuta.Envelope.RoundTrip.{
  write_items, rewritten, IsWhole, renewed_header, parse_items-write_items, cut-line,
  is_blank-brace,
}
use crocuta.Envelope.Policy.{is_kept, apply_item_policy}

IsLine-take : (n : ℕ) (s : Bytes) → IsLine s → IsLine (take n s)
IsLine-take zero s h = tt
IsLine-take (suc n) [] h = tt
IsLine-take (suc n) (c ∷ s) h = (h.0, IsLine-take n s h.1)

IsLine-trim_suffix : (s suffix : Bytes) → IsLine s → IsLine (trim_suffix s suffix)
unfolding trim_suffix
IsLine-trim_suffix s suffix h = elim (Bool-cases (has_suffix s suffix)) [
  | inl e ↦ rw e (IsLine-take _ s h)
  | inr e ↦ rw e h
]

is_blank-append : (s t : Bytes) → is_blank (s ++ t) ≡ (is_blank s && is_blank t)
unfolding is_blank
is_blank-append [] t = refl
is_blank-append (c ∷ s) t = ground (arith, is_blank-append s t)

pub cut-IsLine :
    (s : Bytes)
    → ((cut b'\n' s ≡ none) × IsLine s)
      ⊎ ((line : Bytes) × (rest : Bytes) × (cut b'\n' s ≡ some (line, rest))
          × IsLine line
          × (s ≡ line ++ (b'\n' ∷ rest)))
unfolding cut
cut-IsLine [] = inl (refl, tt)
cut-IsLine (c ∷ s) = elim (Bool-cases (c == b'\n')) [
  | inl h ↦ inr ([], s, rw h refl, tt, ap (λ (d : ℕ). d ∷ s) ((==_iff c b'\n').0 h))
  | inr h ↦ elim (cut-IsLine s) [
    | inl (e, line) ↦ inl (rw (h, e) refl, (h, line))
    | inr (before, rest, e, line, whole) ↦
        inr (c ∷ before, rest, rw (h, e) refl, (h, line), ap (λ (t : Bytes). c ∷ t) whole)
  ]
]

line_of-IsLine : (s : Bytes) → IsLine (line_of s (cut b'\n' s)).0
line_of-IsLine s = elim (cut-IsLine s) [
  | inl (e, line) ↦ rw e (IsLine-trim_suffix s (b'\r' ∷ []) line)
  | inr (before, rest, e, line, whole) ↦ rw e (IsLine-trim_suffix before (b'\r' ∷ []) line)
]

pub next_line-ok : (s : Bytes) → is_blank s ≡ false → next_line s ≡ ok (line_of s (cut b'\n' s))
unfolding next_line is_blank
next_line-ok [] h = cc
next_line-ok (c ∷ s) h = refl

next_line-line :
    (header t : Bytes)
    → IsLine header
    → next_line (header ++ (b'\n' ∷ t)) ≡ ok (trim_suffix header (b'\r' ∷ []), t)
unfolding next_line
next_line-line [] t h = rw (cut-line [] t tt) refl
next_line-line (c ∷ s) t h = rw (cut-line (c ∷ s) t h) refl

is_blank-newline : (s : Bytes) → is_blank s ≡ false → is_blank (b'\n' ∷ s) ≡ false
unfolding is_blank is_space
is_blank-newline s h = rw h refl

and-false : (b : Bool) → (b && false) ≡ false
and-false true = refl
and-false false = refl

err-ne-ok : {A : Type 0} {e : EnvelopeError} {a : A} → err e ≢ ok a
err-ne-ok h = cc

module _ (json : Json) where
  length-write_items :
      (items : List (EnvelopeItem json)) → length items ≤ length (write_items json items)
  unfolding write_items
  length-write_items [] = omega arith
  length-write_items (item ∷ items) = omega (
    arith,
    length-append (json.write (renewed_header json item))
        (b'\n' ∷ (item.payload ++ (b'\n' ∷ write_items json items))),
    length-append item.payload (b'\n' ∷ write_items json items),
    length-write_items items,
  )

  is_blank-write_items :
      (items : List (EnvelopeItem json)) → items ≢ [] → is_blank (write_items json items) ≡ false
  unfolding write_items
  is_blank-write_items [] h = absurd (h refl)
  is_blank-write_items (item ∷ items) h =
      let (inner, e) = json.write-brace (renewed_header json item) in
      let full : is_blank (json.write (renewed_header json item)) ≡ false =
        subst (λ t. is_blank t ≡ false) (sym e) (is_blank-brace inner) in
      is_blank-append (json.write (renewed_header json item)) _ ∙ rw full refl

  pub rebuilt-parses :
      (header : Bytes) (items : List (EnvelopeItem json))
      → IsLine header
      → All (IsWhole json) items
      → items ≢ []
      → parse_envelope json (header ++ (b'\n' ∷ write_items json items))
        ≡ ok (map (rewritten json) items)
  unfolding parse_envelope
  rebuilt-parses header items line whole some_items =
      let full : is_blank (header ++ (b'\n' ∷ write_items json items)) ≡ false =
        rw
          (
            is_blank-append header (b'\n' ∷ write_items json items),
            is_blank-newline (write_items json items) (is_blank-write_items items some_items),
          )
          (and-false (is_blank header)) in
      rw (full, next_line-line header (write_items json items) line)
        (parse_items-write_items json items (length (write_items json items)) whole
          (length-write_items items))

  pub parse_envelope-full :
      (body : Bytes) (items : List (EnvelopeItem json))
      → parse_envelope json body ≡ ok items
      → is_blank body ≡ false
  unfolding parse_envelope
  parse_envelope-full body items parsed = elim (Bool-cases (is_blank body)) [
    | inl blank ↦ absurd (err-ne-ok (rw blank at parsed))
    | inr full ↦ full
  ]

  -- With a policy that has an entry, ApplyItemPolicy turns an envelope that parses into one that parses
  -- too, to exactly the items that the policy keeps, in their order and each with its type, payload and
  -- other fields, and counts the others as dropped. At least one item is kept, and each kept item has a
  -- payload, a type and a header that gives its fields.
  pub apply_item_policy-parses :
      (sha : Sha) (type action : Bytes) (policy : Dict Bytes) (body : Bytes)
      (items : List (EnvelopeItem json))
      → parse_envelope json body ≡ ok items
      → All (IsWhole json) (filter_by (is_kept json sha ((type, action) ∷ policy)) items)
      → filter_by (is_kept json sha ((type, action) ∷ policy)) items ≢ []
      → (out : Bytes) × (apply_item_policy json sha ((type, action) ∷ policy) body
          ≡ ok (
            out,
            length items - length (filter_by (is_kept json sha ((type, action) ∷ policy)) items),
          ))
        × (parse_envelope json out
            ≡ ok (
                map
                  (rewritten json)
                  (filter_by (is_kept json sha ((type, action) ∷ policy)) items)))
  unfolding apply_item_policy
  apply_item_policy-parses sha type action policy body items parsed whole some_items =
      let header : Bytes = (line_of body (cut b'\n' body)).0 in
      let kept : List (EnvelopeItem json) =
        filter_by (is_kept json sha ((type, action) ∷ policy)) items in
      (
        header ++ (b'\n' ∷ write_items json kept),
        rw (parsed, next_line-ok body (parse_envelope-full body items parsed)) refl,
        rebuilt-parses header kept (line_of-IsLine body) whole some_items,
      )

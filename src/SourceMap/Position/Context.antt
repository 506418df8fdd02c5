-- ===== src/SourceMap/Position/Context.antt =====
-- The lines of source text that a frame shows.
use mathlib.Core.List.{append_assoc}
use crocuta.Prelude.{
  ℕ, suc, zero, ◌+◌, ◌-◌, ◌≤◌, ◌<◌, ◌≡◌, refl, List, [], ◌∷◌, ◌++◌, some, arith, Bytes, length,
  take, drop, get_elem?, length-take, length-drop, ap, ltb, if◌then◌else◌, min, sym, ◌∙◌,
  take-append-drop,
}
use crocuta.Prelude.Int.{pos}
use crocuta.SourceMap.Position.{StackFrame, with_context}

module _ {ℓ} {A : Type ℓ} where
  get_elem?-lt : (xs : List A) (i : ℕ) {a : A} → get_elem? xs i ≡ some a → i < length xs
  get_elem?-lt [] i e = cc
  get_elem?-lt (x ∷ xs) zero e = omega arith
  get_elem?-lt (x ∷ xs) (suc i) e = omega (arith, get_elem?-lt xs i e)

  take-drop_elem :
      (xs : List A) (i : ℕ) {a : A}
      → get_elem? xs i ≡ some a
      → xs ≡ take i xs ++ (a ∷ drop (i + 1) xs)
  take-drop_elem [] i e = cc
  take-drop_elem (x ∷ xs) zero e = ground arith
  take-drop_elem (x ∷ xs) (suc i) e = ground (arith, take-drop_elem xs i e)

  take-nil : (n : ℕ) → take {A = A} n [] ≡ []
  take-nil zero = refl
  take-nil (suc n) = refl

  eq-nil_of_length : (xs : List A) → length xs ≡ 0 → xs ≡ []
  eq-nil_of_length [] e = refl
  eq-nil_of_length (x ∷ xs) e = absurd (omega arith)

  drop-take : (n m : ℕ) (xs : List A) → drop n (take m xs) ≡ take (m - n) (drop n xs)
  drop-take zero m xs = ap (λ (k : ℕ). take k xs) (omega arith)
  drop-take (suc n) zero xs = ground arith
  drop-take (suc n) (suc m) [] = sym (take-nil (suc m - suc n))
  drop-take (suc n) (suc m) (x ∷ xs) =
      drop-take n m xs ∙ ap (λ (k : ℕ). take k (drop n xs)) (omega arith)

-- The lines of the text, cut into those before the window, the window, and those after it.
pub record IsWindow (text : List Bytes) (target : ℕ) (f : StackFrame) : Type 0 where
  pub before : List Bytes
  pub after : List Bytes
  pub splits : text ≡ before ++ (f.pre_context ++ (f.context_line ∷ (f.post_context ++ after)))
  pub target_is : length before + length f.pre_context ≡ target
  pub pre_bound : length f.pre_context ≤ 5
  pub post_bound : length f.post_context ≤ 5
  pub pre_full : length f.pre_context < 5 → before ≡ []
  pub post_full : length f.post_context < 5 → after ≡ []

module _ (frame : StackFrame) (text : List Bytes) (target : ℕ) {line : Bytes}
    (found : get_elem? text target ≡ some line) where
  post_end : ℕ
  post_end = if ltb (length text) (target + 1 + 5) then length text else target + 1 + 5

  post_end-min : post_end ≡ min (length text) (target + 6)
  unfolding post_end
  post_end-min = ground arith

  window : StackFrame
  unfolding post_end
  window = record frame {
    context_line = line;
    pre_context = drop (target - 5) (take target text);
    post_context = drop (target + 1) (take post_end text);
  }

  with_context-window : with_context frame text (pos target) ≡ window
  unfolding with_context window
  with_context-window = rw (found, with_context)

  length-pre : length window.pre_context ≡ min target 5
  unfolding window
  length-pre = omega (
    arith,
    length-drop (target - 5) (take target text),
    length-take target text,
    get_elem?-lt text target found,
  )

  length-post : length window.post_context ≡ min (length text) (target + 6) - (target + 1)
  unfolding window
  length-post = omega (
    arith,
    length-drop (target + 1) (take post_end text),
    length-take post_end text,
    post_end-min,
  )

  after : List Bytes
  after = drop (post_end - (target + 1)) (drop (target + 1) text)

  window-splits :
      text
      ≡ take (target - 5) (take target text)
        ++ (window.pre_context ++ (line ∷ (window.post_context ++ after)))
  unfolding window after
  window-splits =
      take-drop_elem text target found
      ∙ ap (λ l. l ++ (line ∷ drop (target + 1) text))
          (sym (take-append-drop (target - 5) (take target text)))
      ∙ append_assoc (take (target - 5) (take target text)) (drop (target - 5) (take target text)) _
      ∙ ap
          (λ l.
            take (target - 5) (take target text)
            ++ (drop (target - 5) (take target text) ++ (line ∷ l)))
          (sym (take-append-drop (post_end - (target + 1)) (drop (target + 1) text)))
      ∙ ap
          (λ l.
            take (target - 5) (take target text)
            ++ (drop (target - 5) (take target text)
                ++ (line ∷ (l ++ drop (post_end - (target + 1)) (drop (target + 1) text)))))
          (sym (drop-take (target + 1) post_end text))

  length-before : length (take (target - 5) (take target text)) ≡ target - 5
  length-before = omega (
    arith,
    length-take (target - 5) (take target text),
    length-take target text,
    get_elem?-lt text target found,
  )

  length-after : length after ≡ length text - (target + 6)
  unfolding after
  length-after = omega (
    arith,
    length-drop (post_end - (target + 1)) (drop (target + 1) text),
    length-drop (target + 1) text,
    post_end-min,
    get_elem?-lt text target found,
  )

  window-IsWindow : IsWindow text target window
  window-IsWindow = record {
    before = take (target - 5) (take target text);
    after = after;
    splits = unfold window in window-splits;
    target_is = omega (arith, length-before, length-pre);
    pre_bound = omega (arith, length-pre);
    post_bound = omega (arith, length-post);
    pre_full = λ h. eq-nil_of_length _ (omega (arith, length-before, length-pre));
    post_full = λ h. eq-nil_of_length _ (omega (arith, length-after, length-post));
  }

  -- A frame with a line of the text has the lines next to it as its context, in order and without a
  -- gap: five on each side, or all that there are.
  pub with_context-IsWindow : IsWindow text target (with_context frame text (pos target))
  with_context-IsWindow = rw with_context-window window-IsWindow

-- ===== src/Events/Grouping/Frames.antt =====
-- groupingFrames of internal/sentryx/app.go, against the choice of frames without its loop.
use crocuta.Prelude.{
  ℕ, zero, suc, ◌≤◌, ◌≡◌, refl, sym, ap, ◌∙◌, Bool, false, not, ◌&&◌, List, [], ◌∷◌, ◌++◌,
  if◌then◌else◌, ltb, length, take, reverse, filter_by, Bool-cases, inl, inr, arith, length-append,
  take-length-append,
}
use crocuta.SourceMap.Position.{StackFrame}
use crocuta.Events.Grouping.{
  is_list_nil, is_nameless, is_foreign, with_fallback, collect_frames, or_fallback, grouping_frames,
}

-- A frame with a name, and one of the application.
abbrev pub is_named : StackFrame → Bool
is_named f = not (is_nameless f)

abbrev pub is_own : StackFrame → Bool
is_own f = not (is_nameless f) && not (is_foreign f)

-- The frames of the application or else all with a name; three at most.
abbrev pub chosen : List StackFrame → List StackFrame
chosen frames =
    if is_list_nil (filter_by is_own frames)
    then take 3 (filter_by is_named frames)
    else take 3 (filter_by is_own frames)

-- The frames that the loop has in hand, and those that are still to come.
abbrev chosen_from : List StackFrame → List StackFrame → List StackFrame → List StackFrame
chosen_from frames result fallback =
    if is_list_nil (result ++ filter_by is_own frames)
    then take 3 (fallback ++ filter_by is_named frames)
    else take 3 (result ++ filter_by is_own frames)

take_all : {A : Type 0} (n : ℕ) (xs : List A) → length xs ≤ n → take n xs ≡ xs
take_all zero [] h = refl
take_all (suc n) [] h = refl
take_all zero (x ∷ xs) h = absurd (omega arith)
take_all (suc n) (x ∷ xs) h = ap (λ ys. x ∷ ys) (take_all n xs (omega arith))

append_nil : {A : Type 0} (xs : List A) → xs ++ [] ≡ xs
append_nil [] = refl
append_nil (x ∷ xs) = ap (λ ys. x ∷ ys) (append_nil xs)

take_full : {A : Type 0} (n : ℕ) (xs ys : List A) → length xs ≡ n → take n (xs ++ ys) ≡ xs
take_full n xs ys h = rw (sym h) (take-length-append xs ys)

append_one :
    {A : Type 0} (xs : List A) (x : A) (ys : List A) → (xs ++ (x ∷ [])) ++ ys ≡ xs ++ (x ∷ ys)
append_one [] x ys = refl
append_one (y ∷ xs) x ys = ap (λ zs. y ∷ zs) (append_one xs x ys)

is_list_nil-append :
    {A : Type 0} (xs : List A) (x : A) (ys : List A) → is_list_nil (xs ++ (x ∷ ys)) ≡ false
is_list_nil-append [] x ys = refl
is_list_nil-append (y ∷ xs) x ys = refl

length-with_fallback :
    (fallback : List StackFrame) (f : StackFrame)
    → length fallback ≤ 3
    → length (with_fallback fallback f) ≤ 3
unfolding with_fallback
length-with_fallback fallback f b = ground (arith, length-append fallback (f ∷ []))

take-with_fallback :
    (fallback : List StackFrame) (f : StackFrame) (rest : List StackFrame)
    → length fallback ≤ 3
    → take 3 (with_fallback fallback f ++ rest) ≡ take 3 (fallback ++ (f ∷ rest))
unfolding with_fallback
take-with_fallback fallback f rest b = elim (Bool-cases (ltb (length fallback) 3)) [
  | inl h ↦ rw (h, append_one fallback f rest) refl
  | inr h ↦
      let full : length fallback ≡ 3 = ground arith in
      rw h (take_full 3 fallback rest full ∙ sym (take_full 3 fallback (f ∷ rest) full))
]

or_fallback-full :
    (result fallback rest named : List StackFrame)
    → length result ≡ 3
    → or_fallback (result, fallback) ≡ (
        if is_list_nil (result ++ rest)
        then take 3 (fallback ++ named)
        else take 3 (result ++ rest))
or_fallback-full [] fallback rest named h = absurd (omega arith)
or_fallback-full (f ∷ result) fallback rest named h = sym (take_full 3 (f ∷ result) rest h)

or_fallback-rest :
    (result fallback : List StackFrame)
    → length result ≤ 3
    → length fallback ≤ 3
    → or_fallback (result, fallback)
      ≡ (if is_list_nil (result ++ []) then take 3 (fallback ++ []) else take 3 (result ++ []))
or_fallback-rest [] fallback r b =
    sym (take_all 3 (fallback ++ []) (rw (append_nil fallback) b) ∙ append_nil fallback)
or_fallback-rest (f ∷ result) fallback r b =
    sym (take_all 3 ((f ∷ result) ++ []) (rw (append_nil result) r) ∙ append_nil (f ∷ result))

collect_frames-chosen_from :
    (frames result fallback : List StackFrame)
    → length result ≤ 3
    → length fallback ≤ 3
    → or_fallback (collect_frames frames result fallback) ≡ chosen_from frames result fallback
unfolding collect_frames
collect_frames-chosen_from [] result fallback r b = or_fallback-rest result fallback r b
collect_frames-chosen_from (f ∷ fs) result fallback r b =
    elim (Bool-cases (ltb (length result) 3)) [
      | inr full ↦ rw full (or_fallback-full result fallback _ _ (ground arith))
      | inl room ↦ elim (Bool-cases (is_nameless f)) [
        | inl nameless ↦ rw (room, nameless) (collect_frames-chosen_from fs result fallback r b)
        | inr named ↦ elim (Bool-cases (is_foreign f)) [
          | inl foreign ↦
              rw (room, named, foreign)
                (collect_frames-chosen_from fs result (with_fallback fallback f) r
                    (length-with_fallback fallback f b)
                  ∙ rw (take-with_fallback fallback f (filter_by is_named fs) b) refl)
          | inr own ↦
              rw (room, named, own)
                (collect_frames-chosen_from fs (result ++ (f ∷ [])) (with_fallback fallback f)
                    (ground (arith, length-append result (f ∷ [])))
                    (length-with_fallback fallback f b)
                  ∙ rw
                      (
                        append_one result f (filter_by is_own fs),
                        is_list_nil-append result f (filter_by is_own fs),
                      )
                      refl)
        ]
      ]
    ]

-- groupingFrames gives, in their order, the last three frames of the application (those with a file or a
-- function that are marked as such and do not stand in a library), and where there are none the last three
-- frames with a file or a function.
pub grouping_frames-chosen :
    (frames : List StackFrame) → grouping_frames frames ≡ reverse (chosen (reverse frames))
unfolding grouping_frames
grouping_frames-chosen frames =
    ap reverse (collect_frames-chosen_from (reverse frames) [] [] (omega arith) (omega arith))

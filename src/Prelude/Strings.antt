-- ===== src/Prelude/Strings.antt =====
-- The functions of Go's package strings that the program calls, on lists of bytes.
use Prim.Native.Nat.{ℕ, ◌+◌, ◌-◌, ◌≤◌}
use mathlib.Core.Path.{◌≡◌, refl}
use mathlib.Core.Bool.{Bool, true, false, ◌&&◌, ◌||◌}
use mathlib.Core.List.{List, [], ◌∷◌, ◌++◌}
use mathlib.Core.Option.{Option, none, some}
use native.Mathlib.Omega.{arith}
use crocuta.Prelude.Tests.{◌==◌, leb, if◌then◌else◌}
use crocuta.Prelude.Lists.{length, take, drop}
use crocuta.Prelude.Text.{Bytes, equal, is_space}

-- A byte in front of the first part.
abbrev pub onto_first : ℕ → List Bytes → List Bytes
onto_first c [] = (c ∷ []) ∷ []
onto_first c (p ∷ ps) = (c ∷ p) ∷ ps

-- strings.Split by one byte: never empty.
unfoldable pub split : ℕ → Bytes → List Bytes
split sep [] = [] ∷ []
split sep (c ∷ cs) = let rest = split sep cs in if c == sep then [] ∷ rest else onto_first c rest

-- strings.HasPrefix
unfoldable pub has_prefix : Bytes → Bytes → Bool
has_prefix s [] = true
has_prefix [] (p ∷ ps) = false
has_prefix (c ∷ cs) (p ∷ ps) = c == p && has_prefix cs ps

-- strings.HasSuffix
unfoldable pub has_suffix : Bytes → Bytes → Bool
unfolding equal
has_suffix s suffix =
    leb (length suffix) (length s) && equal (drop (length s - length suffix) s) suffix

unfoldable pub trim_prefix : Bytes → Bytes → Bytes
unfolding has_prefix
trim_prefix s prefix = if has_prefix s prefix then drop (length prefix) s else s

unfoldable pub trim_suffix : Bytes → Bytes → Bytes
unfolding has_suffix
trim_suffix s suffix = if has_suffix s suffix then take (length s - length suffix) s else s

-- strings.Contains
unfoldable pub contains : Bytes → Bytes → Bool
unfolding has_prefix
contains [] part = has_prefix [] part
contains (c ∷ cs) part = has_prefix (c ∷ cs) part || contains cs part

-- A byte in front of what is cut off.
abbrev pub onto_cut : ℕ → Option (Bytes × Bytes) → Option (Bytes × Bytes)
onto_cut c none = none
onto_cut c (some (before, after)) = some (c ∷ before, after)

-- strings.Cut at one byte; SplitN into two parts, where `none` is the single part.
unfoldable pub cut : ℕ → Bytes → Option (Bytes × Bytes)
cut sep [] = none
cut sep (c ∷ cs) = let rest = cut sep cs in if c == sep then some ([], cs) else onto_cut c rest

-- strings.Join
unfoldable pub join : Bytes → List Bytes → Bytes
join sep [] = []
join sep (p ∷ []) = p
join sep (p ∷ q ∷ ps) = p ++ (sep ++ join sep (q ∷ ps))

abbrev pub count_byte : ℕ → Bytes → ℕ
count_byte b [] = 0
count_byte b (c ∷ cs) = (if c == b then 1 else 0) + count_byte b cs

length-onto_first : (c : ℕ) (ps : List Bytes) → 1 ≤ length ps → length (onto_first c ps) ≡ length ps
length-onto_first c [] h = elim h [ ]
length-onto_first c (p ∷ ps) h = refl

-- A text has one part more than separators.
pub length-split : (sep : ℕ) (s : Bytes) → length (split sep s) ≡ count_byte sep s + 1
unfolding split
length-split sep [] = refl
length-split sep (c ∷ cs) = ground (arith, length-split sep cs, length-onto_first c (split sep cs))

-- The first part without the bytes before it.
abbrev drop_empty : List Bytes → List Bytes
drop_empty [] = []
drop_empty ([] ∷ ps) = ps
drop_empty ((c ∷ p) ∷ ps) = (c ∷ p) ∷ ps

-- The words of a text; the first part is open, and may be empty.
words : Bytes → List Bytes
unfolding is_space
words [] = [] ∷ []
words (c ∷ cs) =
    let rest = words cs in if is_space c then [] ∷ drop_empty rest else onto_first c rest

-- strings.Fields
unfoldable pub fields : Bytes → List Bytes
unfolding words
fields s = drop_empty (words s)

-- ===== src/Metrics/Totals.antt =====
-- Metrics of internal/sentryx/features.go after many additions, and the snapshot of them.
use crocuta.Prelude.{
  ℕ, ◌+◌, ◌%◌, ◌<◌, ◌≡◌, refl, ap, sym, subst, ◌∙◌, List, [], ◌∷◌, Option, none, some,
  if◌then◌else◌, Bytes, Dict, lookup, insert, lookup-insert, equal, equal_iff, arith, Bool-cases,
  inl, inr, Unique,
}
use crocuta.Prelude.Int.{ℤ, pos, negsuc, word}
use crocuta.Metrics.{Metrics, metric_key, add_counter, add_to, cell_value, with_gauges, snapshot}

pub record Addition : Type 0 where
  pub name : Bytes
  pub labels : Dict Bytes
  pub value : ℕ

-- Additions one after the other.
unfoldable pub add_all : Metrics → List Addition → Metrics
add_all m [] = m
add_all m (a ∷ rest) = add_all (add_counter m a.name a.labels a.value) rest

-- What the additions to a key come to.
abbrev pub total : Bytes → List Addition → ℕ
total key [] = 0
total key (a ∷ rest) =
    let later = total key rest in
    if equal (metric_key a.name a.labels) key then a.value + later else later

abbrev pub value_of : Bytes → Metrics → ℕ
value_of key m = cell_value (lookup key m.counters)

value_of-add_to :
    (key other : Bytes) (value : ℕ) (m : Metrics)
    → value_of key (add_to other value m)
      ≡ (if equal other key then (value_of key m + value) % word else value_of key m)
unfolding add_to
value_of-add_to key other value m = elim (Bool-cases (equal other key)) [
  | inl same ↦
      rw
        (
          lookup-insert other key ((cell_value (lookup other m.counters) + value) % word)
              m.counters,
          same,
        )
        (ap (λ (k : Bytes). (cell_value (lookup k m.counters) + value) % word)
          ((equal_iff other key).0 same))
  | inr apart ↦
      rw
        (
          lookup-insert other key ((cell_value (lookup other m.counters) + value) % word)
              m.counters,
          apart,
        )
        refl
]

added : (v a t : ℕ) → ((v + a) % word + t) % word ≡ (v + (a + t)) % word
added v a t = omega arith

below_word : (n : ℕ) → n % word < word
below_word n = omega arith

-- After any additions, in any order and with any other keys among them, the counter of a key is what it
-- was and the sum of the values added to it, modulo 2 ^ 64.
pub value_of-add_all :
    (key : Bytes) (additions : List Addition) (m : Metrics)
    → value_of key m < word
    → value_of key (add_all m additions) ≡ (value_of key m + total key additions) % word
unfolding add_all add_counter
value_of-add_all key [] m small = omega (arith, small)
value_of-add_all key (a ∷ rest) m small =
    elim (Bool-cases (equal (metric_key a.name a.labels) key)) [
      | inl same ↦
          let step : value_of key (add_to (metric_key a.name a.labels) a.value m)
              ≡ (value_of key m + a.value) % word =
            rw same at (value_of-add_to key (metric_key a.name a.labels) a.value m) in
          rw same (
            value_of-add_all key rest (add_to (metric_key a.name a.labels) a.value m)
              (subst (λ (v : ℕ). v < word) (sym step) (below_word (value_of key m + a.value)))
            ∙ ap (λ (v : ℕ). (v + total key rest) % word) step
            ∙ added (value_of key m) a.value (total key rest))
      | inr apart ↦
          let step : value_of key (add_to (metric_key a.name a.labels) a.value m) ≡ value_of key m =
            rw apart at (value_of-add_to key (metric_key a.name a.labels) a.value m) in
          rw apart (
            value_of-add_all key rest (add_to (metric_key a.name a.labels) a.value m)
              (subst (λ (v : ℕ). v < word) (sym step) small)
            ∙ ap (λ (v : ℕ). (v + total key rest) % word) step)
    ]

abbrev pub over : Option ℤ → Option ℕ → Option ℕ
over none counter = counter
over (some (pos value)) counter = some value
over (some (negsuc value)) counter = counter

lookup-with_gauges :
    (key : Bytes) (gauges : Dict ℤ) (result : Dict ℕ)
    → Unique gauges
    → lookup key (with_gauges gauges result) ≡ over (lookup key gauges) (lookup key result)
unfolding with_gauges lookup
lookup-with_gauges key [] result unique = refl
lookup-with_gauges key ((k, pos value) ∷ gauges) result unique = elim (Bool-cases (equal k key)) [
  | inl same ↦
      let absent : lookup key gauges ≡ none =
        subst (λ j. lookup j gauges ≡ none) ((equal_iff k key).0 same) unique.0 in
      lookup-with_gauges key gauges (insert k value result) unique.1
      ∙ rw (absent, lookup-insert k key value result, same) refl
  | inr apart ↦
      lookup-with_gauges key gauges (insert k value result) unique.1
      ∙ rw (lookup-insert k key value result, apart) refl
]
lookup-with_gauges key ((k, negsuc value) ∷ gauges) result unique =
    elim (Bool-cases (equal k key)) [
      | inl same ↦
          let absent : lookup key gauges ≡ none =
            subst (λ j. lookup j gauges ≡ none) ((equal_iff k key).0 same) unique.0 in
          lookup-with_gauges key gauges result unique.1 ∙ rw (absent, same) refl
      | inr apart ↦ lookup-with_gauges key gauges result unique.1 ∙ rw apart refl
    ]

-- A snapshot has the gauge of a key where it is there and not negative, and else the counter.
pub lookup-snapshot :
    (key : Bytes) (m : Metrics)
    → Unique m.gauges
    → lookup key (snapshot m) ≡ over (lookup key m.gauges) (lookup key m.counters)
unfolding snapshot
lookup-snapshot key m unique = lookup-with_gauges key m.gauges m.counters unique

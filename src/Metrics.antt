-- ===== src/Metrics.antt =====
-- Metrics of internal/sentryx/features.go: counters, which wrap at 64 bits, and gauges, each under the key
-- of its name and labels. A counter's cell is its value in the table. Writing out over HTTP is left out.
pub mod Totals
mod Tests
use crocuta.Prelude.{
  ℕ, ◌+◌, ◌%◌, Bool, not, List, [], ◌∷◌, ◌++◌, Option, none, some, if◌then◌else◌, ◌==◌, Bytes,
  codes, Dict, lookup, insert,
}
use crocuta.Prelude.Int.{ℤ, pos, negsuc, word, signed}
use crocuta.Query.Sort.{slice_stable, less_bytes}

pub record Metrics : Type 0 where
  pub counters : Dict ℕ
  pub gauges : Dict ℤ

abbrev pub new_metrics : Metrics
new_metrics = record { counters = []; gauges = [] }

-- strings.ReplaceAll(value, "\"", "\\\"")
unfoldable pub escape_quotes : Bytes → Bytes
escape_quotes [] = []
escape_quotes (c ∷ cs) =
    let rest = escape_quotes cs in if c == b'"' then b'\\' ∷ b'"' ∷ rest else c ∷ rest

abbrev pub label_keys : Dict Bytes → List Bytes
label_keys [] = []
label_keys ((key, value) ∷ labels) = key ∷ label_keys labels

abbrev pub label_value : Option Bytes → Bytes
label_value none = []
label_value (some value) = value

-- One label with its value in quotes.
abbrev pub label_text : Dict Bytes → Bytes → Bytes
label_text labels key =
    key ++ (b'=' ∷ b'"' ∷ (escape_quotes (label_value (lookup key labels)) ++ (b'"' ∷ [])))

unfoldable pub label_texts : Dict Bytes → List Bytes → Bytes
unfolding escape_quotes
label_texts labels [] = []
label_texts labels (key ∷ []) = label_text labels key
label_texts labels (key ∷ next ∷ keys) =
    label_text labels key ++ (b',' ∷ label_texts labels (next ∷ keys))

unfoldable pub metric_key : Bytes → Dict Bytes → Bytes
unfolding label_texts
metric_key name [] = name
metric_key name (label ∷ labels) =
    name
    ++ (b'{'
        ∷ (label_texts (label ∷ labels) (slice_stable less_bytes (label_keys (label ∷ labels)))
            ++ (b'}' ∷ [])))

abbrev pub cell_value : Option ℕ → ℕ
cell_value none = 0
cell_value (some value) = value

-- counter.Add(value) on the cell of the key, which is made if it is not there
unfoldable pub add_to : Bytes → ℕ → Metrics → Metrics
add_to key value m = record m {
  counters = insert key ((cell_value (lookup key m.counters) + value) % word) m.counters;
}

unfoldable pub add_counter : Metrics → Bytes → Dict Bytes → ℕ → Metrics
add_counter m name labels value = add_to (metric_key name labels) value m

unfoldable pub inc : Metrics → Bytes → Dict Bytes → Metrics
inc m name labels = add_to (metric_key name labels) 1 m

unfoldable pub set_gauge : Metrics → Bytes → Dict Bytes → ℤ → Metrics
set_gauge m name labels value = record m { gauges = insert (metric_key name labels) value m.gauges }

-- Set converts from uint64 to int64.
unfoldable pub set : Metrics → Bytes → Dict Bytes → ℕ → Metrics
set m name labels value = set_gauge m name labels (signed value)

abbrev pub with_gauge : Bytes → ℤ → Dict ℕ → Dict ℕ
with_gauge key (pos value) result = insert key value result
with_gauge key (negsuc value) result = result

-- The gauges that are not negative, over the counters.
unfoldable pub with_gauges : Dict ℤ → Dict ℕ → Dict ℕ
with_gauges [] result = result
with_gauges ((key, value) ∷ gauges) result = with_gauges gauges (with_gauge key value result)

unfoldable pub snapshot : Metrics → Dict ℕ
snapshot m = with_gauges m.gauges m.counters

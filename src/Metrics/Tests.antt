-- ===== src/Metrics/Tests.antt =====
-- The metrics of a concrete server.
use crocuta.Prelude.{◌+◌, ◌%◌, ◌≡◌, refl, [], ◌∷◌, codes, equal, arith, lookup}
use crocuta.Prelude.Int.{pos, word}
use crocuta.Query.Sort.{slice_stable, place, less_bytes}
use crocuta.Metrics.{Metrics, new_metrics, metric_key, label_texts, escape_quotes}
use crocuta.Metrics.Totals.{Addition, add_all, total, value_of, value_of-add_all}

abbrev dropped : Addition
dropped = record { name = codes "items"; labels = (codes "type", codes "log") ∷ []; value = 2 }

abbrev kept : Addition
kept = record { name = codes "items"; labels = []; value = 40 }

value_of-add_all_example :
    value_of (codes "items") (add_all new_metrics (kept ∷ dropped ∷ kept ∷ []))
    ≡ (0 + total (codes "items") (kept ∷ dropped ∷ kept ∷ [])) % word
unfolding lookup
value_of-add_all_example =
    value_of-add_all (codes "items") (kept ∷ dropped ∷ kept ∷ []) new_metrics (omega arith)

abbrev measured : Metrics
measured = record { counters = (codes "a", 3) ∷ []; gauges = (codes "a", pos 5) ∷ [] }

metric_key_test :
    metric_key (codes "m") ((codes "b", codes "x") ∷ (codes "a", codes "y") ∷ [])
    ≡ codes "m{a=\"y\",b=\"x\"}"
unfolding metric_key label_texts escape_quotes slice_stable place less_bytes lookup equal
metric_key_test = refl

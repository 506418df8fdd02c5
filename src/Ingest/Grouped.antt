-- ===== src/Ingest/Grouped.antt =====
-- Store.Ingest of internal/sentryx/app.go, over all items, and the issues of the groups.
use crocuta.Prelude.{
  ℕ, suc, ◌+◌, Bool, true, false, List, [], ◌∷◌, Option, none, some, if◌then◌else◌, Bytes,
}
use crocuta.Store.{Event}
use crocuta.Store.Ingest.{record_event}
use crocuta.Envelope.{EnvelopeItem, Parsed, ok, err, parse_envelope}
use crocuta.Ingest.{
  Outside, Settings, Server, stored_event, DiscardedEvent, Attachment, StoredSignal, Artifacts,
}
use crocuta.Ingest.Items.{
  ItemStep, panicked, stepped, with_tables, ingest_event, ingest_report, store_attachment,
  store_signal, ingest_item, ingest_items, ingest_parsed, ingest, Ingested, nil_issue, refused,
  ingested, file_attachment, file_binary, and_then, ingest_scrubbed,
}
use crocuta.Events.{CanonicalEvent}
use crocuta.Ingest.Issues.{IsGrouped, record_event-IsGrouped}

module _ (o : Outside) where
  -- The step went through, and each group has its issue.
  Passed : ItemStep o → Type 0
  Passed (panicked s) = ⊥
  Passed (stepped s new) = IsGrouped s.tables

  stepped-Passed : (s : Server o) (new : Bool) → IsGrouped s.tables → Passed (stepped s new)
  unfolding Passed
  stepped-Passed s new grouped = grouped

  abbrev pub IsRefusedOrGrouped : Ingested o → Type 0
  IsRefusedOrGrouped (nil_issue s) = ⊥
  IsRefusedOrGrouped (refused e) = Unit
  IsRefusedOrGrouped (ingested s count) = IsGrouped s.tables

  with_tables-Passed :
      (s : Server o) (e : Event) (g : Bytes) (now : ℕ)
      → IsGrouped s.tables
      → Passed (with_tables o s (record_event o.sha s.tables e g now))
  unfolding Passed
  with_tables-Passed s e g now grouped =
      let (t, new, done, all) = record_event-IsGrouped o.sha s.tables e g now grouped in rw done all

  ingest_event-Passed :
      (settings : Settings) (item : EnvelopeItem o.json) (now : ℕ) (s : Server o)
      (event : Option CanonicalEvent)
      → IsGrouped s.tables
      → Passed (ingest_event o settings item now s event)
  unfolding ingest_event Passed
  ingest_event-Passed settings item now s none grouped = grouped
  ingest_event-Passed settings item now s (some event) grouped =
      with_tables-Passed (record s { artifacts = _ }) (stored_event _) _ now grouped

  ingest_report-Passed :
      (id project_id : Bytes) (now : ℕ) (s : Server o)
      (report : Option (Bytes × List DiscardedEvent))
      → IsGrouped s.tables
      → Passed (ingest_report o id project_id now s report)
  unfolding ingest_report Passed
  ingest_report-Passed id project_id now s none grouped = grouped
  ingest_report-Passed id project_id now s (some (timestamp, discarded)) grouped = grouped

  file_attachment-Passed :
      (a : Attachment) (body : Bytes) (s : Server o) (put : Option (Option (Artifacts o)))
      → IsGrouped s.tables
      → Passed (file_attachment o a body s put)
  unfolding Passed
  file_attachment-Passed a body s none grouped = grouped
  file_attachment-Passed a body s (some none) grouped = grouped
  file_attachment-Passed a body s (some (some artifacts)) grouped = grouped

  file_binary-Passed :
      (signal : StoredSignal) (s : Server o) (put : Option (Option (Artifacts o)))
      → IsGrouped s.tables
      → Passed (file_binary o signal s put)
  unfolding Passed
  file_binary-Passed signal s none grouped = grouped
  file_binary-Passed signal s (some none) grouped = grouped
  file_binary-Passed signal s (some (some artifacts)) grouped = grouped

  if-Passed :
      (b : Bool) (left right : ItemStep o)
      → Passed left
      → Passed right
      → Passed (if b then left else right)
  if-Passed true left right h k = h
  if-Passed false left right h k = k

  ingest_item-Passed :
      (settings : Settings) (project_id : Bytes) (now : ℕ) (id : Bytes) (item : EnvelopeItem o.json)
      (s : Server o)
      → IsGrouped s.tables
      → Passed (ingest_item o settings project_id now id item s)
  unfolding ingest_item store_attachment store_signal
  ingest_item-Passed settings project_id now id item s grouped =
      search
        (
          if-Passed, ingest_event-Passed, ingest_report-Passed, file_attachment-Passed,
          file_binary-Passed, stepped-Passed,
        )
        depth 9

  and_then-IsGrouped :
      (step : ItemStep o) (continue : Server o → ℕ → Ingested o) (count : ℕ)
      → Passed step
      → ((s : Server o) (n : ℕ) → IsGrouped s.tables → IsRefusedOrGrouped (continue s n))
      → IsRefusedOrGrouped (and_then o step continue count)
  unfolding Passed
  and_then-IsGrouped (panicked s) continue count passed next = absurd passed
  and_then-IsGrouped (stepped s true) continue count passed next = next s (count + 1) passed
  and_then-IsGrouped (stepped s false) continue count passed next = next s count passed

  ingest_items-IsGrouped :
      (settings : Settings) (project_id : Bytes) (now : ℕ) (items : List (EnvelopeItem o.json))
      (s : Server o) (count : ℕ)
      → IsGrouped s.tables
      → IsRefusedOrGrouped (ingest_items o settings project_id now items s count)
  unfolding ingest_items
  ingest_items-IsGrouped settings project_id now [] s count grouped = grouped
  ingest_items-IsGrouped settings project_id now (item ∷ items) s count grouped =
      and_then-IsGrouped _ (ingest_items o settings project_id now items) count
        (ingest_item-Passed settings project_id now (o.random_id s.draws) item
          (record s { draws = suc s.draws }) grouped)
        (λ t k g. ingest_items-IsGrouped settings project_id now items t k g)

  ingest_parsed-IsGrouped :
      (settings : Settings) (project_id : Bytes) (now : ℕ) (s : Server o)
      (r : Parsed (List (EnvelopeItem o.json)))
      → IsGrouped s.tables
      → IsRefusedOrGrouped (ingest_parsed o settings project_id now s r)
  ingest_parsed-IsGrouped settings project_id now s (err e) grouped = tt
  ingest_parsed-IsGrouped settings project_id now s (ok items) grouped =
      ingest_items-IsGrouped settings project_id now items s 0 grouped

  ingest_scrubbed-IsGrouped :
      (settings : Settings) (project_id : Bytes) (now : ℕ) (s : Server o) (r : Parsed Bytes)
      → IsGrouped s.tables
      → IsRefusedOrGrouped (ingest_scrubbed o settings project_id now s r)
  ingest_scrubbed-IsGrouped settings project_id now s (err e) grouped = tt
  ingest_scrubbed-IsGrouped settings project_id now s (ok body) grouped =
      ingest_parsed-IsGrouped settings project_id now s (parse_envelope o.json body) grouped

  -- From a server in which each group has its issue, no envelope makes Ingest read an issue that is not there:
  -- Ingest refuses the envelope, or goes through all its items to a server in which each group has its issue
  -- again.
  pub ingest-IsGrouped :
      (settings : Settings) (project_id body : Bytes) (now : ℕ) (s : Server o)
      → IsGrouped s.tables
      → IsRefusedOrGrouped (ingest o settings project_id body now s)
  unfolding ingest
  ingest-IsGrouped settings project_id body now s grouped =
      ingest_scrubbed-IsGrouped settings project_id now s _ grouped

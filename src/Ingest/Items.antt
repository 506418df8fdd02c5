-- ===== src/Ingest/Items.antt =====
-- The items of an envelope in Store.Ingest of internal/sentryx/app.go, one function to each kind, and the loop
-- over them.
use crocuta.Prelude.{
  ℕ, suc, ◌+◌, Bool, true, false, ◌||◌, List, [], ◌∷◌, ◌++◌, Option, none, some, if◌then◌else◌, ltb,
  Bytes, codes, equal, insert, length,
}
use crocuta.Store.{Store}
use crocuta.Store.Digest.{hex_encode}
use crocuta.Store.Ingest.{record_event}
use crocuta.Envelope.{EnvelopeItem, EnvelopeError, Parsed, ok, err, parse_envelope}
use crocuta.Envelope.Policy.{is_extended_signal_type}
use crocuta.SourceMap.Artifacts.{is_nil, blob_path_segment}
use crocuta.Pii.Envelopes.{scrub_envelope}
use crocuta.Events.{CanonicalEvent}
use crocuta.Events.Decode.{decode_event}
use crocuta.Events.Parts.{or_text, occurred}
use crocuta.Events.Grouping.{grouping_hash_for_version}
use crocuta.Events.Scrubbing.{scrub_event_with_config}
use crocuta.Events.Symbolicate.{symbolicate}
use crocuta.Ingest.{
  Artifacts, Attachment, ClientReport, DiscardedEvent, Outside, Server, Settings, StoredSignal,
  default_max_blob_bytes, stored_event,
}

module _ (o : Outside) where
  -- What an item leaves, and whether it was accepted; or the server in front of the event that panics.
  pub data ItemStep : Type 0 where
    panicked : Server o → ItemStep
    stepped : Server o → Bool → ItemStep

  abbrev pub with_tables : Server o → Option (Store × Bool) → ItemStep
  with_tables s none = panicked s
  with_tables s (some (tables, new)) = stepped (record s { tables = tables }) new

  -- An event that is scrubbed and symbolicated, with the artifacts after that.
  abbrev pub record_symbolicated : Settings → Server o → ℕ → CanonicalEvent × Artifacts o → ItemStep
  record_symbolicated settings s now (event, artifacts) =
      with_tables (record s { artifacts = artifacts })
        (record_event o.sha s.tables (stored_event event)
          (grouping_hash_for_version o.paths o.rx o.sha o.read_exception event
            settings.grouping_version)
          now)

  unfoldable pub ingest_event :
      Settings → EnvelopeItem o.json → ℕ → Server o → Option CanonicalEvent → ItemStep
  ingest_event settings item now s none = stepped s false
  ingest_event settings item now s (some event) =
      let named = record event { event_id = or_text event.event_id item.event_id } in
      record_symbolicated settings s now (
        symbolicate o.paths o.wire o.blobs o.event_json
          (scrub_event_with_config o.rx named settings.pii) s.artifacts)

  unfoldable pub ingest_report :
      Bytes → Bytes → ℕ → Server o → Option (Bytes × List DiscardedEvent) → ItemStep
  ingest_report id project_id now s none = stepped s false
  ingest_report id project_id now s (some (timestamp, discarded)) =
      let report : ClientReport = record {
        id = id;
        project_id = project_id;
        received_at = now;
        timestamp = occurred o.event_json timestamp now;
        discarded_events = discarded;
      } in
      stepped (record s { reports = s.reports ++ (report ∷ []) }) true

  abbrev pub after_put : Artifacts o → Option o.blobs.Contents → Option (Option (Artifacts o))
  after_put artifacts none = none
  after_put artifacts (some contents) = some (some (record artifacts { blob = some contents }))

  -- Put, with the artifacts after it; no blob store is `none` inside.
  abbrev pub put_in :
      Bytes → Bytes → Artifacts o → Option o.blobs.Contents → Option (Option (Artifacts o))
  put_in key body artifacts none = some none
  put_in key body artifacts (some contents) = after_put artifacts (o.blobs.put key body contents)

  abbrev pub attachment_of : Bytes → Bytes → EnvelopeItem o.json → ℕ → Attachment
  attachment_of id project_id item now = record {
    id = id;
    project_id = project_id;
    event_id = item.event_id;
    filename = o.paths.base (or_text item.filename (codes "attachment-" ++ id));
    content_type = item.content_type;
    size = length item.payload;
    sha256 = hex_encode (o.sha.sum256 item.payload);
    blob_key = [];
    created_at = now;
  }

  abbrev pub attachment_blob_key : Attachment → Bytes
  attachment_blob_key a = o.paths.join_path (
      codes "attachments"
      ∷ blob_path_segment o.paths a.project_id
      ∷ blob_path_segment o.paths a.event_id
      ∷ a.id
      ∷ blob_path_segment o.paths a.filename
      ∷ [])

  -- The attachment with its body in the blob store, or in the table of bodies.
  abbrev pub file_attachment :
      Attachment → Bytes → Server o → Option (Option (Artifacts o)) → ItemStep
  file_attachment a body s none = stepped s false
  file_attachment a body s (some none) =
      stepped
        (record s {
          attachment_bodies = insert a.id body s.attachment_bodies;
          attachments = insert a.id a s.attachments;
        })
        true
  file_attachment a body s (some (some artifacts)) =
      stepped
        (record s {
          artifacts = artifacts;
          attachments = insert a.id (record a { blob_key = attachment_blob_key a }) s.attachments;
        })
        true

  unfoldable pub store_attachment : Bytes → Bytes → EnvelopeItem o.json → ℕ → Server o → ItemStep
  store_attachment id project_id item now s =
      let a = attachment_of id project_id item now in
      if is_nil item.payload || ltb default_max_blob_bytes (length item.payload)
      then stepped s false
      else file_attachment a item.payload s
          (put_in (attachment_blob_key a) item.payload s.artifacts s.artifacts.blob)

  abbrev pub signal_of : Bytes → Bytes → EnvelopeItem o.json → ℕ → StoredSignal
  signal_of id project_id item now = record {
    id = id;
    project_id = project_id;
    event_id = item.event_id;
    kind = item.type;
    received_at = now;
    payload = item.payload;
    schema = 1;
    content_type = item.content_type;
    size = length item.payload;
    blob_key = [];
  }

  abbrev pub signal_blob_key : StoredSignal → Bytes
  signal_blob_key signal =
      o.paths.join_path
        (codes "signals" ∷ blob_path_segment o.paths signal.project_id ∷ signal.id ∷ [])

  -- A binary signal wants a blob store.
  abbrev pub file_binary : StoredSignal → Server o → Option (Option (Artifacts o)) → ItemStep
  file_binary signal s (some (some artifacts)) =
      stepped (record s { artifacts = artifacts; signals = insert signal.id signal s.signals }) true
  file_binary signal s other = stepped s false

  unfoldable pub store_signal : Bytes → Bytes → EnvelopeItem o.json → ℕ → Server o → ItemStep
  store_signal id project_id item now s =
      let signal = signal_of id project_id item now in
      if o.is_json item.payload
      then stepped (record s { signals = insert signal.id signal s.signals }) true
      else file_binary
          (record signal { payload = codes "{\"binary\":true}"; blob_key = signal_blob_key signal })
          s (put_in (signal_blob_key signal) item.payload s.artifacts s.artifacts.blob)

  unfoldable pub ingest_item :
      Settings → Bytes → ℕ → Bytes → EnvelopeItem o.json → Server o → ItemStep
  ingest_item settings project_id now id item s =
      if equal item.type (codes "event") || equal item.type (codes "error")
      then ingest_event settings item now s
          (decode_event o.event_json id project_id item.payload now)
      else if equal item.type (codes "client_report")
      then ingest_report id project_id now s (o.read_report item.payload)
      else if equal item.type (codes "attachment")
      then store_attachment id project_id item now s
      else if is_extended_signal_type item.type
      then store_signal id project_id item now s
      else stepped s false

  pub data Ingested : Type 0 where
    nil_issue : Server o → Ingested
    refused : EnvelopeError → Ingested
    ingested : Server o → ℕ → Ingested

  abbrev pub and_then : ItemStep → (Server o → ℕ → Ingested) → ℕ → Ingested
  and_then (panicked s) continue count = nil_issue s
  and_then (stepped s true) continue count = continue s (count + 1)
  and_then (stepped s false) continue count = continue s count

  abbrev drawn : Server o → Server o
  drawn s = record s { draws = suc s.draws }

  -- The loop over the items, with a fresh random id for each.
  unfoldable pub ingest_items :
      Settings → Bytes → ℕ → List (EnvelopeItem o.json) → Server o → ℕ → Ingested
  ingest_items settings project_id now [] s count = ingested s count
  ingest_items settings project_id now (item ∷ items) s count =
      and_then (ingest_item settings project_id now (o.random_id s.draws) item (drawn s))
        (ingest_items settings project_id now items) count

  abbrev pub ingest_parsed :
      Settings → Bytes → ℕ → Server o → Parsed (List (EnvelopeItem o.json)) → Ingested
  ingest_parsed settings project_id now s (err e) = refused e
  ingest_parsed settings project_id now s (ok items) =
      ingest_items settings project_id now items s 0

  abbrev pub ingest_scrubbed : Settings → Bytes → ℕ → Server o → Parsed Bytes → Ingested
  ingest_scrubbed settings project_id now s (err e) = refused e
  ingest_scrubbed settings project_id now s (ok body) =
      ingest_parsed settings project_id now s (parse_envelope o.json body)

  unfoldable pub ingest : Settings → Bytes → Bytes → ℕ → Server o → Ingested
  ingest settings project_id body now s =
      ingest_scrubbed settings project_id now s
        (scrub_envelope o.json o.rx o.sha o.event_json.codec body settings.pii)

-- ===== src/Ingest.antt =====
-- Store.Ingest of internal/sentryx/app.go as a whole, from the bytes of an envelope to the tables of the
-- memory store: the tables here, the items in Items. The counters of the metrics are left out.
pub mod Items
pub mod Issues
pub mod Grouped
pub mod Lists
pub mod Attachments
pub mod Examples
mod Tests
use crocuta.Prelude.{
  ℕ, suc, ◌+◌, ◌*◌, ◌≢◌, Bool, true, false, ◌&&◌, ◌||◌, List, [], ◌∷◌, ◌++◌, Option, none, some,
  if◌then◌else◌, ltb, Bytes, codes, equal, Dict, lookup, insert, length,
}
use crocuta.Store.{User, Event, Store, new_store}
use crocuta.Store.Digest.{Sha, hex_encode}
use crocuta.Store.Ingest.{record_event}
use crocuta.Envelope.{Json, EnvelopeItem, EnvelopeError, Parsed, ok, err, parse_envelope}
use crocuta.Envelope.Policy.{is_extended_signal_type}
use crocuta.SourceMap.Parse.{Wire}
use crocuta.SourceMap.Artifacts.{
  Paths, BlobStore, ArtifactStore, is_nil, blob_path_segment, new_artifact_store,
}
use crocuta.Pii.{PiiConfig, Regexps}
use crocuta.Pii.Envelopes.{scrub_envelope}
use crocuta.Events.{CanonicalEvent, EventUser, ExceptionValue}
use crocuta.Events.Decode.{decode_event}
use crocuta.Events.Parts.{EventJson, or_text, occurred}
use crocuta.Events.Grouping.{grouping_hash_for_version}
use crocuta.Events.Scrubbing.{scrub_event_with_config}
use crocuta.Events.Symbolicate.{symbolicate}

pub record DiscardedEvent : Type 0 where
  pub reason : Bytes
  pub category : Bytes
  pub quantity : ℕ

pub record ClientReport : Type 0 where
  pub id : Bytes
  pub project_id : Bytes
  pub received_at : ℕ
  pub timestamp : ℕ
  pub discarded_events : List DiscardedEvent

pub record Attachment : Type 0 where
  pub id : Bytes
  pub project_id : Bytes
  pub event_id : Bytes
  pub filename : Bytes
  pub content_type : Bytes
  pub size : ℕ
  pub sha256 : Bytes
  pub blob_key : Bytes
  pub created_at : ℕ

pub record StoredSignal : Type 0 where
  pub id : Bytes
  pub project_id : Bytes
  pub event_id : Bytes
  pub kind : Bytes
  pub received_at : ℕ
  pub payload : Bytes
  pub schema : ℕ
  pub content_type : Bytes
  pub size : ℕ
  pub blob_key : Bytes

-- The code outside the repository that the ingestion calls.
pub record Outside : Type 1 where
  pub json : Json
  pub rx : Regexps
  pub paths : Paths
  pub wire : Bytes → Option Wire
  pub blobs : BlobStore
  pub event_json : EventJson
  pub sha : Sha
  -- Unmarshal into exceptionValue
  pub read_exception : Bytes → Option ExceptionValue
  -- Unmarshal of a client report: its timestamp and its discarded events
  pub read_report : Bytes → Option (Bytes × List DiscardedEvent)
  -- json.Valid
  pub is_json : Bytes → Bool
  -- the n-th random id that is drawn
  pub random_id : ℕ → Bytes

-- What a store is configured with.
pub record Settings : Type 0 where
  pub pii : PiiConfig
  pub grouping_version : Bytes

-- 25 << 20
abbrev pub default_max_blob_bytes : ℕ
default_max_blob_bytes = 25 * 1048576

abbrev pub stored_user : Option EventUser → Option User
stored_user none = none
stored_user (some u) = some (record { id = u.id; email = u.email })

-- The part of an event that storage and queries read.
unfoldable pub stored_event : CanonicalEvent → Event
stored_event e = record {
  project_id = e.project_id;
  event_id = e.event_id;
  received_at = e.received_at;
  level = e.level;
  release = e.release;
  environment = e.environment;
  title = e.title;
  tags = e.tags;
  user = stored_user e.user;
  issue_id = e.issue_id;
}

module _ (o : Outside) where
  abbrev pub Artifacts : Type 0
  Artifacts = ArtifactStore o.paths o.wire o.blobs

  pub record Server : Type 0 where
    pub tables : Store
    pub reports : List ClientReport
    pub attachments : Dict Attachment
    pub attachment_bodies : Dict Bytes
    pub signals : Dict StoredSignal
    pub artifacts : Artifacts
    -- how many random ids have been drawn
    pub draws : ℕ

  abbrev pub new_server : Server
  new_server = record {
    tables = new_store;
    reports = [];
    attachments = [];
    attachment_bodies = [];
    signals = [];
    artifacts = new_artifact_store o.paths o.wire o.blobs;
    draws = 0;
  }

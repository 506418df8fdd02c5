-- ===== src/Store.antt =====
-- internal/sentryx/app.go and features.go: the memory store. Times are nanoseconds after the zero
-- `time.Time`, which is 0. The lock makes each section that holds it atomic, so it is a function
-- from the store to the store. Event has the fields that storage and queries read; the rest of the
-- canonical event passes through them unchanged.
pub mod Digest
pub mod Ingest
pub mod Status
mod Tests
use crocuta.Prelude.{ℕ, Bool, List, [], Option, Bytes, Dict}

pub record User : Type 0 where
  pub id : Bytes
  pub email : Bytes

pub record Event : Type 0 where
  pub project_id : Bytes
  pub event_id : Bytes
  pub received_at : ℕ
  pub level : Bytes
  pub release : Bytes
  pub environment : Bytes
  pub title : Bytes
  pub tags : Dict Bytes
  pub user : Option User
  pub issue_id : Bytes

pub record Issue : Type 0 where
  pub id : Bytes
  pub project_id : Bytes
  pub title : Bytes
  pub level : Bytes
  pub count : ℕ
  pub users : ℕ
  pub first_seen : ℕ
  pub last_seen : ℕ
  pub latest_event : Bytes
  pub group_hash : Bytes
  pub status : Bytes
  pub status_changed_at : ℕ
  pub resolved_in_release : Bytes
  pub ignore_until : Option ℕ
  pub regression : Bool
  pub ignore_count : ℕ
  pub ignore_window : ℕ

-- The tables that the ingestion of error events reads and writes.
pub record Store : Type 0 where
  pub events : Dict Event
  pub issues : Dict Issue
  pub group_to_id : Dict Bytes

abbrev pub new_store : Store
new_store = record { events = []; issues = []; group_to_id = [] }

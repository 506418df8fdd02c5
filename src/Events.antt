-- ===== src/Events.antt =====
-- The canonical event of internal/sentryx/app.go. A JSON value is that of Pii/Scrub, a map that may be nil
-- is the absent one of its members, and a json.RawMessage that may be nil the absent one of its bytes.
pub mod Parts
pub mod Decode
pub mod Grouping
pub mod Scrubbing
pub mod Symbolicate
mod Tests
use crocuta.Prelude.{ℕ, List, Option, Bytes, Dict}
use crocuta.SourceMap.Position.{StackFrame}
use crocuta.Pii.Scrub.{Value, Members}

pub record EventUser : Type 0 where
  pub id : Bytes
  pub username : Bytes
  pub email : Bytes
  pub ip_address : Bytes
  pub name : Bytes

pub record EventRequest : Type 0 where
  pub url : Bytes
  pub method : Bytes
  pub headers : Option (Dict Bytes)
  pub query_string : Bytes
  pub data_value : Value
  pub fragments : Bytes

pub record Breadcrumb : Type 0 where
  pub timestamp : ℕ
  pub type : Bytes
  pub category : Bytes
  pub message : Bytes
  pub level : Bytes
  pub data_value : Option Members

pub record CanonicalEvent : Type 0 where
  pub project_id : Bytes
  pub event_id : Bytes
  pub occurred_at : ℕ
  pub received_at : ℕ
  pub platform : Bytes
  pub level : Bytes
  pub release : Bytes
  pub dist : Bytes
  pub environment : Bytes
  pub title : Bytes
  pub message : Bytes
  pub culprit : Bytes
  pub logger : Bytes
  pub transaction : Bytes
  pub server_name : Bytes
  pub fingerprint : List Bytes
  pub exception : Option Bytes
  pub stacktrace : Option Bytes
  pub mechanism : Option Bytes
  pub frames : List StackFrame
  pub symbolicated_frames : List StackFrame
  pub symbolication_status : Bytes
  pub tags : Dict Bytes
  pub extra : Option Members
  pub contexts : Option Members
  pub modules : Option (Dict Bytes)
  pub user : Option EventUser
  pub request : Option EventRequest
  pub breadcrumbs : List Breadcrumb
  pub sdk : Option Members
  pub debug_meta : Option Members
  pub raw : Members
  pub issue_id : Bytes

pub record ExceptionValue : Type 0 where
  pub type : Bytes
  pub value : Bytes
  pub frames : List StackFrame

-- ===== src/Events/Parts.antt =====
-- The parts of an event that decodeEvent of internal/sentryx/app.go reads from the JSON object, each with the
-- statements that write it, in their order. encoding/json and time.Parse are parameters.
use crocuta.Prelude.{
  ℕ, List, [], ◌∷◌, ◌++◌, Option, none, some, ◌>>=◌, if◌then◌else◌, Bytes, codes, Dict,
}
use crocuta.SourceMap.Position.{StackFrame}
use crocuta.Pii.Scrub.{
  Value, null, array, object, Elements, nil, element, Members, end, member, Codec, string_value,
}
use crocuta.Pii.Envelopes.{member_of, or_no_members}
use crocuta.Events.{EventUser, EventRequest, Breadcrumb, ExceptionValue}
use crocuta.Events.Grouping.{is_list_nil, last_frame}

-- encoding/json on the parts of an event, and time.Parse of RFC 3339.
pub record EventJson : Type 0 where
  pub codec : Codec
  -- Unmarshal into map[string]any
  pub unmarshal_map : Bytes → Option Members
  -- Unmarshal into exceptionValue: what it has filled in, whether or not it fails in the end
  pub exception_value : Bytes → ExceptionValue
  -- Unmarshal into the struct of the frames
  pub frames_value : Bytes → Option (List StackFrame)
  pub parse_time : Bytes → Option ℕ

abbrev pub or_no_elements : Option Elements → Elements
or_no_elements none = nil
or_no_elements (some vs) = vs

abbrev pub no_exception : ExceptionValue
no_exception = record { type = []; value = []; frames = [] }

abbrev pub as_object : Option Value → Option Members
as_object (some (object ms)) = some ms
as_object other = none

abbrev pub as_array : Option Value → Option Elements
as_array (some (array vs)) = some vs
as_array other = none

abbrev pub last_element : Elements → Option Value
last_element nil = none
last_element (element v nil) = some v
last_element (element v (element w vs)) = last_element (element w vs)

abbrev pub or_text : Bytes → Bytes → Bytes
or_text [] other = other
or_text (c ∷ s) other = c ∷ s

abbrev pub or_null : Option Value → Value
or_null none = null
or_null (some v) = v

abbrev pub place_of : StackFrame → Bytes
place_of f = f.function ++ (b'@' ∷ f.filename)

module _ (json : EventJson) where
  -- stringValue(raw[key])
  abbrev pub string_at : Bytes → Members → Bytes
  string_at key raw = string_value json.codec (or_null (member_of key raw))

  -- The last of the exception's values.
  abbrev pub last_exception : Members → Option Value
  last_exception raw = do
    exception ← as_object (member_of (codes "exception") raw)
    values ← as_array (member_of (codes "values") exception)
    last_element values

  abbrev pub encoded_exception : Members → Option Bytes
  encoded_exception raw = last_exception raw >>= json.codec.marshal

  abbrev pub exception_read : Option Bytes → ExceptionValue
  exception_read none = no_exception
  exception_read (some encoded) = json.exception_value encoded

  abbrev pub exception_in : Members → ExceptionValue
  exception_in raw = exception_read (encoded_exception raw)

  unfoldable pub message_of : Members → Bytes
  message_of raw = or_text (exception_in raw).value (
      or_text (string_at (codes "message") raw)
        (string_at (codes "formatted") (or_no_members (member_of (codes "logentry") raw))))

  abbrev pub culprit_from : List StackFrame → Bytes → Bytes
  culprit_from [] culprit = culprit
  culprit_from (f ∷ frames) culprit = place_of (last_frame f frames)

  unfoldable pub culprit_of : Members → Bytes
  culprit_of raw = culprit_from (exception_in raw).frames (string_at (codes "culprit") raw)

  abbrev pub encoded_stacktrace : Members → Option Bytes
  encoded_stacktrace raw = do
    stacktrace ← as_object (member_of (codes "stacktrace") raw)
    json.codec.marshal (object stacktrace)

  abbrev pub or_no_frames : Option (List StackFrame) → List StackFrame
  or_no_frames none = []
  or_no_frames (some frames) = frames

  unfoldable pub frames_of : Members → List StackFrame
  frames_of raw =
      (exception_in raw).frames ++ or_no_frames (encoded_stacktrace raw >>= json.frames_value)

  -- Of the event, or else of its last exception.
  abbrev pub mechanism_from : Option Value → Option Value → Option Bytes
  mechanism_from (some mechanism) other = json.codec.marshal mechanism
  mechanism_from none other = do
    ms ← as_object other
    mechanism ← member_of (codes "mechanism") ms
    json.codec.marshal mechanism

  unfoldable pub mechanism_of : Members → Option Bytes
  mechanism_of raw = mechanism_from (member_of (codes "mechanism") raw) (last_exception raw)

  abbrev pub user_from : Members → EventUser
  user_from ms = record {
    id = string_at (codes "id") ms;
    username = string_at (codes "username") ms;
    email = string_at (codes "email") ms;
    ip_address = string_at (codes "ip_address") ms;
    name = string_at (codes "name") ms;
  }

  abbrev pub user_of : Option Members → Option EventUser
  user_of none = none
  user_of (some ms) = some (user_from ms)

  unfoldable pub string_entries : Members → Dict Bytes
  string_entries end = []
  string_entries (member k v ms) = (k, string_value json.codec v) ∷ string_entries ms

  abbrev pub string_map_value : Option Members → Option (Dict Bytes)
  string_map_value none = none
  string_map_value (some ms) = some (string_entries ms)

  unfoldable pub decode_request : Members → EventRequest
  decode_request ms = record {
    url = string_at (codes "url") ms;
    method = string_at (codes "method") ms;
    headers = string_map_value (as_object (member_of (codes "headers") ms));
    query_string = string_at (codes "query_string") ms;
    data_value = or_null (member_of (codes "data") ms);
    fragments = string_at (codes "fragments") ms;
  }

  abbrev pub request_of : Option Members → Option EventRequest
  request_of none = none
  request_of (some ms) = some (decode_request ms)

  abbrev pub or_zero : Option ℕ → ℕ
  or_zero none = 0
  or_zero (some t) = t

  abbrev pub breadcrumb_from : Members → Breadcrumb
  breadcrumb_from ms = record {
    timestamp =
        if is_list_nil (string_at (codes "timestamp") ms)
        then 0
        else or_zero (json.parse_time (string_at (codes "timestamp") ms));
    type = string_at (codes "type") ms;
    category = string_at (codes "category") ms;
    message = string_at (codes "message") ms;
    level = string_at (codes "level") ms;
    data_value = as_object (member_of (codes "data") ms);
  }

  -- The entries that are objects.
  unfoldable pub decode_breadcrumbs : Elements → List Breadcrumb
  decode_breadcrumbs nil = []
  decode_breadcrumbs (element (object ms) vs) = breadcrumb_from ms ∷ decode_breadcrumbs vs
  decode_breadcrumbs (element v vs) = decode_breadcrumbs vs

  unfoldable pub breadcrumbs_of : Option Value → List Breadcrumb
  breadcrumbs_of (some (object ms)) =
      decode_breadcrumbs (or_no_elements (as_array (member_of (codes "values") ms)))
  breadcrumbs_of other = decode_breadcrumbs (or_no_elements (as_array other))

  unfoldable pub fingerprint_of : Elements → List Bytes
  fingerprint_of nil = []
  fingerprint_of (element v vs) = string_value json.codec v ∷ fingerprint_of vs

  abbrev pub occurred : Bytes → ℕ → ℕ
  occurred [] now = now
  occurred (c ∷ ts) now = elim (json.parse_time (c ∷ ts)) [ none ↦ now | some parsed ↦ parsed ]

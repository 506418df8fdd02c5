-- ===== src/Events/Tests.antt =====
-- The decoding and the grouping of events of internal/sentryx/app.go on concrete events.
use crocuta.Prelude.{
  ◌≡◌, ◌≢◌, refl, Bool, true, false, List, [], ◌∷◌, none, some, reverse, Bytes, codes, lookup,
  insert, equal, contains, has_prefix, to_lower, to_lower_byte,
}
use crocuta.Prelude.Int.{pos}
use crocuta.SourceMap.Position.{StackFrame}
use crocuta.Pii.Scrub.{text, object, Members, end, member, Codec}
use crocuta.Pii.Envelopes.{member_of}
use crocuta.Events.{CanonicalEvent}
use crocuta.Events.Decode.{decode_event, decode_fields, derive_event_tags, set_tags}
use crocuta.Events.Parts.{EventJson, no_exception, string_entries}
use crocuta.Events.Decode.Tags.{derive_event_tags-IsDerived, IsDerived}
use crocuta.Events.Decode.Identity.{decode_event-identified}
use crocuta.Events.Grouping.{
  grouping_frames, collect_frames, is_nameless, is_foreign, with_fallback, remove_from,
}
use crocuta.Events.Grouping.Frames.{chosen, grouping_frames-chosen}

abbrev plain_codec : Codec
plain_codec = record {
  unmarshal = λ s. some (text s);
  marshal = λ v. some [];
  sprint = λ v. codes "value";
}

abbrev visitor_fields : Members
visitor_fields = member (codes "message") (text (codes "boom")) (
    member (codes "release") (text (codes "1.2")) (
      member (codes "tags") (object (member (codes "release") (text (codes "beta")) end))
        (member (codes "user") (object (member (codes "email") (text (codes "a@b")) end)) end)))

abbrev plain_json : EventJson
plain_json = record {
  codec = plain_codec;
  unmarshal_map = λ payload. some visitor_fields;
  exception_value = λ encoded. no_exception;
  frames_value = λ encoded. none;
  parse_time = λ s. none;
}

abbrev visit : CanonicalEvent
visit = decode_fields plain_json (codes "id") (codes "1") 7 visitor_fields

-- The event's own tag for the release stays, and the user's address is added.
derived_tags :
    (derive_event_tags plain_json visit).tags
    ≡ (codes "release", codes "beta") ∷ (codes "user.id", codes "a@b") ∷ []
unfolding derive_event_tags decode_fields set_tags member_of string_entries lookup insert equal
derived_tags = refl

derive_event_tags-IsDerived_example :
    IsDerived plain_json visit (derive_event_tags plain_json visit).tags
derive_event_tags-IsDerived_example = derive_event_tags-IsDerived plain_json visit

decode_event-identified_example :
    (event : CanonicalEvent) × (decode_event plain_json (codes "id") (codes "1") (codes "{}") 7
      ≡ some event)
    × (event.event_id ≢ [])
    × (event.title ≢ [])
    × (event.project_id ≡ codes "1")
    × (event.received_at ≡ 7)
    × (event.issue_id ≡ [])
decode_event-identified_example =
    decode_event-identified plain_json (codes "id") (codes "1") (codes "{}") 7 visitor_fields
      (λ e. cc) refl

abbrev frame_at : Bytes → Bool → StackFrame
frame_at filename in_app = record {
  filename = filename;
  abs_path = [];
  function = codes "run";
  lineno = pos 1;
  colno = pos 0;
  in_app = in_app;
  context_line = [];
  pre_context = [];
  post_context = [];
}

abbrev frames : List StackFrame
frames =
    frame_at (codes "main.js") true
    ∷ frame_at (codes "node_modules/x.js") true
    ∷ frame_at (codes "view.js") true
    ∷ frame_at (codes "lib.js") false
    ∷ []

own_frames :
    grouping_frames frames ≡ frame_at (codes "main.js") true ∷ frame_at (codes "view.js") true ∷ []
unfolding grouping_frames collect_frames is_nameless is_foreign with_fallback contains has_prefix
    to_lower to_lower_byte
own_frames = refl

grouping_frames-chosen_example : grouping_frames frames ≡ reverse (chosen (reverse frames))
grouping_frames-chosen_example = grouping_frames-chosen frames

removed : remove_from (codes "ab") 0 (codes "xababy") ≡ codes "xy"
unfolding remove_from has_prefix
removed = refl

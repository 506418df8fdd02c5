-- ===== src/Events/Symbolicate.antt =====
-- Store.symbolicate of internal/sentryx/app.go: the frames of an event, looked up in the artifact store.
use crocuta.Prelude.{
  ◌||◌, List, [], ◌∷◌, ◌++◌, Option, none, some, if◌then◌else◌, Bytes, codes, equal,
}
use crocuta.SourceMap.Parse.{Wire}
use crocuta.SourceMap.Position.{StackFrame}
use crocuta.SourceMap.Artifacts.{
  Paths, BlobStore, ArtifactStore, is_nil, lookup_debug_id, lookup_frame,
}
use crocuta.Pii.Scrub.{object, Elements, nil, element, Members}
use crocuta.Pii.Envelopes.{member_of}
use crocuta.Events.{CanonicalEvent}
use crocuta.Events.Grouping.{is_list_nil}
use crocuta.Events.Parts.{EventJson, as_array, or_no_elements, or_text, place_of, string_at}

-- The first image that has a debug id.
unfoldable pub image_debug_id : EventJson → Elements → Bytes
image_debug_id json nil = []
image_debug_id json (element (object image) vs) =
    or_text (string_at json (codes "debug_id") image) (image_debug_id json vs)
image_debug_id json (element v vs) = image_debug_id json vs

unfoldable pub debug_id_from_meta : EventJson → Option Members → Bytes
debug_id_from_meta json none = []
debug_id_from_meta json (some debug_meta) =
    or_text (string_at json (codes "debug_id") debug_meta)
      (image_debug_id json (or_no_elements (as_array (member_of (codes "images") debug_meta))))

module _ (paths : Paths) (unmarshal : Bytes → Option Wire) (blobs : BlobStore) where
  -- By the debug id, where there is one, or else by the release.
  abbrev pub or_release :
      Option StackFrame
      → CanonicalEvent
      → StackFrame
      → ArtifactStore paths unmarshal blobs
      → Option StackFrame × ArtifactStore paths unmarshal blobs
  or_release (some mapped) event f a = (some mapped, a)
  or_release none event f a =
      lookup_frame paths unmarshal blobs event.project_id event.release event.dist f.filename
        f.lineno f.colno a

  unfoldable pub find_frame :
      Bytes
      → CanonicalEvent
      → StackFrame
      → ArtifactStore paths unmarshal blobs
      → Option StackFrame × ArtifactStore paths unmarshal blobs
  find_frame debug_id event f a =
      or_release
        (if is_nil debug_id
          then none
          else lookup_debug_id paths unmarshal blobs event.project_id debug_id f.lineno f.colno a)
        event f a

  abbrev pub culprit_after : Bytes → StackFrame → StackFrame → Bytes
  culprit_after culprit f mapped =
      if is_nil culprit || equal culprit (place_of f) then place_of mapped else culprit

  abbrev pub add_mapped : CanonicalEvent → StackFrame → Option StackFrame → CanonicalEvent
  add_mapped event f none = event
  add_mapped event f (some mapped) = record event {
    symbolicated_frames = event.symbolicated_frames ++ (mapped ∷ []);
    culprit = culprit_after event.culprit f mapped;
  }

  -- The loop over the frames.
  unfoldable pub symbolicate_frames :
      Bytes
      → List StackFrame
      → CanonicalEvent
      → ArtifactStore paths unmarshal blobs
      → CanonicalEvent × ArtifactStore paths unmarshal blobs
  symbolicate_frames debug_id [] event a = (event, a)
  symbolicate_frames debug_id (f ∷ fs) event a =
      let r = find_frame debug_id event f a in
      symbolicate_frames debug_id fs (add_mapped event f r.0) r.1

  abbrev pub with_outcome :
      CanonicalEvent × ArtifactStore paths unmarshal blobs
      → CanonicalEvent × ArtifactStore paths unmarshal blobs
  with_outcome (event, a) = (
    record event {
      symbolication_status =
          if is_list_nil event.symbolicated_frames then codes "miss" else codes "symbolicated";
    },
    a,
  )

  unfoldable pub symbolicate :
      EventJson
      → CanonicalEvent
      → ArtifactStore paths unmarshal blobs
      → CanonicalEvent × ArtifactStore paths unmarshal blobs
  symbolicate json event a =
      if is_nil event.release || is_list_nil event.frames
      then (record event { symbolication_status = codes "not_attempted" }, a)
      else with_outcome
          (symbolicate_frames (debug_id_from_meta json event.debug_meta) event.frames event a)

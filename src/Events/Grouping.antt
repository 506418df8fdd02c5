-- ===== src/Events/Grouping.antt =====
-- GroupingHashForVersion, groupingHashV1 and groupingFrames of internal/sentryx/app.go, and how they
-- normalize messages and paths.
pub mod Frames
use crocuta.Prelude.{
  ℕ, zero, suc, ◌-◌, Bool, true, false, not, ◌&&◌, ◌||◌, List, [], ◌∷◌, ◌++◌, Option, none, some,
  reverse, if◌then◌else◌, ltb, ◌==◌, Bytes, codes, equal, to_lower, trim_space, trim_suffix,
  has_prefix, contains, join, fields, length, map,
}
use crocuta.Store.Digest.{Sha, short_hash}
use crocuta.SourceMap.Position.{StackFrame}
use crocuta.SourceMap.Artifacts.{Paths, or_value}
use crocuta.Pii.{Regexps}
use crocuta.Events.{CanonicalEvent, ExceptionValue}

abbrev pub is_list_nil {ℓ} : {A : Type ℓ} → List A → Bool
is_list_nil [] = true
is_list_nil (x ∷ xs) = false

-- strings.ReplaceAll(value, part, ""), with the bytes of a match that are still to be passed over.
unfoldable pub remove_from : Bytes → ℕ → Bytes → Bytes
remove_from part skip [] = []
remove_from part (suc skip) (c ∷ cs) = remove_from part skip cs
remove_from part zero (c ∷ cs) = elim (has_prefix (c ∷ cs) part) [
  | true ↦ remove_from part (length part - 1) cs
  | false ↦ c ∷ remove_from part zero cs
]

-- strings.ReplaceAll(value, "\\", "/")
abbrev pub forward_slashes : Bytes → Bytes
forward_slashes = map (λ c. if c == b'\\' then b'/' else c)

unfoldable pub contains_default : List Bytes → Bool
contains_default [] = false
contains_default (value ∷ values) = equal value (codes "{{ default }}") || contains_default values

unfoldable pub is_nameless : StackFrame → Bool
is_nameless f = is_list_nil f.filename && is_list_nil f.function

-- A frame of a library.
unfoldable pub is_foreign : StackFrame → Bool
is_foreign f =
    let filename = to_lower (f.filename ++ (b' ' ∷ f.abs_path)) in
    not f.in_app
    || contains filename (codes "node_modules/")
    || contains filename (codes "webpack-internal:///")

unfoldable pub with_fallback : List StackFrame → StackFrame → List StackFrame
with_fallback fallback f = if ltb (length fallback) 3 then fallback ++ (f ∷ []) else fallback

-- The loop over the frames, from the last one on: `result` and `fallback`.
unfoldable pub collect_frames :
    List StackFrame → List StackFrame → List StackFrame → List StackFrame × List StackFrame
collect_frames [] result fallback = (result, fallback)
collect_frames (f ∷ fs) result fallback =
    if not (ltb (length result) 3)
    then (result, fallback)
    else if is_nameless f
    then collect_frames fs result fallback
    else if is_foreign f
    then collect_frames fs result (with_fallback fallback f)
    else collect_frames fs (result ++ (f ∷ [])) (with_fallback fallback f)

abbrev pub or_fallback : List StackFrame × List StackFrame → List StackFrame
or_fallback ([], fallback) = fallback
or_fallback (f ∷ result, fallback) = f ∷ result

unfoldable pub grouping_frames : List StackFrame → List StackFrame
grouping_frames frames = reverse (or_fallback (collect_frames (reverse frames) [] []))

abbrev pub last_frame : StackFrame → List StackFrame → StackFrame
last_frame f [] = f
last_frame f (g ∷ fs) = last_frame g fs

module _ (paths : Paths) where
  unfoldable pub normalize_path_v1 : Bytes → Bytes
  normalize_path_v1 value =
      forward_slashes (trim_suffix (or_value (paths.url_path value) value) (codes ".js"))

  module _ (rx : Regexps) where
    unfoldable pub normalize_message : Bytes → Bytes
    normalize_message message =
        let uuids =
          rx.replace_all_string (rx.must_compile (codes "(?i)\\b[0-9a-f]{8}-[0-9a-f-]{27,}\\b"))
            message (codes "<uuid>") in
        let urls =
          rx.replace_all_string (rx.must_compile (codes "https?://[^\\s]+")) uuids
            (codes "<url>") in
        let numbers =
          rx.replace_all_string (rx.must_compile (codes "\\b[0-9a-fA-F]{8,}\\b|\\b\\d{2,}\\b")) urls
            (codes "<n>") in
        join (codes " ") (fields numbers)

    unfoldable pub normalize_path : Bytes → Bytes
    normalize_path value =
        let path = or_value (paths.url_path value) value in
        let stem =
          trim_suffix (trim_suffix (trim_suffix path (codes ".js")) (codes ".mjs"))
            (codes ".cjs") in
        let unhashed =
          rx.replace_all_string (rx.must_compile (codes "(?i)([._-])[0-9a-f]{8,}(\\.[a-z0-9]+)?$"))
            (forward_slashes stem) (codes "$1$2") in
        remove_from (codes "webpack-internal:///") zero (trim_suffix unhashed (codes "."))

    -- The parts of the frames.
    unfoldable pub frame_parts : List StackFrame → List Bytes
    frame_parts [] = []
    frame_parts (f ∷ fs) = normalize_path f.filename ∷ trim_space f.function ∷ frame_parts fs

    abbrev pub frames_or : List StackFrame → List StackFrame → List StackFrame
    frames_or [] other = other
    frames_or (f ∷ fs) other = f ∷ fs

    -- The parts of an exception, where it is read without an error.
    abbrev pub exception_parts : Option ExceptionValue → List StackFrame → List Bytes
    exception_parts none symbolicated = []
    exception_parts (some ex) symbolicated =
        ex.type ∷ frame_parts (grouping_frames (frames_or symbolicated ex.frames))

    abbrev pub culprit_parts : (Bytes → Bytes) → Bytes → List Bytes
    culprit_parts normalize [] = []
    culprit_parts normalize (c ∷ culprit) = normalize (c ∷ culprit) ∷ []

    abbrev pub v1_parts : StackFrame → List Bytes
    v1_parts f = normalize_path_v1 f.filename ∷ f.function ∷ []

    -- The loop of the first version, from the last frame on, up to a frame of the application or the last
    -- frame itself.
    unfoldable pub v1_frame : Bool → List StackFrame → List Bytes
    v1_frame is_last [] = []
    v1_frame is_last (f ∷ fs) = if f.in_app || is_last then v1_parts f else v1_frame false fs

    module _ (sha : Sha) (read_exception : Bytes → Option ExceptionValue) where
      abbrev pub exception_of : CanonicalEvent → Option ExceptionValue
      exception_of event = elim event.exception [ none ↦ none | some raw ↦ read_exception raw ]

      abbrev pub v1_hash : List Bytes → List Bytes → Bytes
      v1_hash parts culprit = short_hash sha (join (0 ∷ []) (parts ++ culprit))

      abbrev pub v1_of : List Bytes → List Bytes → Option ExceptionValue → List StackFrame → Bytes
      v1_of parts culprit none symbolicated = v1_hash parts culprit
      v1_of parts culprit (some ex) (f ∷ symbolicated) =
          v1_hash (parts ++ (ex.type ∷ v1_parts (last_frame f symbolicated))) []
      v1_of parts culprit (some ex) [] =
          v1_hash (parts ++ (ex.type ∷ v1_frame true (reverse ex.frames))) culprit

      unfoldable pub grouping_hash_v1 : CanonicalEvent → Bytes
      grouping_hash_v1 event =
          v1_of (codes "v1" ∷ event.platform ∷ normalize_message event.message ∷ [])
            (culprit_parts normalize_path_v1 event.culprit) (exception_of event)
            event.symbolicated_frames

      unfoldable pub grouping_parts : CanonicalEvent → Bytes → List Bytes
      grouping_parts event version =
          (version ∷ event.platform ∷ normalize_message event.message ∷ [])
          ++ (exception_parts (exception_of event) event.symbolicated_frames
              ++ culprit_parts normalize_path event.culprit)

      unfoldable pub grouping_hash_for_version : CanonicalEvent → Bytes → Bytes
      grouping_hash_for_version event version =
          if not (is_list_nil event.fingerprint) && not (contains_default event.fingerprint)
          then codes "fp:" ++ join (codes "|") event.fingerprint
          else if equal version (codes "v1") || equal version (codes "1")
          then grouping_hash_v1 event
          else short_hash sha (join (0 ∷ []) (grouping_parts event version))

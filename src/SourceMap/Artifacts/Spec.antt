-- ===== src/SourceMap/Artifacts/Spec.antt =====
-- The abstract artifact store that internal/sentryx/sourcemap.go is compared with, a function from artifacts
-- to source maps, and runs of commands on both.
use crocuta.Prelude.{Bool, false, ◌||◌, List, [], ◌∷◌, Option, none, some, if◌then◌else◌, Bytes}
use crocuta.Prelude.Int.{ℤ}
use crocuta.SourceMap.Parse.{Wire, ParsedMap, parsed, failed, parse_source_map}
use crocuta.SourceMap.Position.{SourceMap, StackFrame}
use crocuta.SourceMap.Artifacts.{
  Paths, BlobStore, ArtifactStore, UploadError, bad_map, is_kept_map, or_map, mapped,
  normalize_artifact_name, upload, delete_artifact, lookup_frame,
}
use crocuta.SourceMap.Artifacts.Keys.{ArtifactId, IsPlain, same_id, id_for, places}

pub data Command : Type 0 where
  to_upload : Bytes → Bytes → Bytes → Bytes → Bytes → Command
  to_delete : Bytes → Bytes → Bytes → Bytes → Command
  to_lookup : Bytes → Bytes → Bytes → Bytes → ℤ → ℤ → Command

pub data Answer : Type 0 where
  uploaded : Option UploadError → Answer
  deleted : Bool → Answer
  frame : Option StackFrame → Answer

-- The project, the release and the distribution have no zero byte.
abbrev pub IsPlainCommand : Command → Type 0
IsPlainCommand (to_upload p r d name body) = IsPlain p × IsPlain r × IsPlain d
IsPlainCommand (to_delete p r d name) = IsPlain p × IsPlain r × IsPlain d
IsPlainCommand (to_lookup p r d file line column) = IsPlain p × IsPlain r × IsPlain d

-- The abstract store.
abbrev pub View : Type 0
View = ArtifactId → Option SourceMap

abbrev pub is_among : ArtifactId → List ArtifactId → Bool
is_among id [] = false
is_among id (i ∷ ids) = same_id i id || is_among id ids

abbrev pub any_map : List ArtifactId → View → Bool
any_map [] v = false
any_map (i ∷ ids) v = is_kept_map (v i) || any_map ids v

abbrev pub first_view : List ArtifactId → View → Option SourceMap
first_view [] v = none
first_view (i ∷ ids) v = or_map (v i) (first_view ids v)

abbrev pub viewed_upload : ArtifactId → View → ParsedMap → View × Answer
viewed_upload id v (failed e) = (v, uploaded (some (bad_map e)))
viewed_upload id v (parsed m) = (λ q. if same_id id q then some m else v q, uploaded none)

abbrev pub put_view : ArtifactId → SourceMap → View → View
put_view id m v = λ q. if same_id id q then some m else v q

abbrev pub drop_view : List ArtifactId → View → View
drop_view ids v = λ q. if is_among q ids then none else v q

module _ (paths : Paths) (unmarshal : Bytes → Option Wire) where
  -- The abstract operations: what a command leaves and answers.
  unfoldable pub viewed : View → Command → View × Answer
  viewed v (to_upload p r d name body) =
      viewed_upload (id_for paths p r d name) v (parse_source_map (unmarshal body))
  viewed v (to_delete p r d name) =
      let ids = places paths p r d (normalize_artifact_name paths name) in
      (drop_view ids v, deleted (any_map ids v))
  viewed v (to_lookup p r d file line column) =
      (v, frame (mapped (first_view (places paths p r d file) v) line column))

  unfoldable pub replay : View → List Command → List Answer
  unfolding viewed
  replay v [] = []
  replay v (c ∷ cs) = let r = viewed v c in r.1 ∷ replay r.0 cs

  module _ (blobs : BlobStore) where
    abbrev pub uploaded_to :
        ArtifactStore paths unmarshal blobs × Option UploadError
        → ArtifactStore paths unmarshal blobs × Answer
    uploaded_to (a, e) = (a, uploaded e)

    abbrev pub deleted_from :
        ArtifactStore paths unmarshal blobs × Bool → ArtifactStore paths unmarshal blobs × Answer
    deleted_from (a, b) = (a, deleted b)

    abbrev pub found_in :
        Option StackFrame × ArtifactStore paths unmarshal blobs
        → ArtifactStore paths unmarshal blobs × Answer
    found_in (f, a) = (a, frame f)

    abbrev pub serve :
        ArtifactStore paths unmarshal blobs → Command → ArtifactStore paths unmarshal blobs × Answer
    serve a (to_upload p r d name body) =
        uploaded_to (upload paths unmarshal blobs p r d name body a)
    serve a (to_delete p r d name) =
        deleted_from (delete_artifact paths unmarshal blobs p r d name a)
    serve a (to_lookup p r d file line column) =
        found_in (lookup_frame paths unmarshal blobs p r d file line column a)

    unfoldable pub run : ArtifactStore paths unmarshal blobs → List Command → List Answer
    run a [] = []
    run a (c ∷ cs) = let r = serve a c in r.1 ∷ run r.0 cs

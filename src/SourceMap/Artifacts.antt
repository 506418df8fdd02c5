-- ===== src/SourceMap/Artifacts.antt =====
-- ArtifactStore of internal/sentryx/sourcemap.go without a database. Go's packages path and net/url,
-- encoding/json and the BlobStore are parameters.
pub mod Keys
pub mod Spec
pub mod Tables
pub mod Refines
mod Tests
use crocuta.Prelude.{
  ℕ, Bool, true, false, not, ◌&&◌, ◌||◌, List, [], ◌∷◌, ◌++◌, Option, none, some, if◌then◌else◌,
  Bytes, codes, equal, Dict, lookup, insert, delete, split, trim_prefix, trim_space, to_lower,
}
use crocuta.Prelude.Int.{ℤ}
use crocuta.SourceMap.Parse.{Wire, ParsedMap, ParseError, parsed, failed, parse_source_map}
use crocuta.SourceMap.Position.{SourceMap, StackFrame, map_position}

-- Of url.Parse the Path, path.Clean, path.Base, path.Join and url.PathEscape.
pub record Paths : Type 0 where
  pub url_path : Bytes → Option Bytes
  pub clean : Bytes → Bytes
  pub base : Bytes → Bytes
  pub join_path : List Bytes → Bytes
  pub path_escape : Bytes → Bytes

-- A blob store with its contents.
pub record BlobStore : Type 1 where
  pub Contents : Type 0
  pub put : Bytes → Bytes → Contents → Option Contents
  pub get : Bytes → Contents → Option Bytes

pub data UploadError : Type 0 where
  bad_map : ParseError → UploadError
  put_failed : UploadError

pub record ArtifactInfo : Type 0 where
  pub project_id : Bytes
  pub release : Bytes
  pub dist : Bytes
  pub name : Bytes

abbrev pub is_nil : Bytes → Bool
is_nil [] = true
is_nil (c ∷ s) = false

abbrev pub or_value : Option Bytes → Bytes → Bytes
or_value none value = value
or_value (some []) value = value
or_value (some (c ∷ s)) value = c ∷ s

abbrev pub is_kept_map : Option SourceMap → Bool
is_kept_map none = false
is_kept_map (some m) = true

-- One key: whether it is there, and the loop over the keys behind it.
abbrev pub delete_found :
    Option SourceMap
    → Bytes
    → (Dict SourceMap → Dict SourceMap × Bool)
    → Dict SourceMap
    → Dict SourceMap × Bool
delete_found none k behind m = behind m
delete_found (some found) k behind m = ((behind (delete k m)).0, true)

-- delete(m, k) for each key that is there, and whether one was.
unfoldable pub delete_all : List Bytes → Dict SourceMap → Dict SourceMap × Bool
delete_all [] m = (m, false)
delete_all (k ∷ ks) m = delete_found (lookup k m) k (delete_all ks) m

abbrev pub or_map : Option SourceMap → Option SourceMap → Option SourceMap
or_map (some m) other = some m
or_map none other = other

-- The first of the keys that is there.
unfoldable pub first_map : List Bytes → Dict SourceMap → Option SourceMap
first_map [] m = none
first_map (k ∷ ks) m = or_map (lookup k m) (first_map ks m)

-- The four parts of a key that belongs to the project and the release, where these are asked for.
abbrev pub info_of : Bytes → Bytes → List Bytes → Option ArtifactInfo
info_of project release (p ∷ r ∷ d ∷ n ∷ []) =
    if (not (is_nil project) && not (equal p project))
      || (not (is_nil release) && not (equal r release))
    then none
    else some (record { project_id = p; release = r; dist = d; name = n })
info_of project release other = none

abbrev pub onto_infos : Option ArtifactInfo → List ArtifactInfo → List ArtifactInfo
onto_infos none infos = infos
onto_infos (some info) infos = info ∷ infos

unfoldable pub list_infos : Bytes → Bytes → Dict SourceMap → List ArtifactInfo
list_infos project release [] = []
list_infos project release ((key, m) ∷ artifacts) =
    onto_infos (info_of project release (split 0 key)) (list_infos project release artifacts)

abbrev pub is_of_project : Bytes → List Bytes → Bool
is_of_project project (p ∷ r ∷ d ∷ n ∷ []) = equal p project
is_of_project project other = false

-- The first map of the project with the debug id.
unfoldable pub with_debug_id : Bytes → Bytes → Dict SourceMap → Option SourceMap
with_debug_id project debug_id [] = none
with_debug_id project debug_id ((key, m) ∷ artifacts) =
    if is_of_project project (split 0 key) && equal (to_lower m.debug_id) debug_id
    then some m
    else with_debug_id project debug_id artifacts

abbrev pub mapped : Option SourceMap → ℤ → ℤ → Option StackFrame
mapped none line column = none
mapped (some m) line column = map_position m line column

module _ (paths : Paths) where
  unfoldable pub normalize_artifact_name : Bytes → Bytes
  normalize_artifact_name value =
      paths.clean
        (trim_prefix (trim_prefix (or_value (paths.url_path value) value) (codes "~/")) (codes "/"))

  unfoldable pub artifact_key : Bytes → Bytes → Bytes → Bytes → Bytes
  artifact_key project release dist name =
      project ++ (0 ∷ (release ++ (0 ∷ (dist ++ (0 ∷ normalize_artifact_name name)))))

  -- With the distribution, and then without one.
  abbrev pub keys_for : Bytes → Bytes → Bytes → Bytes → List Bytes
  keys_for project release dist name =
      artifact_key project release dist name
      ∷ (if is_nil dist then [] else artifact_key project release [] name ∷ [])

  abbrev pub is_shorter : Bytes → Bytes → Bool
  is_shorter base name =
      not (equal base (codes ".")) && not (equal base (codes "/")) && not (equal base name)

  unfoldable pub artifact_candidates : Bytes → Bytes → Bytes → Bytes → List Bytes
  artifact_candidates project release dist filename =
      let name = normalize_artifact_name filename in
      let base = paths.base name in
      keys_for project release dist name
      ++ (if is_shorter base name then keys_for project release dist base else [])

  abbrev pub blob_path_segment : Bytes → Bytes
  blob_path_segment [] = codes "_"
  blob_path_segment (c ∷ value) = paths.path_escape (c ∷ value)

  unfoldable pub artifact_blob_key : Bytes → Bytes → Bytes → Bytes → Bytes
  artifact_blob_key project release dist name = paths.join_path (
      codes "sourcemaps"
      ∷ blob_path_segment project
      ∷ blob_path_segment release
      ∷ blob_path_segment dist
      ∷ blob_path_segment (normalize_artifact_name name)
      ∷ [])

  module _ (unmarshal : Bytes → Option Wire) (blobs : BlobStore) where
    pub record ArtifactStore : Type 0 where
      pub artifacts : Dict SourceMap
      pub blob : Option blobs.Contents

    unfoldable pub new_artifact_store : ArtifactStore
    new_artifact_store = record { artifacts = []; blob = none }

    abbrev pub cache : Bytes → SourceMap → ArtifactStore → ArtifactStore
    cache key m a = record a { artifacts = insert key m a.artifacts }

    -- Put, where there is a blob store.
    abbrev pub put_blob : Bytes → Bytes → Option blobs.Contents → Option (Option blobs.Contents)
    put_blob key body none = some none
    put_blob key body (some contents) = elim (blobs.put key body contents) [
      | none ↦ none
      | some after ↦ some (some after)
    ]

    abbrev pub store_map :
        Bytes
        → SourceMap
        → ArtifactStore
        → Option (Option blobs.Contents)
        → ArtifactStore × Option UploadError
    store_map key m a none = (a, some put_failed)
    store_map key m a (some blob) = (cache key m (record a { blob = blob }), none)

    abbrev pub upload_map :
        Bytes → Bytes → Bytes → ParsedMap → ArtifactStore → ArtifactStore × Option UploadError
    upload_map blob_key key body (failed e) a = (a, some (bad_map e))
    upload_map blob_key key body (parsed m) a = store_map key m a (put_blob blob_key body a.blob)

    unfoldable pub upload :
        Bytes → Bytes → Bytes → Bytes → Bytes → ArtifactStore → ArtifactStore × Option UploadError
    upload project release dist name body a =
        upload_map (artifact_blob_key project release dist (normalize_artifact_name name))
          (artifact_key project release dist name) body (parse_source_map (unmarshal body)) a

    unfoldable pub lookup_debug_id : Bytes → Bytes → ℤ → ℤ → ArtifactStore → Option StackFrame
    lookup_debug_id project debug_id line column a =
        if is_nil (to_lower (trim_space debug_id))
        then none
        else mapped (with_debug_id project (to_lower (trim_space debug_id)) a.artifacts) line column

    unfoldable pub list_artifacts : Bytes → Bytes → ArtifactStore → List ArtifactInfo
    list_artifacts project release a = list_infos project release a.artifacts

    unfoldable pub delete_artifact :
        Bytes → Bytes → Bytes → Bytes → ArtifactStore → ArtifactStore × Bool
    delete_artifact project release dist name a =
        let r =
          delete_all (artifact_candidates project release dist (normalize_artifact_name name))
            a.artifacts in
        (record a { artifacts = r.0 }, r.1)

    -- The blob of a key of four parts, where it is a source map.
    abbrev pub blob_of : List Bytes → blobs.Contents → Option Bytes
    blob_of (p ∷ r ∷ d ∷ n ∷ []) contents = blobs.get (artifact_blob_key p r d n) contents
    blob_of other contents = none

    abbrev pub map_of_blob : Option Bytes → Option SourceMap
    map_of_blob none = none
    map_of_blob (some body) = elim (parse_source_map (unmarshal body)) [
      | failed e ↦ none
      | parsed m ↦ some m
    ]

    unfoldable pub first_blob : List Bytes → blobs.Contents → Option (Bytes × SourceMap)
    first_blob [] contents = none
    first_blob (k ∷ ks) contents = elim (map_of_blob (blob_of (split 0 k) contents)) [
      | none ↦ first_blob ks contents
      | some m ↦ some (k, m)
    ]

    abbrev pub fetched :
        Option (Bytes × SourceMap) → ℤ → ℤ → ArtifactStore → Option StackFrame × ArtifactStore
    fetched none line column a = (none, a)
    fetched (some (key, m)) line column a = (map_position m line column, cache key m a)

    abbrev pub fetch :
        List Bytes
        → Option blobs.Contents
        → ℤ
        → ℤ
        → ArtifactStore
        → Option StackFrame × ArtifactStore
    fetch keys none line column a = (none, a)
    fetch keys (some contents) line column a = fetched (first_blob keys contents) line column a

    abbrev pub or_fetch :
        Option SourceMap → List Bytes → ℤ → ℤ → ArtifactStore → Option StackFrame × ArtifactStore
    or_fetch (some m) keys line column a = (map_position m line column, a)
    or_fetch none keys line column a = fetch keys a.blob line column a

    unfoldable pub lookup_frame :
        Bytes → Bytes → Bytes → Bytes → ℤ → ℤ → ArtifactStore → Option StackFrame × ArtifactStore
    lookup_frame project release dist filename line column a =
        let keys = artifact_candidates project release dist filename in
        or_fetch (first_map keys a.artifacts) keys line column a

-- ===== src/SourceMap/Artifacts/Tests.antt =====
-- ArtifactStore of internal/sentryx/sourcemap.go on concrete uploads.
use crocuta.Prelude.{
  ◌≡◌, refl, Bool, true, false, List, [], ◌∷◌, Option, none, some, Bytes, codes, equal, Dict,
  lookup, insert, delete, All, split, trim_prefix, has_prefix, join,
}
use crocuta.Prelude.Int.{pos, wrap64}
use crocuta.SourceMap.Mappings.{decode_mappings}
use crocuta.SourceMap.Vlq.{decode_vlq, index_of, magnitude}
use crocuta.SourceMap.Position.{StackFrame, map_position}
use crocuta.SourceMap.Parse.{Wire, parse_source_map}
use crocuta.SourceMap.Artifacts.{
  Paths, BlobStore, ArtifactStore, delete_all, first_map, normalize_artifact_name, artifact_key,
  artifact_candidates, artifact_blob_key, new_artifact_store, upload, delete_artifact, lookup_frame,
  first_blob,
}
use crocuta.SourceMap.Artifacts.Spec.{
  Command, IsPlainCommand, to_upload, to_delete, to_lookup, replay, run,
}
use crocuta.SourceMap.Artifacts.Refines.{run-replay}

-- Names as they are, each its own base.
abbrev plain_paths : Paths
plain_paths = record {
  url_path = λ s. none;
  clean = λ s. s;
  base = λ s. s;
  join_path = λ parts. join (codes "/") parts;
  path_escape = λ s. s;
}

abbrev one_segment : Wire
one_segment = record {
  version = pos 3;
  debug_id = [];
  x_debug_id = [];
  file = [];
  source_root = [];
  sources = codes "a.ts" ∷ [];
  sources_content = [];
  names = [];
  mappings = codes "AAAA";
}

abbrev blob_table : BlobStore
blob_table = record {
  Contents = Dict Bytes;
  put = λ key body contents. some (insert key body contents);
  get = λ key contents. lookup key contents;
}

abbrev release_commands : List Command
release_commands =
    to_upload (codes "1") (codes "r") (codes "x") (codes "/a.js") (codes "{}")
    ∷ to_lookup (codes "1") (codes "r") (codes "x") (codes "~/a.js") (pos 1) (pos 0)
    ∷ to_delete (codes "1") (codes "r") [] (codes "a.js")
    ∷ to_lookup (codes "1") (codes "r") [] (codes "a.js") (pos 1) (pos 0)
    ∷ []

release_commands_plain : All IsPlainCommand release_commands
release_commands_plain = (
  ((refl, tt), (refl, tt), (refl, tt)),
  (
    ((refl, tt), (refl, tt), (refl, tt)),
    (((refl, tt), (refl, tt), tt), (((refl, tt), (refl, tt), tt), tt)),
  ),
)

run-replay_example :
    run plain_paths
      (λ body. some one_segment)
      blob_table
      (new_artifact_store plain_paths (λ body. some one_segment) blob_table)
      release_commands
    ≡ replay plain_paths (λ body. some one_segment) (λ id. none) release_commands
run-replay_example =
    run-replay plain_paths (λ body. some one_segment) blob_table release_commands
      release_commands_plain

-- With a blob store, an artifact that is deleted is found again.
abbrev with_blobs : ArtifactStore plain_paths (λ body. some one_segment) blob_table
with_blobs = record { artifacts = []; blob = some [] }

abbrev uploaded_file : ArtifactStore plain_paths (λ body. some one_segment) blob_table
uploaded_file =
    (upload plain_paths (λ body. some one_segment) blob_table (codes "1") (codes "r") []
      (codes "a.js") (codes "{}") with_blobs).0

abbrev deleted_file : ArtifactStore plain_paths (λ body. some one_segment) blob_table
deleted_file =
    (delete_artifact plain_paths (λ body. some one_segment) blob_table (codes "1") (codes "r") []
      (codes "a.js") uploaded_file).0

abbrev is_mapped : Option StackFrame → Bool
is_mapped none = false
is_mapped (some f) = true

deleted_and_found :
    is_mapped
      (lookup_frame plain_paths
        (λ body. some one_segment)
        blob_table
        (codes "1")
        (codes "r")
        []
        (codes "a.js")
        (pos 1)
        (pos 0)
        deleted_file).0
    ≡ true
unfolding upload delete_artifact delete_all artifact_candidates artifact_key artifact_blob_key
    normalize_artifact_name trim_prefix has_prefix parse_source_map insert lookup delete equal join
    first_blob split decode_mappings lookup_frame first_map map_position decode_vlq index_of
    magnitude wrap64
deleted_and_found = refl

-- ===== src/SourceMap/Artifacts/Refines.antt =====
-- The operations of ArtifactStore of internal/sentryx/sourcemap.go, in memory alone, against a function
-- from artifacts to source maps.
use crocuta.Prelude.{
  ◌≡◌, refl, ◌∙◌, Bool, true, false, List, [], ◌∷◌, ◌++◌, Option, none, some, if◌then◌else◌, Bytes,
  Dict, lookup, insert, All, map,
}
use crocuta.Prelude.Int.{ℤ}
use crocuta.SourceMap.Parse.{Wire, ParsedMap, parsed, failed, parse_source_map}
use crocuta.SourceMap.Position.{SourceMap}
use crocuta.SourceMap.Artifacts.{
  Paths, BlobStore, ArtifactStore, mapped, delete_all, is_shorter, normalize_artifact_name,
  artifact_key, new_artifact_store, upload, delete_artifact, lookup_frame, upload_map, or_fetch,
  artifact_blob_key,
}
use crocuta.SourceMap.Artifacts.Keys.{
  ArtifactId, IsPlain, IsPlainId, key_text, id_for, places_for, places, artifact_candidates-places,
}
use crocuta.SourceMap.Artifacts.Spec.{
  Command, to_upload, to_delete, to_lookup, frame, IsPlainCommand, View, viewed_upload, viewed,
  replay, uploaded_to, found_in, serve, run,
}
use crocuta.SourceMap.Artifacts.Tables.{
  delete_all-snd, any_key-any_map, first_map-first_view, Holds, Holds-insert, Holds-delete_all,
}

All-append-ids :
    (xs ys : List ArtifactId) → All IsPlainId xs → All IsPlainId ys → All IsPlainId (xs ++ ys)
All-append-ids [] ys h k = k
All-append-ids (x ∷ xs) ys h k = (h.0, All-append-ids xs ys h.1 k)

module _ (paths : Paths) (unmarshal : Bytes → Option Wire) where
  places_for-All :
      (p r d name : Bytes)
      → IsPlain p × IsPlain r × IsPlain d
      → All IsPlainId (places_for paths p r d name)
  places_for-All p r [] name plain = (plain, tt)
  places_for-All p r (c ∷ d) name (hp, hr, hd) = ((hp, hr, hd), ((hp, hr, tt), tt))

  if-All :
      (b : Bool) (ids : List ArtifactId) → All IsPlainId ids → All IsPlainId (if b then ids else [])
  if-All true ids h = h
  if-All false ids h = tt

  places-All :
      (p r d file : Bytes)
      → IsPlain p × IsPlain r × IsPlain d
      → All IsPlainId (places paths p r d file)
  places-All p r d file plain =
      let name : Bytes = normalize_artifact_name paths file in
      All-append-ids (places_for paths p r d name) _ (places_for-All p r d name plain) (
        if-All (is_shorter paths (paths.base name) name) (places_for paths p r d (paths.base name))
          (places_for-All p r d (paths.base name) plain))

  module _ (blobs : BlobStore) where
    abbrev at : Dict SourceMap → ArtifactStore paths unmarshal blobs
    at m = record { artifacts = m; blob = none }

    upload-Holds :
        (id : ArtifactId) (blob_key body : Bytes) (found : ParsedMap) (v : View)
        (m : Dict SourceMap)
        → IsPlainId id
        → Holds v m
        → (n : Dict SourceMap) × (uploaded_to paths unmarshal blobs
              (upload_map paths unmarshal blobs blob_key (key_text id) body found (at m))
            ≡ (at n, (viewed_upload id v found).1))
          × Holds (viewed_upload id v found).0 n
    upload-Holds id blob_key body (failed e) v m p h = (m, refl, h)
    upload-Holds id blob_key body (parsed found) v m p h =
        (insert (key_text id) found m, refl, Holds-insert id found v m p h)

    fetch-none :
        (o : Option SourceMap) (keys : List Bytes) (line column : ℤ) (m : Dict SourceMap)
        → found_in paths unmarshal blobs (or_fetch paths unmarshal blobs o keys line column (at m))
          ≡ (at m, frame (mapped o line column))
    fetch-none none keys line column m = refl
    fetch-none (some found) keys line column m = refl

    serve-viewed :
        (c : Command) (v : View) (m : Dict SourceMap)
        → IsPlainCommand c
        → Holds v m
        → (n : Dict SourceMap) × (serve paths unmarshal blobs (at m) c
            ≡ (at n, (viewed paths unmarshal v c).1))
          × Holds (viewed paths unmarshal v c).0 n
    unfolding viewed upload delete_artifact lookup_frame artifact_key
    serve-viewed (to_upload p r d name body) v m plain h =
        upload-Holds (id_for paths p r d name)
          (artifact_blob_key paths p r d (normalize_artifact_name paths name)) body
          (parse_source_map (unmarshal body)) v m plain h
    serve-viewed (to_delete p r d name) v m plain h =
        let ids : List ArtifactId = places paths p r d (normalize_artifact_name paths name) in
        let all : All IsPlainId ids = places-All p r d (normalize_artifact_name paths name) plain in
        (
          (delete_all (map key_text ids) m).0,
          rw
              (
                artifact_candidates-places paths p r d (normalize_artifact_name paths name),
                delete_all-snd (map key_text ids) m,
                any_key-any_map ids v m all h,
              )
              refl,
          Holds-delete_all ids v m all h,
        )
    serve-viewed (to_lookup p r d file line column) v m plain h =
        let ids : List ArtifactId = places paths p r d file in
        (
          m,
          fetch-none _ _ line column m
              ∙ rw
                  (
                    artifact_candidates-places paths p r d file,
                    first_map-first_view ids v m (places-All p r d file plain) h,
                  )
                  refl,
          h,
        )

    run-Holds :
        (cs : List Command) (v : View) (m : Dict SourceMap)
        → All IsPlainCommand cs
        → Holds v m
        → run paths unmarshal blobs (at m) cs ≡ replay paths unmarshal v cs
    unfolding run replay viewed
    run-Holds [] v m plain h = refl
    run-Holds (c ∷ cs) v m (p, plain) h =
        let (n, e, k) = serve-viewed c v m p h in
        rw (e, run-Holds cs (viewed paths unmarshal v c).0 n plain k) refl

    -- A new artifact store without a blob store answers every sequence of uploads, deletions and look-ups as
    -- the abstract store does, a function from artifacts to source maps that starts out empty. No project,
    -- release or distribution has a zero byte.
    pub run-replay :
        (cs : List Command)
        → All IsPlainCommand cs
        → run paths unmarshal blobs (new_artifact_store paths unmarshal blobs) cs
          ≡ replay paths unmarshal (λ id. none) cs
    unfolding new_artifact_store lookup
    run-replay cs plain = run-Holds cs (λ id. none) [] plain (λ id p. refl)

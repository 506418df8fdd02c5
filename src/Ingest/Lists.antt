-- ===== src/Ingest/Lists.antt =====
-- GetAttachment, the lists and the releases of the memory store of internal/sentryx/app.go.
use crocuta.Prelude.{
  ℕ, Bool, true, not, ◌&&◌, List, [], ◌∷◌, ◌++◌, Option, none, some, if◌then◌else◌, Bytes, equal,
  Dict, lookup, insert, filter_by,
}
use crocuta.SourceMap.Artifacts.{is_nil}
use crocuta.Ingest.{Outside, Server, Artifacts, Attachment, ClientReport, StoredSignal}

pub record Release : Type 0 where
  pub project_id : Bytes
  pub version : Bytes
  pub created_at : ℕ

-- A filter that is empty lets everything through.
abbrev pub is_wanted : Bytes → Bytes → Bool
is_wanted [] value = true
is_wanted (c ∷ wanted) value = equal value (c ∷ wanted)

abbrev pub or_bytes_empty : Option Bytes → Bytes
or_bytes_empty none = []
or_bytes_empty (some body) = body

unfoldable pub all_values {ℓ} : {V : Type ℓ} → Dict V → List V
all_values [] = []
all_values ((k, v) ∷ m) = v ∷ all_values m

unfoldable pub list_releases : Bytes → Dict Release → List Release
list_releases project_id releases =
    filter_by (λ r. is_wanted project_id r.project_id) (all_values releases)

abbrev pub put_release :
    Bytes → Bytes → Bytes → ℕ → Option Release → Dict Release → Dict Release × Release
put_release key project_id version now (some release) releases = (releases, release)
put_release key project_id version now none releases =
    let release : Release = record {
      project_id = project_id;
      version = version;
      created_at = now;
    } in
    (insert key release releases, release)

unfoldable pub upsert_release : Bytes → Bytes → ℕ → Dict Release → Dict Release × Release
upsert_release project_id version now releases =
    let key = project_id ++ (b':' ∷ version) in
    put_release key project_id version now (lookup key releases) releases

module _ (o : Outside) where
  unfoldable pub list_client_reports : Bytes → Server o → List ClientReport
  list_client_reports project_id s = filter_by (λ r. is_wanted project_id r.project_id) s.reports

  unfoldable pub list_attachments : Bytes → Bytes → Server o → List Attachment
  list_attachments project_id event_id s =
      filter_by (λ a. is_wanted project_id a.project_id && is_wanted event_id a.event_id)
        (all_values s.attachments)

  unfoldable pub list_signals : Bytes → Bytes → Server o → List StoredSignal
  list_signals project_id kind s =
      filter_by (λ signal. is_wanted project_id signal.project_id && is_wanted kind signal.kind)
        (all_values s.signals)

  -- The body of the blob store, where there is one.
  abbrev pub blob_body : Bytes → Option o.blobs.Contents → Bytes → Bytes
  blob_body key none body = body
  blob_body key (some contents) body = or_bytes_empty (o.blobs.get key contents)

  abbrev pub read_body : Attachment → Bytes → Artifacts o → Bytes
  read_body a body artifacts =
      if is_nil body && not (is_nil a.blob_key)
      then blob_body a.blob_key artifacts.blob body
      else body

  abbrev pub attachment_with :
      Bytes → Server o → Bytes → Option Attachment → Option (Attachment × Bytes)
  attachment_with project_id s body none = none
  attachment_with project_id s body (some a) =
      if is_wanted project_id a.project_id then some (a, read_body a body s.artifacts) else none

  unfoldable pub get_attachment : Bytes → Bytes → Server o → Option (Attachment × Bytes)
  get_attachment project_id id s =
      attachment_with project_id s (or_bytes_empty (lookup id s.attachment_bodies))
        (lookup id s.attachments)

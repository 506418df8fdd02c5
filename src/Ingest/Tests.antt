-- ===== src/Ingest/Tests.antt =====
-- Store.Ingest of internal/sentryx/app.go on a concrete envelope.
use crocuta.Prelude.{
  ◌≡◌, ◌⊎◌, refl, sym, true, false, equal, Dict, insert, [], none, some, codes, lookup,
}
use crocuta.Envelope.Examples.{small_json, small_item}
use crocuta.Envelope.{EnvelopeItem}
use crocuta.Ingest.{Server, new_server}
use crocuta.Ingest.Items.{ingest, store_attachment, attachment_of, attachment_blob_key, put_in}
use crocuta.Ingest.Attachments.{IsReadBack, store_attachment-IsReadBack}
use crocuta.Ingest.Lists.{Release, upsert_release}
use crocuta.Ingest.Examples.{small_outside, settings, envelope, new_server-IsGrouped}
use crocuta.Ingest.Grouped.{IsRefusedOrGrouped, ingest-IsGrouped}

ingest-IsGrouped_example :
    IsRefusedOrGrouped small_outside
      (ingest small_outside settings (codes "1") envelope 7 (new_server small_outside))
ingest-IsGrouped_example =
    ingest-IsGrouped small_outside settings (codes "1") envelope 7 (new_server small_outside)
      new_server-IsGrouped

abbrev note : EnvelopeItem small_json
note = small_item (codes "attachment") (codes "hi")

abbrev with_blobs : Server small_outside
with_blobs = record (new_server small_outside) {
  artifacts = record { artifacts = []; blob = some [] };
}

store_attachment-IsReadBack_example :
    IsReadBack small_outside
      (codes "1")
      (codes "id")
      (codes "hi")
      ((false ≡ true)
        ⊎ (put_in small_outside
              (attachment_blob_key small_outside
                (attachment_of small_outside (codes "id") (codes "1") note 7))
              (codes "hi")
              with_blobs.artifacts
              (some [])
            ≡ none))
      (store_attachment small_outside (codes "id") (codes "1") note 7 with_blobs)
unfolding lookup
store_attachment-IsReadBack_example =
    store_attachment-IsReadBack small_outside (λ key body before after e. sym e) (codes "id")
      (codes "1") note 7 with_blobs refl refl

-- A release that is there already stays as it was.
abbrev first_release : Dict Release
first_release = (upsert_release (codes "1") (codes "2.0") 7 []).0

upserted_twice :
    upsert_release (codes "1") (codes "2.0") 9 first_release
    ≡ upsert_release (codes "1") (codes "2.0") 7 []
unfolding upsert_release lookup insert equal
upserted_twice = refl

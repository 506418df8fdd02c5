-- ===== src/Ingest/Attachments.antt =====
-- storeAttachment and GetAttachment of internal/sentryx/app.go.
use mathlib.Core.Option.{some-injective}
use crocuta.Prelude.{
  ℕ, ◌≡◌, ◌≢◌, ◌⊎◌, refl, Bool, true, false, ◌||◌, [], ◌∷◌, Option, none, some, ltb, Bytes,
  equal_refl, lookup, lookup-insert, length, Bool-cases, Option-cases, inl, inr, arith,
}
use crocuta.Envelope.{EnvelopeItem}
use crocuta.SourceMap.Artifacts.{is_nil}
use crocuta.Ingest.{Outside, Server, Artifacts, Attachment, default_max_blob_bytes}
use crocuta.Ingest.Items.{
  ItemStep, panicked, stepped, store_attachment, file_attachment, attachment_of,
  attachment_blob_key, put_in,
}
use crocuta.Ingest.Lists.{get_attachment, is_wanted, blob_body}

-- The attachment, and its body as GetAttachment finds it after a step that accepts it; a reason for a step
-- that does not.
abbrev pub IsReadBack : (o : Outside) → Bytes → Bytes → Bytes → Type 0 → ItemStep o → Type 0
IsReadBack o project_id id body Reason (panicked s) = ⊥
IsReadBack o project_id id body Reason (stepped s false) = Reason
IsReadBack o project_id id body Reason (stepped s true) =
    (a : Attachment) × (get_attachment o project_id id s ≡ some (a, body))
    × (a.project_id ≡ project_id)

not-or : (a b : Bool) → (a || b) ≡ false → a ≡ false
not-or a b h = ground arith

none-ne-some {ℓ} : {A : Type ℓ} {a : A} → none ≢ some a
none-ne-some h = cc

is_wanted_self : (project_id : Bytes) → is_wanted project_id project_id ≡ true
is_wanted_self [] = refl
is_wanted_self (c ∷ project_id) = equal_refl (c ∷ project_id)

module _ (o : Outside)
    (reads : (key body : Bytes) (before after : o.blobs.Contents)
      → o.blobs.put key body before ≡ some after
      → o.blobs.get key after ≡ some body) where
  put_in-reads :
      (key body : Bytes) (before : Artifacts o) (blob : Option o.blobs.Contents)
      (after : Artifacts o)
      → put_in o key body before blob ≡ some (some after)
      → blob_body o key after.blob [] ≡ body
  put_in-reads key body before none after e = absurd (none-ne-some (some-injective _ _ e))
  put_in-reads key body before (some contents) after e =
      elim (Option-cases (o.blobs.put key body contents)) [
        | inl failed ↦ absurd (none-ne-some (rw failed at e))
        | inr (written, done) ↦
            let same : record before { blob = some written } ≡ after =
              some-injective _ _ (some-injective _ _ (rw done at e)) in
            rw (← same, reads key body contents written done) refl
      ]

  filed-IsReadBack :
      (a : Attachment) (body : Bytes) (s : Server o) (bad : Bool)
      (put : Option (Option (Artifacts o)))
      → is_nil body ≡ false
      → lookup a.id s.attachment_bodies ≡ none
      → put_in o (attachment_blob_key o a) body s.artifacts s.artifacts.blob ≡ put
      → is_nil (attachment_blob_key o a) ≡ false
      → IsReadBack o a.project_id a.id body
          ((bad ≡ true)
            ⊎ (put_in o (attachment_blob_key o a) body s.artifacts s.artifacts.blob ≡ none))
          (file_attachment o a body s put)
  unfolding get_attachment
  filed-IsReadBack a body s bad none full fresh e keyed = inr e
  filed-IsReadBack a body s bad (some none) full fresh e keyed = (
    a,
    rw
        (
          lookup-insert a.id a.id body s.attachment_bodies,
          lookup-insert a.id a.id a s.attachments,
          equal_refl a.id,
          is_wanted_self a.project_id,
          full,
        )
        refl,
    refl,
  )
  filed-IsReadBack a body s bad (some (some artifacts)) full fresh e keyed =
      let b : Attachment = record a { blob_key = attachment_blob_key o a } in
      (
        b,
        rw
            (
              fresh,
              lookup-insert a.id a.id b s.attachments,
              equal_refl a.id,
              is_wanted_self a.project_id,
              keyed,
              put_in-reads (attachment_blob_key o a) body s.artifacts s.artifacts.blob artifacts e,
            )
            refl,
        refl,
      )

  -- An attachment that Ingest accepts is read back by GetAttachment of its project, under the id that was
  -- drawn for it, with exactly the payload of the item. It is not accepted only where its payload is empty or
  -- larger than 25 MiB, or the blob store fails to put it. The blob store, if there is one, gives back what was put under a key, the id has no body yet, and a path is not empty.
  pub store_attachment-IsReadBack :
      (id project_id : Bytes) (item : EnvelopeItem o.json) (now : ℕ) (s : Server o)
      → lookup id s.attachment_bodies ≡ none
      → is_nil (attachment_blob_key o (attachment_of o id project_id item now)) ≡ false
      → IsReadBack o project_id id item.payload
          (((is_nil item.payload || ltb default_max_blob_bytes (length item.payload)) ≡ true)
            ⊎ (put_in o
                  (attachment_blob_key o (attachment_of o id project_id item now))
                  item.payload
                  s.artifacts
                  s.artifacts.blob
                ≡ none))
          (store_attachment o id project_id item now s)
  unfolding store_attachment
  store_attachment-IsReadBack id project_id item now s fresh keyed =
      elim (Bool-cases (is_nil item.payload || ltb default_max_blob_bytes (length item.payload))) [
        | inl bad ↦ rw bad (inl refl)
        | inr fits ↦ rw fits (
            filed-IsReadBack (attachment_of o id project_id item now) item.payload s false _
              (not-or (is_nil item.payload) _ fits) fresh refl keyed)
      ]

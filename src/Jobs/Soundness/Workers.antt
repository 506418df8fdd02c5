-- ===== src/Jobs/Soundness/Workers.antt =====
-- What a worker of internal/sentryx/worker.go does to the rows: the leases, and the jobs that it finishes.
use crocuta.Prelude.{
  ℕ, zero, suc, ◌<◌, ◌≡◌, ◌≢◌, refl, sym, ◌∙◌, Bool, true, false, List, [], ◌∷◌, ◌++◌, none, leb,
  ◌==◌, All, Bool-cases, inl, inr, arith,
}
use crocuta.Jobs.{
  JobRow, IngestJob, JobState, ready, processing, completed, dead, is_due, lease_rows, can_lease,
  leased, update_row, acked, ack_job, nacked, nack_job, buried, backoff, max_attempts, finish_job,
}
use crocuta.Jobs.Interleavings.{is_in, without, ids}

-- A row outside of processing holds no lease, and a completed one no payload, save where the server has
-- completed it.
abbrev pub SoundIn : List ℕ → JobRow → JobState → Type 0
SoundIn kept row ready = row.lease_until ≡ none
SoundIn kept row processing = Unit
SoundIn kept row completed =
    (row.lease_until ≡ none) × (is_in row.id kept ≡ false → row.payload ≡ none)
SoundIn kept row dead = row.lease_until ≡ none

-- A job that the server is working on is processing, and without a lease.
abbrev pub IsUntaken : List ℕ → JobRow → Type 0
IsUntaken pending row =
    is_in row.id pending ≡ true → (row.state ≡ processing) × (row.lease_until ≡ none)

pub record IsSound (next_id : ℕ) (pending kept : List ℕ) (row : JobRow) : Type 0 where
  pub known : row.id < next_id
  pub sound : SoundIn kept row row.state
  pub untaken : IsUntaken pending row

abbrev pub IsWorkers : ℕ → List ℕ → ℕ → Type 0
IsWorkers next_id pending id = (id < next_id) × (is_in id pending ≡ false)

true-ne-false : true ≢ false
true-ne-false h = cc

pub clash {ℓ} : {A : Type ℓ} {b : Bool} → b ≡ true → b ≡ false → A
clash h k = absurd (true-ne-false (sym h ∙ k))

pub All-mono :
    {A : Type 0} (P Q : A → Type 0) (xs : List A) → ((x : A) → P x → Q x) → All P xs → All Q xs
All-mono P Q [] f h = tt
All-mono P Q (x ∷ xs) f h = (f x h.0, All-mono P Q xs f h.1)

pub All-append :
    {A : Type 0} (P : A → Type 0) (xs more : List A) → All P xs → All P more → All P (xs ++ more)
All-append P [] more h k = k
All-append P (x ∷ xs) more h k = (h.0, All-append P xs more h.1 k)

pub is_in-above : (n : ℕ) (ms : List ℕ) → All (λ m. m < n) ms → is_in n ms ≡ false
unfolding is_in
is_in-above n [] h = refl
is_in-above n (m ∷ ms) h = ground (arith, is_in-above n ms h.1)

pub is_in-without : (n id : ℕ) (ms : List ℕ) → is_in n ms ≡ false → is_in n (without id ms) ≡ false
unfolding is_in without
is_in-without n id [] h = refl
is_in-without n id (m ∷ ms) h = ground (arith, is_in-without n id ms)

pub is_in-gone : (id : ℕ) (ms : List ℕ) → is_in id (without id ms) ≡ false
unfolding is_in without
is_in-gone id [] = refl
is_in-gone id (m ∷ ms) = ground (arith, is_in-gone id ms)

pub All-without : (P : ℕ → Type 0) (id : ℕ) (ms : List ℕ) → All P ms → All P (without id ms)
unfolding without
All-without P id [] h = tt
All-without P id (m ∷ ms) h = elim (Bool-cases (m == id)) [
  | inl e ↦ rw e (All-without P id ms h.1)
  | inr e ↦ rw e (h.0, All-without P id ms h.1)
]

module _ (next_id : ℕ) (pending kept : List ℕ) where
  -- What a worker may put in the place of a row.
  unheld-IsSound :
      (row after : JobRow)
      → after.id ≡ row.id
      → is_in row.id pending ≡ false
      → SoundIn kept after after.state
      → IsSound next_id pending kept row
      → IsSound next_id pending kept after
  unheld-IsSound row after same out sound h = record {
    known = rw same h.known;
    sound = sound;
    untaken = λ k. clash (rw same at k) out;
  }

  All-update_row :
      (id : ℕ) (change : JobRow → JobRow) (rows : List JobRow)
      → ((row : JobRow) → (change row).id ≡ row.id)
      → ((row : JobRow) → SoundIn kept (change row) (change row).state)
      → is_in id pending ≡ false
      → All (IsSound next_id pending kept) rows
      → All (IsSound next_id pending kept) (update_row id change rows)
  All-update_row id change [] same sound out h = tt
  All-update_row id change (row ∷ rows) same sound out h = elim (Bool-cases (row.id == id)) [
    | inr other ↦ rw other (h.0, All-update_row id change rows same sound out h.1)
    | inl this ↦
        let e : row.id ≡ id = ground arith in
        rw this (
          unheld-IsSound row (change row) (same row) (rw e out) (sound row) h.0,
          All-update_row id change rows same sound out h.1,
        )
  ]

  pub finish_job-IsSound :
      (now : ℕ) (processed : Bool) (job : IngestJob) (rows : List JobRow)
      → is_in job.id pending ≡ false
      → All (IsSound next_id pending kept) rows
      → All (IsSound next_id pending kept) (finish_job now processed job rows)
  unfolding finish_job ack_job nack_job
  finish_job-IsSound now true job rows out h =
      All-update_row job.id acked rows (λ row. refl) (λ row. (refl, λ k. refl)) out h
  finish_job-IsSound now false job rows out h = elim (Bool-cases (leb max_attempts job.attempts)) [
    | inl last ↦ rw last (All-update_row job.id buried rows (λ row. refl) (λ row. refl) out h)
    | inr more ↦ rw more (
        All-update_row job.id (nacked now (backoff job.attempts)) rows (λ row. refl) (λ row. refl)
          out h)
  ]

  untaken-can_lease :
      (now : ℕ) (row : JobRow)
      → IsUntaken pending row
      → can_lease now row ≡ true
      → is_in row.id pending ≡ false
  unfolding is_due
  untaken-can_lease now row h can = elim (Bool-cases (is_in row.id pending)) [
    | inr out ↦ out
    | inl inside ↦ clash can (rw ((h inside).0, (h inside).1) refl)
  ]

  pub lease_rows-IsSound :
      (limit now seconds : ℕ) (rows : List JobRow)
      → All (IsSound next_id pending kept) rows
      → All (IsSound next_id pending kept) (lease_rows limit now seconds rows).0
        × All (IsWorkers next_id pending) (ids (lease_rows limit now seconds rows).1)
  unfolding lease_rows
  lease_rows-IsSound zero now seconds [] h = (tt, tt)
  lease_rows-IsSound (suc limit) now seconds [] h = (tt, tt)
  lease_rows-IsSound zero now seconds (row ∷ rows) h = (h, tt)
  lease_rows-IsSound (suc limit) now seconds (row ∷ rows) h =
      elim (Bool-cases (can_lease now row)) [
        | inl can ↦
            let out = untaken-can_lease now row h.0.untaken can in
            let rest = lease_rows-IsSound limit now seconds rows h.1 in
            rw can (
              (unheld-IsSound row (leased now seconds row) refl out tt h.0, rest.0),
              ((h.0.known, out), rest.1),
            )
        | inr can ↦
            let rest = lease_rows-IsSound (suc limit) now seconds rows h.1 in
            rw can ((h.0, rest.0), rest.1)
      ]

-- ===== src/Jobs/Soundness.antt =====
-- What holds in every table that the servers and the workers of internal/sentryx/worker.go and postgres.go reach.
pub mod Workers
use crocuta.Prelude.{
  ℕ, zero, suc, ◌<◌, ◌≡◌, ◌≢◌, refl, sym, ap, ◌∙◌, Bool, true, false, List, [], ◌∷◌, ◌++◌, none,
  if◌then◌else◌, leb, ◌==◌, ◌||◌, ◌&&◌, Bytes, All, Bool-cases, inl, inr, arith,
}
use crocuta.Jobs.{
  JobRow, IngestJob, JobState, ready, processing, completed, dead, enqueue_envelope, is_due,
  lease_rows, lease_jobs, lease_seconds, can_lease, leased, job_of, update_row, acked, ack_job,
  nacked, nack_job, buried, answered_row, answer_job, backoff, max_attempts, finish_job, is_over,
  delete_jobs,
}
use crocuta.Jobs.Interleavings.{
  is_in, without, Queue, ids, enqueued, leased_queue, finished_queue, answered_queue, Step,
  enqueues, leases, finishes, answers, deletes, Reachable, empty, next,
}
use crocuta.Jobs.Soundness.Workers.{
  SoundIn, IsUntaken, IsSound, IsWorkers, clash, All-mono, All-append, is_in-above, is_in-without,
  is_in-gone, All-without, finish_job-IsSound, lease_rows-IsSound,
}

record IsConsistent (q : Queue) : Type 0 where
  rows_sound : All (IsSound q.next_id q.pending q.kept) q.rows
  held_known : All (IsWorkers q.next_id q.pending) q.held
  pending_known : All (λ id. id < q.next_id) q.pending

is_in-older :
    (id next_id : ℕ) (pending : List ℕ)
    → id < next_id
    → is_in id (next_id ∷ pending) ≡ true
    → is_in id pending ≡ true
unfolding is_in
is_in-older id next_id pending h k = ground arith

-- The rows that were there before an enqueued one.
older-IsSound :
    (next_id : ℕ) (pending kept : List ℕ) (is_ready : Bool) (row : JobRow)
    → IsSound next_id pending kept row
    → IsSound (suc next_id) (if is_ready then pending else next_id ∷ pending) kept row
older-IsSound next_id pending kept true row h = record {
  known = (let k = h.known in omega arith);
  sound = h.sound;
  untaken = h.untaken;
}
older-IsSound next_id pending kept false row h = record {
  known = (let k = h.known in omega arith);
  sound = h.sound;
  untaken = λ k. h.untaken (is_in-older row.id next_id pending h.known k);
}

older-IsWorkers :
    (next_id : ℕ) (pending : List ℕ) (is_ready : Bool) (id : ℕ)
    → IsWorkers next_id pending id
    → IsWorkers (suc next_id) (if is_ready then pending else next_id ∷ pending) id
unfolding is_in
older-IsWorkers next_id pending true id h = (omega (arith, h.0), h.1)
older-IsWorkers next_id pending false id h = (omega (arith, h.0), ground (arith, h.0, h.1))

enqueue_envelope-IsSound :
    (next_id : ℕ) (pending kept : List ℕ) (project_id body : Bytes) (is_ready : Bool) (now : ℕ)
    (rows : List JobRow)
    → All (λ id. id < next_id) pending
    → All (IsSound next_id pending kept) rows
    → All
        (IsSound (suc next_id) (if is_ready then pending else next_id ∷ pending) kept)
        (enqueue_envelope next_id project_id body is_ready now rows)
unfolding enqueue_envelope
enqueue_envelope-IsSound next_id pending kept project_id body true now rows below h =
    All-append _ rows _ (All-mono _ _ rows (older-IsSound next_id pending kept true) h) (
      record {
        known = omega arith;
        sound = refl;
        untaken = λ k. clash k (is_in-above next_id pending below);
      },
      tt,
    )
enqueue_envelope-IsSound next_id pending kept project_id body false now rows below h =
    All-append _ rows _ (All-mono _ _ rows (older-IsSound next_id pending kept false) h)
      (record { known = omega arith; sound = tt; untaken = λ k. (refl, refl) }, tt)

enqueued-IsConsistent :
    (q : Queue) (project_id body : Bytes) (is_ready : Bool) (now : ℕ)
    → IsConsistent q
    → IsConsistent (enqueued q project_id body is_ready now)
enqueued-IsConsistent q project_id body is_ready now h = record {
  rows_sound =
      enqueue_envelope-IsSound q.next_id q.pending q.kept project_id body is_ready now q.rows
        h.pending_known h.rows_sound;
  held_known = All-mono _ _ q.held (older-IsWorkers q.next_id q.pending is_ready) h.held_known;
  pending_known = older_pending is_ready;
}
  where
    older_pending :
        (is_ready : Bool)
        → All (λ id. id < suc q.next_id) (if is_ready then q.pending else q.next_id ∷ q.pending)
    older_pending true = All-mono _ _ q.pending (λ id k. omega arith) h.pending_known
    older_pending false =
        (omega arith, All-mono _ _ q.pending (λ id k. omega arith) h.pending_known)

module _ (next_id id : ℕ) (pending kept : List ℕ) (processed : Bool) where
  abbrev kept_after : List ℕ
  kept_after = if processed then id ∷ kept else kept

  SoundIn-kept :
      (row : JobRow) (state : JobState) → SoundIn kept row state → SoundIn kept_after row state
  unfolding is_in
  SoundIn-kept row ready s = s
  SoundIn-kept row processing s = tt
  SoundIn-kept row dead s = s
  SoundIn-kept row completed (free, paid) = elim (Bool-cases processed) [
    | inl e ↦ rw e (free, λ k. paid (ground arith))
    | inr e ↦ rw e (free, paid)
  ]

  other-IsSound :
      (row : JobRow)
      → IsSound next_id pending kept row
      → IsSound next_id (without id pending) kept_after row
  other-IsSound row h = record {
    known = h.known;
    sound = SoundIn-kept row row.state h.sound;
    untaken = λ k. elim (Bool-cases (is_in row.id pending)) [
      | inl inside ↦ h.untaken inside
      | inr out ↦ clash k (is_in-without row.id id pending out)
    ];
  }

  SoundIn-answered_row :
      (row : JobRow)
      → row.id ≡ id
      → row.lease_until ≡ none
      → SoundIn kept_after (answered_row processed row) (answered_row processed row).state
  unfolding is_in
  SoundIn-answered_row row same free = elim (Bool-cases processed) [
    | inl e ↦ rw e (free, λ k. absurd (kept_itself row.id id same k))
    | inr e ↦ rw e free
  ]
    where
      kept_itself : (j id : ℕ) → j ≡ id → (j == id || is_in j kept) ≡ false → ⊥
      kept_itself j id same k = ground arith

  answered_row-IsSound :
      (row : JobRow)
      → row.id ≡ id
      → is_in id pending ≡ true
      → IsSound next_id pending kept row
      → IsSound next_id (without id pending) kept_after (answered_row processed row)
  answered_row-IsSound row same inside h = record {
    known = h.known;
    sound = SoundIn-answered_row row same (h.untaken (rw same inside)).1;
    untaken = λ k. clash k (rw same (is_in-gone id pending));
  }

  answer_job-IsSound :
      (rows : List JobRow)
      → is_in id pending ≡ true
      → All (IsSound next_id pending kept) rows
      → All (IsSound next_id (without id pending) kept_after) (answer_job id processed rows)
  unfolding answer_job
  answer_job-IsSound [] inside h = tt
  answer_job-IsSound (row ∷ rows) inside h = elim (Bool-cases (row.id == id)) [
    | inl this ↦
        let e : row.id ≡ id = ground arith in
        rw this (answered_row-IsSound row e inside h.0, answer_job-IsSound rows inside h.1)
    | inr other ↦ rw other (other-IsSound row h.0, answer_job-IsSound rows inside h.1)
  ]

All-delete_jobs :
    (P : JobRow → Type 0) (is_old : JobRow → Bool) (rows : List JobRow)
    → All P rows
    → All P (delete_jobs is_old rows)
unfolding delete_jobs
All-delete_jobs P is_old [] h = tt
All-delete_jobs P is_old (row ∷ rows) h = elim (Bool-cases (is_over row.state && is_old row)) [
  | inl away ↦ rw away (All-delete_jobs P is_old rows h.1)
  | inr stays ↦ rw stays (h.0, All-delete_jobs P is_old rows h.1)
]

held-unpending :
    (next_id id : ℕ) (pending held : List ℕ)
    → is_in id held ≡ true
    → All (IsWorkers next_id pending) held
    → is_in id pending ≡ false
unfolding is_in
held-unpending next_id id pending [] k h = clash k refl
held-unpending next_id id pending (j ∷ held) k h = elim (Bool-cases (id == j)) [
  | inl this ↦ (let e : id ≡ j = ground arith in rw e h.0.1)
  | inr other ↦ held-unpending next_id id pending held (rw other at k) h.1
]

Step-IsConsistent : (q after : Queue) → Step q after → IsConsistent q → IsConsistent after
unfolding lease_jobs
Step-IsConsistent _ _ (enqueues q project_id body is_ready now) h =
    enqueued-IsConsistent q project_id body is_ready now h
Step-IsConsistent _ _ (leases q limit now lease) h =
    let (rows, taken) =
      lease_rows-IsSound q.next_id q.pending q.kept (if limit == 0 then 20 else limit) now
        (lease_seconds lease) q.rows h.rows_sound in
    record {
      rows_sound = rows;
      held_known = All-append _ _ q.held taken h.held_known;
      pending_known = h.pending_known;
    }
Step-IsConsistent _ _ (finishes q now processed job k) h = record {
  rows_sound =
      finish_job-IsSound q.next_id q.pending q.kept now processed job q.rows
        (held-unpending q.next_id job.id q.pending q.held k h.held_known) h.rows_sound;
  held_known = h.held_known;
  pending_known = h.pending_known;
}
Step-IsConsistent _ _ (answers q id processed k) h = record {
  rows_sound = answer_job-IsSound q.next_id id q.pending q.kept processed q.rows k h.rows_sound;
  held_known = All-mono _ _ q.held (λ j w. (w.0, is_in-without j id q.pending w.1)) h.held_known;
  pending_known = All-without _ id q.pending h.pending_known;
}
Step-IsConsistent _ _ (deletes q is_old) h = record {
  rows_sound = All-delete_jobs _ is_old q.rows h.rows_sound;
  held_known = h.held_known;
  pending_known = h.pending_known;
}

Reachable-IsConsistent : (q : Queue) → Reachable q → IsConsistent q
Reachable-IsConsistent _ empty = record { rows_sound = tt; held_known = tt; pending_known = tt }
Reachable-IsConsistent _ (next q after reached step) =
    Step-IsConsistent q after step (Reachable-IsConsistent q reached)

-- In every table that servers, synchronous or not, workers and retention reach from the empty one, in whatever
-- order their statements come, where a worker finishes only jobs that it has leased: a job that is ready, completed
-- or dead holds no lease; a completed job has no payload left, save where a synchronous Ingest has completed
-- it; and a job that a synchronous Ingest is working on is processing and without a lease, so that no worker
-- takes it.
pub Reachable-IsSound : (q : Queue) → Reachable q → All (IsSound q.next_id q.pending q.kept) q.rows
Reachable-IsSound q reached = (Reachable-IsConsistent q reached).rows_sound

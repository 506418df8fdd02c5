-- ===== src/Jobs/Interleavings.antt =====
-- The queue of internal/sentryx/worker.go and postgres.go under any servers and workers, which take the
-- statements of the queue in any order, workers that are late or gone included.
use crocuta.Prelude.{
  ℕ, suc, ◌≡◌, Bool, true, false, List, [], ◌∷◌, ◌++◌, if◌then◌else◌, ◌==◌, ◌||◌, Bytes,
}
use crocuta.Jobs.{
  JobRow, IngestJob, enqueue_envelope, lease_jobs, answer_job, finish_job, delete_jobs,
}

unfoldable pub is_in : ℕ → List ℕ → Bool
is_in n [] = false
is_in n (m ∷ ms) = n == m || is_in n ms

unfoldable pub without : ℕ → List ℕ → List ℕ
without n [] = []
without n (m ∷ ms) = let rest = without n ms in if m == n then rest else m ∷ rest

-- The table with the sequence of its ids, and what the programs around it remember: the jobs that a worker
-- has ever leased, those that a synchronous Ingest is working on, and those that it has completed.
pub record Queue : Type 0 where
  pub rows : List JobRow
  pub next_id : ℕ
  pub held : List ℕ
  pub pending : List ℕ
  pub kept : List ℕ

abbrev pub empty_queue : Queue
empty_queue = record { rows = []; next_id = 0; held = []; pending = []; kept = [] }

abbrev pub ids : List IngestJob → List ℕ
ids [] = []
ids (job ∷ jobs) = job.id ∷ ids jobs

abbrev pub enqueued : Queue → Bytes → Bytes → Bool → ℕ → Queue
enqueued q project_id body is_ready now = record q {
  rows = enqueue_envelope q.next_id project_id body is_ready now q.rows;
  next_id = suc q.next_id;
  pending = if is_ready then q.pending else q.next_id ∷ q.pending;
}

abbrev pub leased_queue : Queue → ℕ → ℕ → ℕ → Queue
leased_queue q limit now lease =
    let taken = lease_jobs limit now lease q.rows in
    record q { rows = taken.0; held = ids taken.1 ++ q.held }

abbrev pub finished_queue : Queue → ℕ → Bool → IngestJob → Queue
finished_queue q now processed job = record q { rows = finish_job now processed job q.rows }

abbrev pub answered_queue : Queue → ℕ → Bool → Queue
answered_queue q id processed = record q {
  rows = answer_job id processed q.rows;
  pending = without id q.pending;
  kept = if processed then id ∷ q.kept else q.kept;
}

abbrev pub cleaned_queue : Queue → (JobRow → Bool) → Queue
cleaned_queue q is_old = record q { rows = delete_jobs is_old q.rows }

-- A statement of a server, asynchronous or not, or of a worker. A worker may finish any job that it has
-- leased, however long ago, with any outcome, and again; retention deletes old jobs; a program that stops
-- takes no step.
pub data Step : Queue → Queue → Type 0 where
  enqueues :
      (q : Queue) (project_id body : Bytes) (is_ready : Bool) (now : ℕ)
      → Step q (enqueued q project_id body is_ready now)
  leases : (q : Queue) (limit now lease : ℕ) → Step q (leased_queue q limit now lease)
  finishes :
      (q : Queue) (now : ℕ) (processed : Bool) (job : IngestJob)
      → is_in job.id q.held ≡ true
      → Step q (finished_queue q now processed job)
  answers :
      (q : Queue) (id : ℕ) (processed : Bool)
      → is_in id q.pending ≡ true
      → Step q (answered_queue q id processed)
  deletes : (q : Queue) (is_old : JobRow → Bool) → Step q (cleaned_queue q is_old)

pub data Reachable : Queue → Type 0 where
  empty : Reachable empty_queue
  next : (q after : Queue) → Reachable q → Step q after → Reachable after

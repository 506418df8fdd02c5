-- ===== src/Jobs.antt =====
-- The ingest queue of internal/sentryx/worker.go and postgres.go: the rows of sentryx_ingest_jobs, in the
-- order of their ids, and the statements that the worker runs on them. A statement is atomic, so it is a
-- function of the table. Times are nanoseconds; a number of seconds that is not positive is 0.
pub mod Leases
pub mod Retries
pub mod Interleavings
pub mod Soundness
mod Tests
use crocuta.Prelude.{
  ℕ, zero, suc, ◌+◌, ◌-◌, ◌*◌, ◌/◌, ◌^◌, Bool, true, false, ◌&&◌, ◌||◌, List, [], ◌∷◌, ◌++◌, Option,
  none, some, if◌then◌else◌, ltb, leb, ◌==◌, Bytes, codes,
}
use crocuta.RateLimiter.{second}

pub data JobState : Type 0 where
  ready processing completed dead : JobState

pub record JobRow : Type 0 where
  pub id : ℕ
  pub project_id : Bytes
  pub payload : Option Bytes
  pub state : JobState
  pub attempts : ℕ
  pub available_at : ℕ
  pub lease_until : Option ℕ

-- What LeaseJobs gives to the worker. A payload that was removed is scanned as no bytes.
pub record IngestJob : Type 0 where
  pub id : ℕ
  pub project_id : Bytes
  pub payload : Option Bytes
  pub attempts : ℕ

-- EnqueueEnvelope, with the id that the sequence gives.
unfoldable pub enqueue_envelope : ℕ → Bytes → Bytes → Bool → ℕ → List JobRow → List JobRow
enqueue_envelope id project_id body is_ready now rows =
    rows
    ++ (record {
      id = id;
      project_id = project_id;
      payload = some body;
      state = if is_ready then ready else processing;
      attempts = 0;
      available_at = now;
      lease_until = none;
    }
        ∷ [])

-- lease_until < now, where NULL is not before anything
abbrev pub has_expired : ℕ → Option ℕ → Bool
has_expired now none = false
has_expired now (some until) = ltb until now

unfoldable pub is_due : ℕ → JobRow → JobState → Bool
is_due now row ready = leb row.available_at now
is_due now row processing = has_expired now row.lease_until
is_due now row completed = false
is_due now row dead = false

-- The WHERE clause of LeaseJobs.
abbrev pub can_lease : ℕ → JobRow → Bool
can_lease now row = is_due now row row.state

abbrev pub leased : ℕ → ℕ → JobRow → JobRow
leased now seconds row = record row {
  state = processing;
  attempts = row.attempts + 1;
  lease_until = some (now + seconds * second);
}

abbrev pub job_of : JobRow → IngestJob
job_of row = record {
  id = row.id;
  project_id = row.project_id;
  payload = row.payload;
  attempts = row.attempts;
}

-- UPDATE ... RETURNING: the table after it, and the jobs.
unfoldable pub lease_rows : ℕ → ℕ → ℕ → List JobRow → List JobRow × List IngestJob
lease_rows limit now seconds [] = ([], [])
lease_rows zero now seconds (row ∷ rows) = (row ∷ rows, [])
lease_rows (suc limit) now seconds (row ∷ rows) =
    let taken = lease_rows limit now seconds rows in
    let passed = lease_rows (suc limit) now seconds rows in
    if can_lease now row
    then (leased now seconds row ∷ taken.0, job_of (leased now seconds row) ∷ taken.1)
    else (row ∷ passed.0, passed.1)

-- The whole seconds of a lease, 30 for none and at least one.
abbrev pub lease_seconds : ℕ → ℕ
lease_seconds lease =
    if lease == 0 then 30 else (if ltb (lease / second) 1 then 1 else lease / second)

unfoldable pub lease_jobs : ℕ → ℕ → ℕ → List JobRow → List JobRow × List IngestJob
lease_jobs limit now lease rows =
    lease_rows (if limit == 0 then 20 else limit) now (lease_seconds lease) rows

-- UPDATE ... WHERE id=$1
abbrev pub update_row : ℕ → (JobRow → JobRow) → List JobRow → List JobRow
update_row id change [] = []
update_row id change (row ∷ rows) =
    (if row.id == id then change row else row) ∷ update_row id change rows

abbrev pub acked : JobRow → JobRow
acked row = record row { state = completed; payload = none; lease_until = none }

unfoldable pub ack_job : ℕ → List JobRow → List JobRow
ack_job id rows = update_row id acked rows

abbrev pub nacked : ℕ → ℕ → JobRow → JobRow
nacked now retry_after row = record row {
  state = ready;
  lease_until = none;
  available_at = now + (if retry_after == 0 then second else retry_after) / second * second;
}

unfoldable pub nack_job : ℕ → ℕ → ℕ → List JobRow → List JobRow
nack_job id now retry_after rows = update_row id (nacked now retry_after) rows

abbrev pub buried : JobRow → JobRow
buried row = record row { state = dead; lease_until = none }

-- The UPDATE at the end of a synchronous Ingest, which keeps the payload and the lease.
abbrev pub answered_row : Bool → JobRow → JobRow
answered_row processed row = record row { state = if processed then completed else ready }

unfoldable pub answer_job : ℕ → Bool → List JobRow → List JobRow
answer_job id processed rows = update_row id (answered_row processed) rows

-- The states of the jobs that retention deletes.
abbrev pub is_over : JobState → Bool
is_over ready = false
is_over processing = false
is_over completed = true
is_over dead = true

-- The DELETE of retention; `is_old` says which rows are old enough, and stand in its batch.
unfoldable pub delete_jobs : (JobRow → Bool) → List JobRow → List JobRow
delete_jobs is_old [] = []
delete_jobs is_old (row ∷ rows) =
    let rest = delete_jobs is_old rows in
    if is_over row.state && is_old row then rest else row ∷ rest

abbrev pub max_attempts : ℕ
max_attempts = 5

-- time.Duration(1<<(attempts-1)) * time.Second, for a job that has been leased
abbrev pub backoff : ℕ → ℕ
backoff attempts = 2 ^ (attempts - 1) * second

-- The body of the worker's loop over its jobs, with the outcome of processPayload.
unfoldable pub finish_job : ℕ → Bool → IngestJob → List JobRow → List JobRow
finish_job now processed job rows =
    if processed
    then ack_job job.id rows
    else if leb max_attempts job.attempts
    then update_row job.id buried rows
    else nack_job job.id now (backoff job.attempts) rows

-- All the jobs of a batch, the clock standing still. `process` is processPayload: whether it succeeds.
unfoldable pub finish_jobs : (IngestJob → Bool) → ℕ → List IngestJob → List JobRow → List JobRow
finish_jobs process now [] rows = rows
finish_jobs process now (job ∷ jobs) rows =
    finish_jobs process now jobs (finish_job now (process job) job rows)

-- One round of RunWorker.
unfoldable pub run_worker_round : (IngestJob → Bool) → ℕ → ℕ → List JobRow → List JobRow
run_worker_round process batch now rows =
    let taken = lease_jobs batch now (30 * second) rows in finish_jobs process now taken.1 taken.0

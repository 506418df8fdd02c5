-- ===== src/Jobs/Retries.antt =====
-- RunWorker of internal/sentryx/worker.go on one job, once and again.
use crocuta.Prelude.{
  ℕ, zero, suc, ◌+◌, ◌*◌, ◌/◌, ◌^◌, ◌≤◌, ◌<◌, ◌≡◌, refl, Bool, true, false, List, [], ◌∷◌, none,
  if◌then◌else◌, length, leb, ◌==◌, arith, Bool-cases, inl, inr,
}
use native.Mathlib.Nat.{mul-div_cancel}
use crocuta.RateLimiter.{second}
use crocuta.Jobs.Leases.{lease_rows-one}
use crocuta.Jobs.{
  JobRow, IngestJob, ready, completed, dead, can_lease, is_due, leased, job_of, lease_jobs,
  finish_job, finish_jobs, ack_job, nack_job, backoff, run_worker_round, max_attempts,
}

-- The row after a round in which it was leased and processPayload gave `processed`.
abbrev pub finished : Bool → ℕ → JobRow → JobRow
finished processed now row =
    let attempts = row.attempts + 1 in
    record row {
      attempts = attempts;
      lease_until = none;
      payload = if processed then none else row.payload;
      state = if processed then completed else (if leb max_attempts attempts then dead else ready);
      available_at =
          if processed
          then row.available_at
          else (if leb max_attempts attempts
              then row.available_at
              else now + 2 ^ row.attempts * second);
    }

power-positive : (n : ℕ) → 1 ≤ 2 ^ n
power-positive zero = omega arith
power-positive (suc n) = omega (arith, power-positive n)

whole_seconds :
    (n : ℕ)
    → (if backoff (n + 1) == 0 then second else backoff (n + 1)) / second * second ≡ 2 ^ n * second
whole_seconds n =
    ground (arith, power-positive n, mul-div_cancel (2 ^ n) {n = second} (omega arith))

row_due :
    (now : ℕ) (row : JobRow) → row.state ≡ ready → row.available_at ≤ now → can_lease now row ≡ true
unfolding is_due
row_due now row is_ready due = rw is_ready (ground arith)

suc-ne-zero : (n : ℕ) → (suc n == 0) ≡ false
suc-ne-zero n = ground arith

lease_one :
    (batch now : ℕ) (row : JobRow)
    → can_lease now row ≡ true
    → lease_jobs batch now (30 * second) (row ∷ [])
      ≡ (leased now 30 row ∷ [], job_of (leased now 30 row) ∷ [])
unfolding lease_jobs
lease_one zero now row can = lease_rows-one 19 now 30 row can
lease_one (suc batch) now row can = rw (suc-ne-zero batch) (lease_rows-one batch now 30 row can)

==_refl : (n : ℕ) → (n == n) ≡ true
==_refl n = ground arith

finish_one :
    (now : ℕ) (processed : Bool) (row : JobRow)
    → finish_job now processed (job_of (leased now 30 row)) (leased now 30 row ∷ [])
      ≡ finished processed now row ∷ []
unfolding finish_job ack_job nack_job
finish_one now true row = rw (==_refl row.id) refl
finish_one now false row = elim (Bool-cases (leb max_attempts (row.attempts + 1))) [
  | inl last ↦ rw (last, ==_refl row.id) refl
  | inr more ↦ rw (more, ==_refl row.id, whole_seconds row.attempts) refl
]

-- A round of the worker over a table with one row, ready and due: the job is completed and its payload
-- gone, or it failed the fifth time and is dead, or it is ready again after 2 ^ attempts seconds.
pub round-finished :
    (process : IngestJob → Bool) (batch now : ℕ) (row : JobRow)
    → row.state ≡ ready
    → row.available_at ≤ now
    → run_worker_round process batch now (row ∷ [])
      ≡ finished (process (job_of (leased now 30 row))) now row ∷ []
unfolding run_worker_round finish_jobs
round-finished process batch now row is_ready due =
    rw (lease_one batch now row (row_due now row is_ready due))
      (finish_one now (process (job_of (leased now 30 row))) row)

ge→leb-false : {n m : ℕ} → n < m → leb m n ≡ false
ge→leb-false {n} {m} h = ground arith

-- The rounds of the worker at the given times.
unfoldable pub run_worker_rounds : (IngestJob → Bool) → ℕ → List ℕ → List JobRow → List JobRow
run_worker_rounds process batch [] rows = rows
run_worker_rounds process batch (now ∷ times) rows =
    run_worker_rounds process batch times (run_worker_round process batch now rows)

abbrev pub fails : IngestJob → Bool
fails job = false

-- Times at which a job with these attempts is due again and again: each at least the delay after the one
-- before.
abbrev pub IsSpaced : ℕ → ℕ → List ℕ → Type 0
IsSpaced attempts available_at [] = Unit
IsSpaced attempts available_at (now ∷ times) =
    (available_at ≤ now) × IsSpaced (attempts + 1) (now + 2 ^ attempts * second) times

-- A ready job with fewer than five attempts, alone in its table, that fails at each of its rounds, five
-- attempts at most in all, has one attempt more for each round, and after them it is dead if they are five
-- and ready if they are fewer. The rounds come when the job is due, one after the other.
pub failing-dead :
    (batch : ℕ) (row : JobRow) (times : List ℕ)
    → row.state ≡ ready
    → row.attempts < max_attempts
    → row.attempts + length times ≤ max_attempts
    → IsSpaced row.attempts row.available_at times
    → (final : JobRow) × (run_worker_rounds fails batch times (row ∷ []) ≡ final ∷ [])
      × (final.attempts ≡ row.attempts + length times)
      × (final.state ≡ (if leb max_attempts final.attempts then dead else ready))
unfolding run_worker_rounds
failing-dead batch row [] is_ready few bound spaced =
    (row, refl, omega arith, rw (ge→leb-false few) is_ready)
failing-dead batch row (now ∷ []) is_ready few bound spaced = (
  finished false now row,
  round-finished fails batch now row is_ready spaced.0,
  omega arith,
  refl,
)
failing-dead batch row (now ∷ next ∷ times) is_ready few bound spaced =
    let more : leb max_attempts (row.attempts + 1) ≡ false = ge→leb-false (omega arith) in
    let (final, run, count, state) =
      failing-dead batch (finished false now row) (next ∷ times) (rw more refl) (omega arith)
        (omega arith) (rw more spaced.1) in
    (final, rw (round-finished fails batch now row is_ready spaced.0) run, omega arith, state)

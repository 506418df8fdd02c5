-- ===== src/Jobs/Tests.antt =====
-- The queue on concrete rows.
use crocuta.Prelude.{
  All, ℕ, ◌+◌, ◌*◌, ◌≡◌, ◌≢◌, refl, true, false, List, [], ◌∷◌, some, none, codes, if◌then◌else◌,
  length, leb, ◌==◌, arith,
}
use crocuta.RateLimiter.{second}
use crocuta.Query.Sort.{Apart}
use crocuta.Jobs.{
  enqueue_envelope, finish_job, JobRow, ready, dead, lease_jobs, job_of, run_worker_round, is_due,
  lease_rows, ack_job, nack_job, max_attempts,
}
use crocuta.Jobs.Interleavings.{
  is_in, without, Queue, empty_queue, enqueued, leased_queue, finished_queue, answered_queue,
  Reachable, empty, next, enqueues, leases, finishes, answers,
}
use crocuta.Jobs.Soundness.{Reachable-IsSound}
use crocuta.Jobs.Soundness.Workers.{IsSound}
use crocuta.Jobs.Leases.{lease_jobs-Disjoint, Disjoint, OtherRow}
use crocuta.Jobs.Retries.{finished, round-finished, failing-dead, fails, run_worker_rounds}

abbrev waiting : ℕ → JobRow
waiting id = record {
  id = id;
  project_id = codes "p";
  payload = some (codes "{}");
  state = ready;
  attempts = 0;
  available_at = 10;
  lease_until = none;
}

abbrev three_rows : List JobRow
three_rows = waiting 1 ∷ waiting 2 ∷ waiting 3 ∷ []

other : (m n : ℕ) → (m == n) ≡ false → m ≢ n
other m n h e = ground arith

three_rows-Apart : Apart OtherRow three_rows
three_rows-Apart = ((other 1 2 refl, (other 1 3 refl, tt)), ((other 2 3 refl, tt), (tt, tt)))

lease_jobs-Disjoint_example :
    Disjoint
      (lease_jobs 2 20 0 three_rows).1
      (lease_jobs 5 second 0 (lease_jobs 2 20 0 three_rows).0).1
lease_jobs-Disjoint_example =
    lease_jobs-Disjoint 2 5 20 second 0 0 three_rows three_rows-Apart (omega arith)

round-finished_example :
    run_worker_round (λ job. true) 20 15 (waiting 1 ∷ []) ≡ finished true 15 (waiting 1) ∷ []
round-finished_example = round-finished (λ job. true) 20 15 (waiting 1) refl (omega arith)

failing-dead_example :
    (final : JobRow) × (run_worker_rounds fails 20 (10 ∷ 2 * second ∷ []) (waiting 1 ∷ [])
      ≡ final ∷ [])
    × (final.attempts ≡ 0 + length (10 ∷ 2 * second ∷ []))
    × (final.state ≡ (if leb max_attempts final.attempts then dead else ready))
failing-dead_example =
    failing-dead 20 (waiting 1) (10 ∷ 2 * second ∷ []) refl (omega arith) (omega arith)
      (omega arith, (omega arith, tt))

-- A worker whose lease has run out makes a completed job ready again, without its payload.
late_nack_test :
    nack_job 1 100 second (ack_job 1 (waiting 1 ∷ []))
    ≡ record (waiting 1) { payload = none; available_at = 100 + second } ∷ []
unfolding nack_job ack_job
late_nack_test = refl

-- One job that a worker completes, and that another one, which is late, makes ready again; and one that a
-- synchronous Ingest completes.
abbrev queued : Queue
queued = enqueued empty_queue (codes "p") (codes "{}") true 0

abbrev in_work : Queue
in_work = leased_queue queued 1 5 0

abbrev made_ready : Queue
made_ready =
    finished_queue (finished_queue in_work 8 true (job_of (waiting 0))) 9 false (job_of (waiting 0))

abbrev served : Queue
served = answered_queue (enqueued made_ready (codes "p") (codes "{}") false 10) 1 true

late_worker-Reachable : Reachable served
unfolding is_in without lease_jobs lease_rows enqueue_envelope is_due finish_job
late_worker-Reachable =
    next _ _
      (next _ _
        (next _ _
          (next _ _
            (next _ _ (next _ _ empty (enqueues empty_queue (codes "p") (codes "{}") true 0))
              (leases queued 1 5 0))
            (finishes in_work 8 true (job_of (waiting 0)) refl))
          (finishes (finished_queue in_work 8 true (job_of (waiting 0))) 9 false
            (job_of (waiting 0)) refl))
        (enqueues made_ready (codes "p") (codes "{}") false 10))
      (answers (enqueued made_ready (codes "p") (codes "{}") false 10) 1 true refl)

Reachable-IsSound_example : All (IsSound served.next_id served.pending served.kept) served.rows
Reachable-IsSound_example = Reachable-IsSound served late_worker-Reachable

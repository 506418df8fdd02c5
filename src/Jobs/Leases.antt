-- ===== src/Jobs/Leases.antt =====
-- LeaseJobs of internal/sentryx/worker.go: its jobs, and those of a second lease.
use crocuta.Prelude.{
  ℕ, zero, suc, ◌+◌, ◌*◌, ◌≤◌, ◌≡◌, ◌≢◌, refl, sym, ap, true, false, List, [], ◌∷◌, if◌then◌else◌,
  ◌==◌, All, map, filter_by, take, arith, Bool-cases, inl, inr,
}
use crocuta.RateLimiter.{second}
use crocuta.Query.Sort.{Apart}
use crocuta.Jobs.{
  JobRow, IngestJob, can_lease, is_due, leased, job_of, lease_rows, lease_jobs, lease_seconds,
}

lease_rows-take :
    (limit now seconds : ℕ) (rows : List JobRow)
    → (lease_rows limit now seconds rows).1
      ≡ map (λ row. job_of (leased now seconds row)) (take limit (filter_by (can_lease now) rows))
unfolding lease_rows
lease_rows-take zero now seconds [] = refl
lease_rows-take (suc limit) now seconds [] = refl
lease_rows-take zero now seconds (row ∷ rows) = refl
lease_rows-take (suc limit) now seconds (row ∷ rows) = elim (Bool-cases (can_lease now row)) [
  | inl h ↦
      rw h (
        ap (λ jobs. job_of (leased now seconds row) ∷ jobs)
          (lease_rows-take limit now seconds rows))
  | inr h ↦ rw h (lease_rows-take (suc limit) now seconds rows)
]

-- LeaseJobs hands out the first jobs, in the order of the table, that are ready and due or whose lease
-- has run out, as many as the limit (20 for none), each with one attempt more than its row had.
pub lease_jobs-take :
    (limit now lease : ℕ) (rows : List JobRow)
    → (lease_jobs limit now lease rows).1
      ≡ map
          (λ row. job_of (leased now (lease_seconds lease) row))
          (take (if limit == 0 then 20 else limit) (filter_by (can_lease now) rows))
unfolding lease_jobs
lease_jobs-take limit now lease rows =
    lease_rows-take (if limit == 0 then 20 else limit) now (lease_seconds lease) rows

-- What holds of the ids of a table holds of the ids after a lease.
ids-lease_rows :
    (P : ℕ → Type 0) (limit now seconds : ℕ) (rows : List JobRow)
    → All (λ row. P row.id) rows
    → All (λ row. P row.id) (lease_rows limit now seconds rows).0
      × All (λ job. P job.id) (lease_rows limit now seconds rows).1
unfolding lease_rows
ids-lease_rows P zero now seconds [] h = (tt, tt)
ids-lease_rows P (suc limit) now seconds [] h = (tt, tt)
ids-lease_rows P zero now seconds (row ∷ rows) h = (h, tt)
ids-lease_rows P (suc limit) now seconds (row ∷ rows) h = elim (Bool-cases (can_lease now row)) [
  | inl can ↦
      let rest = ids-lease_rows P limit now seconds rows h.1 in
      rw can ((h.0, rest.0), (h.0, rest.1))
  | inr can ↦
      let rest = ids-lease_rows P (suc limit) now seconds rows h.1 in rw can ((h.0, rest.0), rest.1)
]

abbrev pub OtherRow : JobRow → JobRow → Type 0
OtherRow x y = x.id ≢ y.id

-- No job of the second list is in the first one.
abbrev pub Disjoint : List IngestJob → List IngestJob → Type 0
Disjoint first second = All (λ job. All (λ other. job.id ≢ other.id) first) second

Disjoint-nil : (jobs : List IngestJob) → Disjoint [] jobs
Disjoint-nil [] = tt
Disjoint-nil (job ∷ jobs) = (tt, Disjoint-nil jobs)

Disjoint-cons :
    (job : IngestJob) (first second : List IngestJob)
    → All (λ other. job.id ≢ other.id) second
    → Disjoint first second
    → Disjoint (job ∷ first) second
Disjoint-cons job first [] h d = tt
Disjoint-cons job first (x ∷ second) h d =
    (((λ e. h.0 (sym e)), d.0), Disjoint-cons job first second h.1 d.1)

lease_rows-yes :
    (limit now seconds : ℕ) (row : JobRow) (rows : List JobRow)
    → can_lease now row ≡ true
    → lease_rows (suc limit) now seconds (row ∷ rows) ≡ (
      leased now seconds row ∷ (lease_rows limit now seconds rows).0,
      job_of (leased now seconds row) ∷ (lease_rows limit now seconds rows).1,
    )
unfolding lease_rows
lease_rows-yes limit now seconds row rows can = rw can refl

lease_rows-no :
    (limit now seconds : ℕ) (row : JobRow) (rows : List JobRow)
    → can_lease now row ≡ false
    → lease_rows (suc limit) now seconds (row ∷ rows) ≡ (
      row ∷ (lease_rows (suc limit) now seconds rows).0,
      (lease_rows (suc limit) now seconds rows).1,
    )
unfolding lease_rows
lease_rows-no limit now seconds row rows can = rw can refl

lease_rows-zero :
    (now seconds : ℕ) (rows : List JobRow) → lease_rows zero now seconds rows ≡ (rows, [])
unfolding lease_rows
lease_rows-zero now seconds [] = refl
lease_rows-zero now seconds (row ∷ rows) = refl

lease_rows-nil : (limit now seconds : ℕ) → lease_rows limit now seconds [] ≡ ([], [])
unfolding lease_rows
lease_rows-nil zero now seconds = refl
lease_rows-nil (suc limit) now seconds = refl

pub lease_rows-one :
    (limit now seconds : ℕ) (row : JobRow)
    → can_lease now row ≡ true
    → lease_rows (suc limit) now seconds (row ∷ [])
      ≡ (leased now seconds row ∷ [], job_of (leased now seconds row) ∷ [])
unfolding lease_rows
lease_rows-one zero now seconds row can = rw can refl
lease_rows-one (suc limit) now seconds row can = rw can refl

-- The ids of the jobs of two leases, one after the other.
ids_again :
    (P : ℕ → Type 0) (limit again now later s t : ℕ) (rows : List JobRow)
    → All (λ row. P row.id) rows
    → All (λ job. P job.id) (lease_rows again later t (lease_rows limit now s rows).0).1
ids_again P limit again now later s t rows h =
    (ids-lease_rows P again later t _ (ids-lease_rows P limit now s rows h).0).1

still_leased :
    (now later s : ℕ) (row : JobRow)
    → later ≤ now + s * second
    → can_lease later (leased now s row) ≡ false
unfolding is_due
still_leased now later s row h = ground arith

lease_rows-Disjoint :
    (limit again now later s t : ℕ) (rows : List JobRow)
    → Apart OtherRow rows
    → later ≤ now + s * second
    → Disjoint
        (lease_rows limit now s rows).1
        (lease_rows again later t (lease_rows limit now s rows).0).1
lease_rows-Disjoint zero again now later s t rows a h =
    rw (lease_rows-zero now s rows) (Disjoint-nil (lease_rows again later t rows).1)
lease_rows-Disjoint (suc limit) again now later s t [] a h =
    rw (lease_rows-nil (suc limit) now s) (Disjoint-nil (lease_rows again later t []).1)
lease_rows-Disjoint (suc limit) zero now later s t (row ∷ rows) a h =
    rw (lease_rows-zero later t (lease_rows (suc limit) now s (row ∷ rows)).0) tt
lease_rows-Disjoint (suc limit) (suc again) now later s t (row ∷ rows) a h =
    elim (Bool-cases (can_lease now row)) [
      | inl can ↦
          rw
            (
              lease_rows-yes limit now s row rows can,
              lease_rows-no again later t (leased now s row) (lease_rows limit now s rows).0
                  (still_leased now later s row h),
            )
            (Disjoint-cons (job_of (leased now s row)) (lease_rows limit now s rows).1
              (lease_rows (suc again) later t (lease_rows limit now s rows).0).1
              (ids_again (λ id. row.id ≢ id) limit (suc again) now later s t rows a.0)
              (lease_rows-Disjoint limit (suc again) now later s t rows a.1 h))
      | inr can ↦ elim (Bool-cases (can_lease later row)) [
        | inl due ↦
            rw
              (
                lease_rows-no limit now s row rows can,
                lease_rows-yes again later t row (lease_rows (suc limit) now s rows).0 due,
              )
              (
                (ids-lease_rows (λ id. row.id ≢ id) (suc limit) now s rows a.0).1,
                lease_rows-Disjoint (suc limit) again now later s t rows a.1 h,
              )
        | inr due ↦
            rw
              (
                lease_rows-no limit now s row rows can,
                lease_rows-no again later t row (lease_rows (suc limit) now s rows).0 due,
              )
              (lease_rows-Disjoint (suc limit) (suc again) now later s t rows a.1 h)
      ]
    ]

-- In a table whose rows have different ids, no job of one LeaseJobs is in a second one that follows with no
-- statement in between, at any time until the first one's whole seconds are over, whatever the limits and
-- the length of the second lease.
pub lease_jobs-Disjoint :
    (limit again now later lease lease_again : ℕ) (rows : List JobRow)
    → Apart OtherRow rows
    → later ≤ now + lease_seconds lease * second
    → Disjoint
        (lease_jobs limit now lease rows).1
        (lease_jobs again later lease_again (lease_jobs limit now lease rows).0).1
unfolding lease_jobs
lease_jobs-Disjoint limit again now later lease lease_again rows a h =
    lease_rows-Disjoint (if limit == 0 then 20 else limit) (if again == 0 then 20 else again) now
      later (lease_seconds lease) (lease_seconds lease_again) rows a h

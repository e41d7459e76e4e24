-- ===== src/Threads/Gentle.antt =====
-- Histories of src/main.cpp in which no job that waits is downloaded or grows old.
use sandrun.Common.{
  select, not, ℕ, Bool, true, false, List, [], ◌∷◌, ◌++◌, ◌≡◌, refl, arith, Option, none, some,
  Bytes, bytes_eq, bytes_eq_iff, lookup, erase, contains, bytes_key, length, Outcome, ◌>>=◌,
  lookup-insert, Option-cases, Bool-cases, inl, inr, ok,
}
use sandrun.RateLimiter.{Double, Config}
use sandrun.Jobs.{Job, Server, download_all, deref, pop_job, cleanup_jobs}
use sandrun.Jobs.Executor.{Outside, execute_job}
use sandrun.Jobs.Pointers.{all_present, lookup-cases, update_positions_lem, cleanup_jobs_lem}
use sandrun.Jobs.Rounds.{IsListable, IsRemovable, execute_job_lem}
use sandrun.Threads.{
  System, Event, Phase, resting, popped, ran, sweeping, ask, register, give_up, push, log_line,
  download, pop, execute, finish, sweep, push_job, log_job, register_job, executor_step, step,
  Reach, here, next,
}
use sandrun.Threads.Known.{log_job_lem, >>=-ok, ok-injective}
use sandrun.Threads.Consistent.{contains-append, IsConsistent}
use sandrun.Threads.Slots.{Reach-IsConsistent}
use sandrun.Threads.Served.{
  IsServed, IsGentle, awaits, AllKnown-all_present, download_all-found, executor_step-IsServed,
}
use sandrun.Threads.Stages.{download_all-job_queue}

-- A chain returns whose parts do.
>>=-returns {ℓ κ} :
    {A : Type ℓ} {B : Type κ} (m : Outcome A) (f : A → Outcome B) {a : A}
    → m ≡ ok a
    → (b : B) × (f a ≡ ok b)
    → (b : B) × ((m >>= f) ≡ ok b)
>>=-returns m f e (b, h) = (b, rw e h)

module _ {F : Type 0} (o : Outside F) (d : Double F) (config : Config F) where
  register_job-IsServed :
      (seconds now : ℕ) (job : Job F) (s : System F)
      → IsServed s
      → IsServed (register_job o d config seconds now job s)
  unfolding register_job
  register_job-IsServed seconds now job s served id waits = ground (arith, served id, waits)

  step-IsServed :
      (e : Event F) (s : System F) {t : System F}
      → IsConsistent s
      → IsServed s
      → IsGentle e s
      → step o d config e s ≡ ok t
      → IsServed t
  unfolding step push_job contains
  step-IsServed (ask now ip) s h served gentle e = rw (← ok-injective e) served
  step-IsServed (register seconds now job) s h served gentle e =
      rw (← ok-injective e) (register_job-IsServed seconds now job s served)
  step-IsServed (give_up seconds) s h served gentle e = rw (← ok-injective e) served
  step-IsServed (push i) s h served gentle e = elim (Option-cases (lookup i s.registered)) [
    | inl gone ↦ rw (← ok-injective (rw (gone, step) at e)) served
    | inr (job, found) ↦ rw (← ok-injective (rw (found, step) at e)) λ id waits. ground (
      arith,
      contains-append id i s.server.job_queue,
      lookup-insert i id
          (some (record job { queue_position = length (s.server.job_queue ++ i ∷ []) }))
          s.server.jobs,
      bytes_eq_iff i id,
      served id,
      waits,
    )
  ]
  step-IsServed (log_line i) s h served gentle e =
      let (left, same, fewer) = log_job_lem i s e in
      rw (← same) λ id waits. ground (arith, fewer id, served id, waits)
  step-IsServed (download i) s h served gentle e =
      let (done, runs, last) = >>=-ok (download_all i s.server) _ e in
      rw (← ok-injective last) λ id waits.
        let queue = download_all-job_queue i s.server runs in
        let waited : awaits id s ≡ true = ground (arith, queue, waits) in
        (elim (Bool-cases (bytes_eq i id)) [
          | inl same ↦ absurd (ground (arith, bytes_eq_iff i id, gentle, waited, same))
          | inr differs ↦ rw (download_all-found i id s.server runs differs) (served id waited)
        ])
  step-IsServed pop s h served gentle e =
      executor_step-IsServed o d config pop s.executor s h served gentle refl e
  step-IsServed execute s h served gentle e =
      executor_step-IsServed o d config execute s.executor s h served gentle refl e
  step-IsServed (finish now) s h served gentle e =
      executor_step-IsServed o d config (finish now) s.executor s h served gentle refl e
  step-IsServed (sweep now) s h served gentle e =
      executor_step-IsServed o d config (sweep now) s.executor s h served gentle refl e

  Reach-IsServed : {s : System F} → Reach o d config IsGentle s → IsServed s
  unfolding contains
  Reach-IsServed here = λ id h. absurd (cc)
  Reach-IsServed (next r e gentle runs) =
      step-IsServed e _ (Reach-IsConsistent o d config r) (Reach-IsServed r) gentle runs

  pop_job-returns :
      (s : Server F)
      → all_present s.jobs ≡ true
      → (front : Server F × Option Bytes) × (pop_job s ≡ ok front)
  unfolding pop_job
  pop_job-returns s present = from s.job_queue refl
    where
      from :
          (queue : List Bytes)
          → s.job_queue ≡ queue
          → (front : Server F × Option Bytes) × (pop_job s ≡ ok front)
      from [] empty = ((s, none), simp (empty, pop_job))
      from (id ∷ queue) found =
          let (jobs, numbered, kept, same) = update_positions_lem 1 queue s.jobs present in
          (
            (record s { jobs = jobs; job_queue = queue }, some id),
            rw (found, numbered, pop_job) refl,
          )

  download_all-returns :
      (id : Bytes) (s : Server F)
      → all_present s.jobs ≡ true
      → (done : Server F × Bool) × (download_all id s ≡ ok done)
  unfolding download_all deref
  download_all-returns id s present = elim (lookup-cases id s.jobs present) [
    | inl gone ↦ ((s, false), rw (gone, download_all) refl)
    | inr (job, found) ↦
        ((record s { jobs = erase id s.jobs }, true), rw (found, download_all) refl)
  ]

  log_job-returns :
      (id : Bytes) (s : System F)
      → all_present s.server.jobs ≡ true
      → IsServed s
      → (t : System F) × (log_job id s ≡ ok t)
  unfolding log_job deref
  log_job-returns id s present served = elim (Bool-cases (contains id s.logging)) [
    | inr none_left ↦ (s, rw (none_left, log_job) refl)
    | inl pending ↦ elim (lookup-cases id s.server.jobs present) [
      | inl gone ↦ absurd (ground (arith, served id, pending, gone))
      | inr (job, found) ↦ (
        record s { logging = select (λ i. not (bytes_eq i id)) s.logging },
        rw (pending, found, log_job) refl,
      )
    ]
  ]

  executor_step-returns :
      IsListable o
      → IsRemovable o
      → (e : Event F) (phase : Phase F) (s : System F) → IsConsistent s
      → IsServed s
      → s.executor ≡ phase
      → (t : System F) × (executor_step o d config e phase s ≡ ok t)
  unfolding executor_step contains
  executor_step-returns listable removable pop resting s h served at =
      let present = AllKnown-all_present s.owners s.server.jobs h.known in
      let (front, runs) = pop_job-returns s.server present in
      >>=-returns (pop_job s.server) _ runs (_, refl)
  executor_step-returns listable removable execute (popped id) s h served at =
      let present = AllKnown-all_present s.owners s.server.jobs h.known in
      (elim (lookup-cases id s.server.jobs present) [
        | inl gone ↦ absurd (ground (arith, served id, at, gone, bytes_eq_iff id id))
        | inr (job, found) ↦
            let (done, runs, ip, limiter, queue, filled) =
              execute_job_lem o listable id s.server job present found in
            >>=-returns (execute_job o id s.server) _ runs (_, refl)
      ])
  executor_step-returns listable removable (sweep now) sweeping s h served at =
      let present = AllKnown-all_present s.owners s.server.jobs h.known in
      let (jobs, runs) = cleanup_jobs_lem o.remove_all removable now s.server.jobs present in
      >>=-returns (cleanup_jobs o.remove_all now s.server.jobs) _ runs (_, refl)
  executor_step-returns listable removable (finish now) (ran id ip cpu) s h served at = (_, refl)
  executor_step-returns listable removable _ _ s h served at = (s, refl)

  -- While no job that waits, or whose line a handler has still to print, is downloaded, and none
  -- such is old when the executor sweeps, every section of a thread returns, in every state that
  -- the threads reach: the executor and the handler's line find the job that they look up. Every
  -- working directory can be listed and removed.
  pub step-returns :
      {s : System F}
      → Reach o d config IsGentle s
      → IsListable o
      → IsRemovable o
      → (e : Event F) → (t : System F) × (step o d config e s ≡ ok t)
  unfolding step
  step-returns {s} r listable removable (ask now ip) = (_, refl)
  step-returns {s} r listable removable (register seconds now job) = (_, refl)
  step-returns {s} r listable removable (give_up seconds) = (_, refl)
  step-returns {s} r listable removable (push id) = elim (Option-cases (lookup id s.registered)) [
    | inl gone ↦ (s, rw (gone, step) refl)
    | inr (job, found) ↦ (
      record s {
        server = push_job id job s.server;
        registered = erase id s.registered;
        logging = id ∷ s.logging;
      },
      rw (found, step) refl,
    )
  ]
  step-returns {s} r listable removable (log_line id) =
      let present =
        AllKnown-all_present s.owners s.server.jobs (Reach-IsConsistent o d config r).known in
      log_job-returns id s present (Reach-IsServed r)
  step-returns {s} r listable removable (download id) =
      let h = Reach-IsConsistent o d config r in
      let present = AllKnown-all_present s.owners s.server.jobs h.known in
      let (done, runs) = download_all-returns id s.server present in
      >>=-returns (download_all id s.server) _ runs (_, refl)
  step-returns {s} r listable removable pop =
      executor_step-returns listable removable pop s.executor s (Reach-IsConsistent o d config r)
        (Reach-IsServed r) refl
  step-returns {s} r listable removable execute =
      executor_step-returns listable removable execute s.executor s
        (Reach-IsConsistent o d config r) (Reach-IsServed r) refl
  step-returns {s} r listable removable (finish now) =
      executor_step-returns listable removable (finish now) s.executor s
        (Reach-IsConsistent o d config r) (Reach-IsServed r) refl
  step-returns {s} r listable removable (sweep now) =
      executor_step-returns listable removable (sweep now) s.executor s
        (Reach-IsConsistent o d config r) (Reach-IsServed r) refl

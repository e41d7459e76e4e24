-- ===== src/Threads/Bound.antt =====
-- How many jobs of one address are on their way at once in src/main.cpp.
use sandrun.Common.{
  ℕ, ◌≤◌, Bool, true, false, ◌&&◌, List, [], ◌∷◌, ◌≡◌, ◌∙◌, refl, arith, some, Bytes, bytes_eq_iff,
  lookup, contains, remove, bytes_key, contains-remove, length, length-remove_lt, All, Option-cases,
  Bool-cases, inl, inr, ok,
}
use sandrun.RateLimiter.{Double, Config, state_of, register_job_start}
use sandrun.RateLimiter.Bounds.{FitAll, state_of-Fits, check-FitAll, start-FitAll, end-FitAll}
use sandrun.Jobs.{
  Job, Server, generate_job_id, pop_job, update_positions, download_all, deref, cleanup_jobs,
}
use sandrun.Jobs.Executor.{Outside, execute_job}
use sandrun.Threads.{
  System, Event, Phase, resting, popped, ran, sweeping, ask, register, give_up, push, log_line,
  download, pop, execute, finish, sweep, in_flight, owns, push_job, register_job, executor_step,
  step, Reach, here, next, Anything,
}
use sandrun.Threads.Known.{log_job_lem, >>=-ok, ok-injective, execute_job-HasRun}
use sandrun.Threads.Consistent.{IsDistinct}
use sandrun.Threads.Slots.{is_active-in_flight}

-- Distinct members of a list are at most as many as its elements.
All-remove :
    (id : Bytes) (ids active : List Bytes)
    → contains id ids ≡ false
    → All (λ i. contains i active ≡ true) ids
    → All (λ i. contains i (remove id active) ≡ true) ids
unfolding contains
All-remove id [] active new h = tt
All-remove id (i ∷ ids) active new h = (
  ground (arith, contains-remove id i active, bytes_eq_iff id i, bytes_eq_iff i id, h.0),
  All-remove id ids active (ground arith) h.1,
)

length-IsDistinct :
    (ids active : List Bytes)
    → IsDistinct ids
    → All (λ id. contains id active ≡ true) ids
    → length ids ≤ length active
length-IsDistinct [] active apart h = omega arith
length-IsDistinct (id ∷ ids) active apart h = omega (
  arith,
  length-remove_lt id active h.0,
  length-IsDistinct ids (remove id active) apart.1 (All-remove id ids active apart.0 h.1),
)

module _ {F : Type 0} where
  pop_job-limiter :
      (s : Server F) {front : Server F × _} → pop_job s ≡ ok front → front.0.limiter ≡ s.limiter
  unfolding pop_job
  pop_job-limiter s {front} e = from s.job_queue refl
    where
      from : (queue : List Bytes) → s.job_queue ≡ queue → front.0.limiter ≡ s.limiter
      from [] empty = rw (← ok-injective (rw (empty, pop_job) at e)) refl
      from (id ∷ queue) found =
          let (jobs, numbered, last) =
            >>=-ok (update_positions 1 queue s.jobs) _ (rw (found, pop_job) at e) in
          rw (← ok-injective last) refl

  download_all-limiter :
      (id : Bytes) (s : Server F) {done : Server F × Bool}
      → download_all id s ≡ ok done
      → done.0.limiter ≡ s.limiter
  unfolding download_all
  download_all-limiter id s e = elim (Option-cases (lookup id s.jobs)) [
    | inl gone ↦ rw (← ok-injective (rw (gone, download_all) at e)) refl
    | inr (pointer, found) ↦
        let (job, there, last) = >>=-ok (deref (some pointer)) _ (rw (found, download_all) at e) in
        rw (← ok-injective last) refl
  ]

module _ {F : Type 0} (o : Outside F) (d : Double F) (config : Config F) where
  executor_step-FitAll :
      (e : Event F) (phase : Phase F) (s : System F) {t : System F}
      → FitAll d config s.server.limiter
      → executor_step o d config e phase s ≡ ok t
      → FitAll d config t.server.limiter
  unfolding executor_step
  executor_step-FitAll pop resting s h e =
      let (front, runs, last) = >>=-ok (pop_job s.server) _ e in
      rw (← ok-injective last, pop_job-limiter s.server runs) h
  executor_step-FitAll execute (popped id) s h e =
      let (done, runs, last) = >>=-ok (execute_job o id s.server) _ e in
      rw (← ok-injective last, (execute_job-HasRun o id s.server runs).limiter) h
  executor_step-FitAll (finish now) (ran id ip cpu) s h e =
      rw (← ok-injective e) (end-FitAll d config now ip id cpu s.server.limiter h)
  executor_step-FitAll (sweep now) sweeping s h e =
      let (jobs, swept, last) = >>=-ok (cleanup_jobs o.remove_all now s.server.jobs) _ e in
      rw (← ok-injective last) h
  executor_step-FitAll _ _ s h e = rw (← ok-injective e) h

  register_job-FitAll :
      (seconds now : ℕ) (job : Job F) (s : System F)
      → FitAll d config s.server.limiter
      → FitAll d config (register_job o d config seconds now job s).server.limiter
  unfolding register_job
  register_job-FitAll seconds now job s h =
      let id = (generate_job_id seconds s.counter).0 in
      let fits = start-FitAll d config now job.client_ip id s.server.limiter h in
      elim (Bool-cases (register_job_start d config now job.client_ip id s.server.limiter).1) [
        | inl e ↦ rw (e, register_job) fits
        | inr e ↦ rw (e, register_job) fits
      ]

  step-FitAll :
      (e : Event F) (s : System F) {t : System F}
      → FitAll d config s.server.limiter
      → step o d config e s ≡ ok t
      → FitAll d config t.server.limiter
  unfolding step push_job
  step-FitAll (ask now ip) s h e =
      rw (← ok-injective e) (check-FitAll d config now ip s.server.limiter h)
  step-FitAll (register seconds now job) s h e =
      rw (← ok-injective e) (register_job-FitAll seconds now job s h)
  step-FitAll (give_up seconds) s h e = rw (← ok-injective e) h
  step-FitAll (push id) s h e = elim (Option-cases (lookup id s.registered)) [
    | inl gone ↦ rw (← ok-injective (rw (gone, step) at e)) h
    | inr (job, found) ↦ rw (← ok-injective (rw (found, step) at e)) h
  ]
  step-FitAll (log_line id) s h e = let (left, same, fewer) = log_job_lem id s e in rw (← same) h
  step-FitAll (download id) s h e =
      let (done, runs, last) = >>=-ok (download_all id s.server) _ e in
      rw (← ok-injective last, download_all-limiter id s.server runs) h
  step-FitAll pop s h e = executor_step-FitAll pop s.executor s h e
  step-FitAll execute s h e = executor_step-FitAll execute s.executor s h e
  step-FitAll (finish now) s h e = executor_step-FitAll (finish now) s.executor s h e
  step-FitAll (sweep now) s h e = executor_step-FitAll (sweep now) s.executor s h e

  Reach-FitAll : {s : System F} → Reach o d config Anything s → FitAll d config s.server.limiter
  Reach-FitAll here = tt
  Reach-FitAll (next r e allowed runs) = step-FitAll e _ (Reach-FitAll r) runs

  -- In every state that the threads reach, any different ids of jobs of one address that are on
  -- their way at once are at most max_concurrent_jobs.
  pub length-in_flight :
      {s : System F}
      → Reach o d config Anything s
      → (ip : Bytes) (ids : List Bytes) → IsDistinct ids
      → All (λ id. (in_flight id s && owns ip (lookup id s.owners)) ≡ true) ids
      → length ids ≤ config.max_concurrent_jobs
  length-in_flight {s} r ip ids apart h =
      let active = (state_of ip s.server.limiter).active_jobs in
      omega (
        arith,
        state_of-Fits d config ip s.server.limiter (Reach-FitAll r),
        length-IsDistinct ids active apart (all_active ids h),
      )
    where
      all_active :
          (js : List Bytes)
          → All (λ id. (in_flight id s && owns ip (lookup id s.owners)) ≡ true) js
          → All (λ id. contains id (state_of ip s.server.limiter).active_jobs ≡ true) js
      all_active [] all = tt
      all_active (j ∷ js) all = (is_active-in_flight o d config r ip j ∙ all.0, all_active js all.1)

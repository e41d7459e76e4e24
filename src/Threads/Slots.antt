-- ===== src/Threads/Slots.antt =====
-- The slots of the limiter in every state that the threads of src/main.cpp reach.
use sandrun.Common.{ℕ, ◌&&◌, ◌≡◌, refl, arith, Option-cases, Bytes, lookup, bytes_key, inl, inr, ok}
use sandrun.RateLimiter.{Double, Config, check_quota}
use sandrun.RateLimiter.Active.{is_active, is_active-check_quota}
use sandrun.Jobs.{generate_job_id, pop_job, download_all, cleanup_jobs}
use sandrun.Jobs.Executor.{Outside, execute_job}
use sandrun.Threads.{
  System, Event, Phase, resting, popped, ran, sweeping, ask, register, give_up, push, log_line,
  download, pop, execute, finish, sweep, in_flight, owns, executor_step, step, Reach, here, next,
  Anything,
}
use sandrun.Threads.Known.{log_job_lem, >>=-ok, ok-injective, cleanup_jobs-AllKnown}
use sandrun.Threads.Consistent.{IsConsistent, start-IsConsistent, limiter-IsConsistent}
use sandrun.Threads.Steps.{
  next_counter, push-IsConsistent, logging-IsConsistent, jobs-IsConsistent,
  download_all-IsConsistent, register_job-IsConsistent,
}
use sandrun.Threads.Loop.{
  phase-IsConsistent, pop_job-IsConsistent, execute_job-IsConsistent, finish-IsConsistent,
}

module _ {F : Type 0} (o : Outside F) (d : Double F) (config : Config F) where
  sweep-IsConsistent :
      (now : ℕ) (s : System F) {t : System F}
      → IsConsistent s
      → s.executor ≡ sweeping
      → executor_step o d config (sweep now) sweeping s ≡ ok t
      → IsConsistent t
  unfolding executor_step
  sweep-IsConsistent now s h at e =
      let (jobs, swept, last) = >>=-ok (cleanup_jobs o.remove_all now s.server.jobs) _ e in
      let kept =
        jobs-IsConsistent s (record s.server { jobs = jobs }) h
          (cleanup_jobs-AllKnown s.owners o.remove_all now s.server.jobs h.known swept) refl refl in
      rw (← ok-injective last) (
        phase-IsConsistent (record s { server = record s.server { jobs = jobs } }) resting kept
          (λ id. rw at refl) (λ id ip cpu p. cc))

  executor_step-IsConsistent :
      (e : Event F) (phase : Phase F) (s : System F) {t : System F}
      → IsConsistent s
      → s.executor ≡ phase
      → executor_step o d config e phase s ≡ ok t
      → IsConsistent t
  unfolding executor_step
  executor_step-IsConsistent pop resting s h at e =
      let (front, popped_front, last) = >>=-ok (pop_job s.server) _ e in
      rw (← ok-injective last) (pop_job-IsConsistent s h at popped_front)
  executor_step-IsConsistent execute (popped id) s h at e =
      let (done, runs, last) = >>=-ok (execute_job o id s.server) _ e in
      rw (← ok-injective last) (execute_job-IsConsistent o d config s id h at runs)
  executor_step-IsConsistent (finish now) (ran id ip cpu) s h at e =
      rw (← ok-injective e) (finish-IsConsistent o d config now s id ip cpu h at)
  executor_step-IsConsistent (sweep now) sweeping s h at e = sweep-IsConsistent now s h at e
  executor_step-IsConsistent _ _ s h at e = rw (← ok-injective e) h

  step-IsConsistent :
      (e : Event F) (s : System F) {t : System F}
      → IsConsistent s
      → step o d config e s ≡ ok t
      → IsConsistent t
  unfolding step
  step-IsConsistent (ask now ip) s h e = rw (← ok-injective e) (
      limiter-IsConsistent s (check_quota d config now ip s.server.limiter).0 s.counter h
        (is_active-check_quota d config now ip s.server.limiter) (omega arith))
  step-IsConsistent (register seconds now job) s h e =
      rw (← ok-injective e) (register_job-IsConsistent o d config seconds now job s h)
  step-IsConsistent (give_up seconds) s h e = rw (← ok-injective e) (
      limiter-IsConsistent s s.server.limiter (generate_job_id seconds s.counter).1 h
        (λ ip id. refl) (omega (arith, next_counter seconds s.counter)))
  step-IsConsistent (push id) s h e = elim (Option-cases (lookup id s.registered)) [
    | inl gone ↦ rw (← ok-injective (rw (gone, step) at e)) h
    | inr (job, found) ↦
        rw (← ok-injective (rw (found, step) at e)) (push-IsConsistent s id job h found)
  ]
  step-IsConsistent (log_line id) s h e =
      let (left, same, fewer) = log_job_lem id s e in rw (← same) (logging-IsConsistent s left h)
  step-IsConsistent (download id) s h e =
      let (done, runs, last) = >>=-ok (download_all id s.server) _ e in
      rw (← ok-injective last) (download_all-IsConsistent s id h runs)
  step-IsConsistent pop s h e = executor_step-IsConsistent pop s.executor s h refl e
  step-IsConsistent execute s h e = executor_step-IsConsistent execute s.executor s h refl e
  step-IsConsistent (finish now) s h e =
      executor_step-IsConsistent (finish now) s.executor s h refl e
  step-IsConsistent (sweep now) s h e = executor_step-IsConsistent (sweep now) s.executor s h refl e

  pub Reach-IsConsistent :
      {Allowed : Event F → System F → Type 0} {s : System F}
      → Reach o d config Allowed s
      → IsConsistent s
  Reach-IsConsistent here = start-IsConsistent
  Reach-IsConsistent (next r e allowed runs) = step-IsConsistent e _ (Reach-IsConsistent r) runs

  -- In every state that the threads reach, the active jobs of an address are exactly its jobs on
  -- their way: admitted under the address, and registered, waiting or with the executor.
  pub is_active-in_flight :
      {s : System F}
      → Reach o d config Anything s
      → (ip id : Bytes)
      → is_active ip id s.server.limiter ≡ (in_flight id s && owns ip (lookup id s.owners))
  is_active-in_flight r = (Reach-IsConsistent r).slots

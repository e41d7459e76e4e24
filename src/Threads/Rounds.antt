-- ===== src/Threads/Rounds.antt =====
-- The rounds of the executor thread of src/main.cpp as sequences of its sections: the round of
-- Jobs/Executor, and the rounds around the clean-up of a job that still waits.
use sandrun.Common.{
  ℕ, true, List, [], ◌∷◌, ◌≡◌, refl, ap, arith, none, some, Bytes, bytes_eq, lookup, bytes_key, inl,
  inr, Outcome-cases, ok, err, undefined_behavior, ◌>>=◌,
}
use sandrun.RateLimiter.{Double, Config}
use sandrun.Jobs.{Remover, removal, deref, pop_job, cleanup_jobs, is_old}
use sandrun.Jobs.Executor.{Outside, execute_job, executor_round}
use sandrun.Jobs.Pointers.{
  Jobs, lookup-cases, update_positions_lem, cleanup_jobs_lem, ip_of, ip_behind,
}
use sandrun.Jobs.Rounds.{IsRemovable}
use sandrun.Threads.{
  System, resting, sweeping, pop, execute, finish, sweep, executor_step, step, run, Reach, Anything,
}
use sandrun.Threads.Known.{>>=-ok, ok-injective, cleanup_jobs-AllKnown}
use sandrun.Threads.Served.{AllKnown-all_present}
use sandrun.Threads.Slots.{Reach-IsConsistent}

module _ {F : Type 0} where
  -- Every entry under an id is a job that is old.
  abbrev pub AllOld : ℕ → Bytes → Jobs F → Type 0
  AllOld now id [] = Unit {0}
  AllOld now id ((i, none) ∷ jobs) = AllOld now id jobs
  AllOld now id ((i, some job) ∷ jobs) =
      (bytes_eq i id ≡ true → is_old now job ≡ true) × AllOld now id jobs

  -- The clean-up removes an old job.
  cleanup_jobs-old :
      (remove_all : Remover) (now : ℕ) (id : Bytes) (jobs : Jobs F) {after : Jobs F}
      → cleanup_jobs remove_all now jobs ≡ ok after
      → AllOld now id jobs
      → lookup id after ≡ none
  unfolding cleanup_jobs lookup deref
  cleanup_jobs-old remove_all now id [] e old = rw (← ok-injective e) refl
  cleanup_jobs-old remove_all now id ((i, none) ∷ jobs) e old = absurd (cc)
  cleanup_jobs-old remove_all now id ((i, some job) ∷ jobs) e old =
      let (_, removed, e') = >>=-ok (removal remove_all now job) _ e in
      let (rest, runs, last) = >>=-ok (cleanup_jobs remove_all now jobs) _ e' in
      let gone = cleanup_jobs-old remove_all now id jobs runs old.1 in ground (arith, gone, last)

module _ {F : Type 0} (o : Outside F) (d : Double F) (config : Config F) where
  -- A round whose sections run without another thread between them is the round of the executor,
  -- be there a job or none, and whatever it ends in.
  pub run-executor_round :
      (now : ℕ) (s : System F)
      → s.executor ≡ resting
      → run o d config (pop ∷ execute ∷ finish now ∷ sweep now ∷ []) s
        ≡ (executor_round o d config now s.server >>= λ server. ok (record s { server = server }))
  unfolding run step executor_step executor_round
  run-executor_round now s rest = elim (Outcome-cases (pop_job s.server)) [
    | inr (x, e) ↦ rw (rest, e) refl
    | inl ((server, none), e) ↦ elim (Outcome-cases (cleanup_jobs o.remove_all now server.jobs)) [
      | inr (x, swept) ↦ rw (rest, e, swept) refl
      | inl (jobs, swept) ↦ rw (rest, e, swept) refl
    ]
    | inl ((server, some id), e) ↦ elim (Outcome-cases (execute_job o id server)) [
      | inr (x, runs) ↦ rw (rest, e, runs) refl
      | inl ((done, job), runs) ↦ elim (Outcome-cases (cleanup_jobs o.remove_all now done.jobs)) [
        | inr (x, swept) ↦ rw (rest, e, runs, swept) refl
        | inl (jobs, swept) ↦ rw (rest, e, runs, swept) refl
      ]
    ]
  ]

  -- In every state that the threads reach in which the executor is about to sweep, and the job
  -- at the front of the queue is old by then, the clean-up takes the job away, and the
  -- executor's next round follows a null pointer. Every working directory can be removed.
  pub run-old :
      {s : System F}
      → Reach o d config Anything s
      → (now : ℕ) (id : Bytes) (queue : List Bytes) → s.executor ≡ sweeping
      → s.server.job_queue ≡ id ∷ queue
      → IsRemovable o
      → AllOld now id s.server.jobs
      → run o d config (sweep now ∷ pop ∷ execute ∷ []) s ≡ err undefined_behavior
  unfolding run step executor_step pop_job execute_job deref
  run-old {s} r now id queue at front removable old =
      let h = Reach-IsConsistent o d config r in
      let present = AllKnown-all_present s.owners s.server.jobs h.known in
      let (jobs, swept) = cleanup_jobs_lem o.remove_all removable now s.server.jobs present in
      let gone = cleanup_jobs-old o.remove_all now id s.server.jobs swept old in
      let kept =
        AllKnown-all_present s.owners jobs
          (cleanup_jobs-AllKnown s.owners o.remove_all now s.server.jobs h.known swept) in
      let (after, numbered, filled, same) = update_positions_lem 1 queue jobs kept in
      elim (lookup-cases id after filled) [
        | inl lost ↦ rw (at, swept, front, numbered, lost) refl
        | inr (job, found) ↦
            let here : ip_of id after ≡ some job.client_ip = ap ip_behind found in
            let nowhere : ip_of id jobs ≡ none = ap ip_behind gone in
            absurd (cc (here, nowhere, same id))
      ]

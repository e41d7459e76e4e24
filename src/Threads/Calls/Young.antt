-- ===== src/Threads/Calls/Young.antt =====
-- Rounds of the executor of src/main.cpp while no job in the map is old.
use sandrun.Common.{
  arith, ◌≤◌, ℕ, suc, ◌-◌, ◌/◌, true, false, List, [], ◌∷◌, ◌≡◌, refl, sym, ap, ◌∙◌, Option, none,
  some, Bytes, Option-cases, inl, inr, lookup, insert, bytes_key, All, ok, ltb,
}
use sandrun.Common.Entries.{lookup-All, insert-All}
use sandrun.RateLimiter.{minute, Double, Config, register_job_end}
use sandrun.Files.Directory.{hash_directory}
use sandrun.Jobs.{
  Remover, removal, Job, Server, deref, update_positions, cleanup_jobs, is_old, pop_job,
}
use sandrun.Jobs.Executor.{
  Outside, sign_job, finished, report, run_job, execute_job, executor_round,
}
use sandrun.Jobs.Pointers.{Jobs, all_present, lookup-cases, ip_of, ip_behind, ip_of-insert}
use sandrun.Jobs.Rounds.{IsListable, execute_job_lem}
use sandrun.Threads.{is_some}
use sandrun.Threads.Known.{>>=-ok, ok-injective, execute_job-HasRun}

module _ {F : Type 0} where
  -- A job of at most five whole minutes.
  abbrev pub IsYoung : ℕ → Bytes × Option (Job F) → Type 0
  IsYoung now (id, none) = ⊥
  IsYoung now (id, some job) = ltb 5 ((now - job.created_at) / minute) ≡ false

  abbrev pub AllYoung : ℕ → Jobs F → Type 0
  AllYoung now = All (IsYoung now)

  AllYoung-all_present : (now : ℕ) (jobs : Jobs F) → AllYoung now jobs → all_present jobs ≡ true
  AllYoung-all_present now [] h = refl
  AllYoung-all_present now ((id, none) ∷ jobs) h = absurd h.0
  AllYoung-all_present now ((id, some job) ∷ jobs) h = AllYoung-all_present now jobs h.1

  -- A job that is young later is young before.
  AllYoung-earlier :
      (now last : ℕ) (jobs : Jobs F) → now ≤ last → AllYoung last jobs → AllYoung now jobs
  AllYoung-earlier now last [] before h = tt
  AllYoung-earlier now last ((id, none) ∷ jobs) before h = absurd h.0
  AllYoung-earlier now last ((id, some job) ∷ jobs) before h =
      (young job h.0, AllYoung-earlier now last jobs before h.1)
    where
      young :
          (j : Job F)
          → ltb 5 ((last - j.created_at) / minute) ≡ false
          → ltb 5 ((now - j.created_at) / minute) ≡ false
      young j late = ground arith

  -- The clean-up keeps them all.
  cleanup_jobs-AllYoung :
      (remove_all : Remover) (now : ℕ) (jobs : Jobs F)
      → AllYoung now jobs
      → cleanup_jobs remove_all now jobs ≡ ok jobs
  unfolding cleanup_jobs removal deref is_old
  cleanup_jobs-AllYoung remove_all now [] h = refl
  cleanup_jobs-AllYoung remove_all now ((id, none) ∷ jobs) h = absurd h.0
  cleanup_jobs-AllYoung remove_all now ((id, some job) ∷ jobs) h =
      rw (h.0, cleanup_jobs-AllYoung remove_all now jobs h.1) refl

  update_positions-AllYoung :
      (now position : ℕ) (queue : List Bytes) (jobs : Jobs F)
      → AllYoung now jobs
      → (after : Jobs F) × (update_positions position queue jobs ≡ ok after)
        × AllYoung now after
        × ((i : Bytes) → ip_of i after ≡ ip_of i jobs)
  unfolding update_positions
  update_positions-AllYoung now position [] jobs h = (jobs, refl, h, λ i. refl)
  update_positions-AllYoung now position (id ∷ queue) jobs h =
      elim (lookup-cases id jobs (AllYoung-all_present now jobs h)) [
        | inl e ↦ rw (e, update_positions) (update_positions-AllYoung now position queue jobs h)
        | inr (job, e) ↦
            let moved = record job { queue_position = position } in
            let young = lookup-All (IsYoung now) id (some job) jobs h e in
            let (after, runs, still, same) =
              update_positions-AllYoung now (suc position) queue (insert id (some moved) jobs)
                (insert-All (IsYoung now) id (some moved) jobs young h) in
            (
              after,
              rw (e, update_positions) (unfold deref in runs),
              still,
              λ i. same i ∙ ip_of-insert id i job moved jobs e refl,
            )
      ]

module _ {F : Type 0} (o : Outside F) where
  sign_job-created_at : (job : Job F) → (sign_job o job).created_at ≡ job.created_at
  unfolding sign_job
  sign_job-created_at job = elim (Option-cases o.worker_identity) [
    | inl e ↦ rw e refl
    | inr (identity, e) ↦ rw e refl
  ]

  execute_job-created_at :
      (id : Bytes) (s : Server F) (job : Job F) {done : Server F × Job F}
      → lookup id s.jobs ≡ some (some job)
      → execute_job o id s ≡ ok done
      → done.1.created_at ≡ job.created_at
  unfolding execute_job run_job report finished deref
  execute_job-created_at id s job found e =
      let (after, ran, last) =
        >>=-ok (run_job o id job s.broadcaster) _ (rw (found, execute_job) at e) in
      let (files, listed, ended) = >>=-ok (hash_directory _ _ _ _) _ ran in
      rw (← ok-injective last, ← ok-injective ended) (sign_job-created_at _)

  execute_job-AllYoung :
      IsListable o
      → (now : ℕ) (id : Bytes) (s : Server F) (job : Job F) → AllYoung now s.jobs
      → lookup id s.jobs ≡ some (some job)
      → (done : Server F × Job F) × (execute_job o id s ≡ ok done)
        × AllYoung now done.0.jobs
        × (done.0.job_queue ≡ s.job_queue)
        × ((i : Bytes) → ip_of i done.0.jobs ≡ ip_of i s.jobs)
  execute_job-AllYoung listable now id s job h found =
      let (done, runs, ip, limiter, queue, filled) =
        execute_job_lem o listable id s job (AllYoung-all_present now s.jobs h) found in
      let by = execute_job-HasRun o id s runs in
      let age = execute_job-created_at id s job found runs in
      let young = lookup-All (IsYoung now) id (some job) s.jobs h found in
      (
        done,
        runs,
        rw by.jobs (insert-All (IsYoung now) id (some done.1) s.jobs (rw age young) h),
        queue,
        λ i. rw by.jobs (ip_of-insert id i job done.1 s.jobs found ip),
      )

  -- A round before a time when no job in the map is old returns, takes the front of the queue, and keeps
  -- the jobs.
  pub executor_round-AllYoung :
      IsListable o
      → (d : Double F) (config : Config F) (now last : ℕ) (s : Server F) (id : Bytes)
      → (queue : List Bytes) → now ≤ last
      → AllYoung last s.jobs
      → s.job_queue ≡ id ∷ queue
      → is_some (ip_of id s.jobs) ≡ true
      → (after : Server F) × (executor_round o d config now s ≡ ok after)
        × (after.job_queue ≡ queue)
        × AllYoung last after.jobs
        × ((i : Bytes) → ip_of i after.jobs ≡ ip_of i s.jobs)
  unfolding executor_round pop_job
  executor_round-AllYoung listable d config now last s id queue before h front held =
      let (jobs, numbered, young, same) = update_positions-AllYoung last 1 queue s.jobs h in
      elim (lookup-cases id jobs (AllYoung-all_present last jobs young)) [
        | inl gone ↦
            let lost : ip_of id jobs ≡ none = ap ip_behind gone in
            absurd (cc (ap is_some (sym (same id) ∙ lost), held))
        | inr (job, found) ↦
            let popped = record s { jobs = jobs; job_queue = queue } in
            let (done, ran, still, rest, kept) =
              execute_job-AllYoung listable last id popped job young found in
            (
              record done.0 {
                limiter =
                    register_job_end d config now done.1.client_ip id done.1.cpu_seconds
                      done.0.limiter;
              },
              rw
                  (
                    front,
                    numbered,
                    ran,
                    cleanup_jobs-AllYoung o.remove_all now done.0.jobs
                        (AllYoung-earlier now last done.0.jobs before still),
                  )
                  refl,
              rest,
              still,
              λ i. kept i ∙ same i,
            )
      ]

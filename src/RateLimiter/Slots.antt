-- ===== src/RateLimiter/Slots.antt =====
-- The job slots of an address: `register_job_start`, `register_job_end` and `cleanup_old_entries`
-- of src/rate_limiter.cpp.
use sandrun.Common.{
  ℕ, suc, ◌<◌, true, false, ◌↔◌, ◌≡◌, ◌≢◌, arith, Bytes, length, some, [], ◌∷◌, ◌++◌, lookup,
  insert, bytes_key, bytes_eq_iff, contains, Bool-cases, inl, inr, leb, refl, contains-add,
  same_refl, lookup-insert, lookup-insert_self, remove-add, is_empty,
}
use sandrun.RateLimiter.{
  Double, Config, IpState, States, state_of, jobs_since, register_job_start, register_job_end,
  check_quota, ended, admitted, cleanup_ip_history, cleanup_old_entries,
}
use sandrun.RateLimiter.History.{jobs_since-drop_submissions, jobs_since-append}

module _ {F : Type 0} (d : Double F) (config : Config F) where
  -- A job is admitted exactly when the address runs fewer jobs than the limit; it is then one of
  -- the address's active jobs, and the submissions of the last hour are one more than before.
  pub register_job_start-admits :
      (now : ℕ) (ip job_id : Bytes) (states : States F)
      → let started = register_job_start d config now ip job_id states in
        ((started.1 ≡ true)
          ↔ (length (state_of ip states).active_jobs < config.max_concurrent_jobs))
        × (started.1 ≡ true
            → (contains job_id (state_of ip started.0).active_jobs ≡ true)
              × (jobs_since now (state_of ip started.0).job_submissions
                  ≡ suc (jobs_since now (state_of ip states).job_submissions)))
  unfolding register_job_start
  register_job_start-admits now ip job_id states =
      let s = record (state_of ip states) { last_seen = now } in
      ground (
        arith,
        lookup-insert_self ip (admitted d config now job_id s) states,
        contains-add job_id job_id s.active_jobs,
        same_refl job_id,
        jobs_since-drop_submissions now (s.job_submissions ++ now ∷ []),
        jobs_since-append now s.job_submissions,
      )

  -- A job that is not admitted leaves the active jobs as they were.
  pub register_job_start-refuses :
      (now : ℕ) (ip job_id : Bytes) (states : States F)
      → (register_job_start d config now ip job_id states).1 ≡ false
      → (state_of ip (register_job_start d config now ip job_id states).0).active_jobs
        ≡ (state_of ip states).active_jobs
  unfolding register_job_start
  register_job_start-refuses now ip job_id states h =
      let s = record (state_of ip states) { last_seen = now } in
      elim (Bool-cases (leb config.max_concurrent_jobs (length s.active_jobs))) [
        | inl e ↦ rw (e, lookup-insert_self ip s states) refl
        | inr e ↦ absurd (cc (rw e at h))
      ]

  -- A check of the quota leaves the active jobs as they are.
  pub check_quota-active_jobs :
      (now : ℕ) (ip : Bytes) (states : States F)
      → (state_of ip (check_quota d config now ip states).0).active_jobs
        ≡ (state_of ip states).active_jobs
  unfolding check_quota cleanup_ip_history
  check_quota-active_jobs now ip states =
      let s = cleanup_ip_history now (record (state_of ip states) { last_seen = now }) in
      rw (lookup-insert_self ip s states) refl

  -- Other addresses do not notice.
  register_job_start-isolated :
      (now : ℕ) (ip other job_id : Bytes) (states : States F)
      → other ≢ ip
      → lookup other (register_job_start d config now ip job_id states).0 ≡ lookup other states
  unfolding register_job_start
  register_job_start-isolated now ip other job_id states h =
      let s = record (state_of ip states) { last_seen = now } in
      ground (
        arith,
        lookup-insert ip other s states,
        lookup-insert ip other (admitted d config now job_id s) states,
        bytes_eq_iff ip other,
        h,
      )

  -- After a job that was not active is admitted and has ended, the address has the active jobs
  -- that it had before.
  pub register_job_end-start :
      (now later : ℕ) (ip job_id : Bytes) (cpu_seconds : F) (states : States F)
      → length (state_of ip states).active_jobs < config.max_concurrent_jobs
      → contains job_id (state_of ip states).active_jobs ≡ false
      → (state_of ip (
          register_job_end d config later ip job_id cpu_seconds
            (register_job_start d config now ip job_id states).0)).active_jobs
        ≡ (state_of ip states).active_jobs
  unfolding register_job_start register_job_end ended cleanup_ip_history
  register_job_end-start now later ip job_id cpu_seconds states room new =
      let s = record (state_of ip states) { last_seen = now } in
      let t = admitted d config now job_id s in
      ground (
        arith,
        lookup-insert_self ip t states,
        lookup-insert_self ip (ended d config later job_id cpu_seconds t) (insert ip t states),
        remove-add job_id s.active_jobs new,
      )

  -- The clean-up forgets no address that runs a job, and keeps the jobs that it runs.
  cleanup_old_entries-keeps :
      (now : ℕ) (ip : Bytes) (s : IpState F) (states : States F)
      → lookup ip states ≡ some s
      → is_empty s.active_jobs ≡ false
      → lookup ip (cleanup_old_entries d config now states) ≡ some (cleanup_ip_history now s)
  unfolding cleanup_old_entries lookup
  cleanup_old_entries-keeps now ip s [] h busy = cc
  cleanup_old_entries-keeps now ip s ((i, t) ∷ states) h busy =
      ground (arith, cleanup_old_entries-keeps now ip s states)

-- ===== src/RateLimiter/Bounds.antt =====
-- The limit on concurrent jobs of src/rate_limiter.h, over every history of calls.
use sandrun.Common.{
  ℕ, ◌≤◌, ◌≡◌, inl, inr, arith, Bytes, length, some, List, [], ◌∷◌, lookup, insert, Option-cases,
  bytes_key, length-add, length-remove, All,
}
use sandrun.RateLimiter.{
  Double, Config, IpState, States, state_of, check_quota, register_job_start, admitted,
  register_job_end, ended, cleanup_ip_history, cleanup_old_entries,
}

-- The calls that change the limiter's state.
pub data Call (F : Type 0) : Type 0 where
  checks : Bytes → Call F
  starts : Bytes → Bytes → Call F
  ends : Bytes → Bytes → F → Call F
  cleans : Call F

module _ {F : Type 0} (d : Double F) (config : Config F) where
  -- One call at the time `now`.
  pub step : States F → ℕ × Call F → States F
  step states (now, checks ip) = (check_quota d config now ip states).0
  step states (now, starts ip job_id) = (register_job_start d config now ip job_id states).0
  step states (now, ends ip job_id cpu) = register_job_end d config now ip job_id cpu states
  step states (now, cleans) = cleanup_old_entries d config now states

  pub run : States F → List (ℕ × Call F) → States F
  unfolding step
  run states [] = states
  run states (call ∷ calls) = run (step states call) calls

  abbrev pub Fits : IpState F → Type 0
  Fits s = length s.active_jobs ≤ config.max_concurrent_jobs

  abbrev pub FitAll : States F → Type 0
  FitAll = All λ entry. Fits entry.1

  insert-FitAll :
      (ip : Bytes) (s : IpState F) (states : States F)
      → Fits s
      → FitAll states
      → FitAll (insert ip s states)
  unfolding insert
  insert-FitAll ip s [] h all = (h, tt)
  insert-FitAll ip s ((i, t) ∷ states) h all = ground (arith, insert-FitAll ip s states h all.1)

  lookup-Fits :
      (ip : Bytes) (s : IpState F) (states : States F)
      → FitAll states
      → lookup ip states ≡ some s
      → Fits s
  unfolding lookup
  lookup-Fits ip s [] all h = cc
  lookup-Fits ip s ((i, t) ∷ states) all h = ground (arith, lookup-Fits ip s states all.1)

  pub state_of-Fits : (ip : Bytes) (states : States F) → FitAll states → Fits (state_of ip states)
  state_of-Fits ip states all = elim (Option-cases (lookup ip states)) [
    | inl e ↦ ground arith
    | inr (s, e) ↦ ground (arith, lookup-Fits ip s states all e)
  ]

  cleanup-FitAll :
      (now : ℕ) (states : States F)
      → FitAll states
      → FitAll (cleanup_old_entries d config now states)
  unfolding cleanup_old_entries cleanup_ip_history
  cleanup-FitAll now [] all = tt
  cleanup-FitAll now ((i, t) ∷ states) all = ground (arith, cleanup-FitAll now states all.1)

  pub start-FitAll :
      (now : ℕ) (ip job_id : Bytes) (states : States F)
      → FitAll states
      → FitAll (register_job_start d config now ip job_id states).0
  unfolding register_job_start admitted
  start-FitAll now ip job_id states all =
      let s = record (state_of ip states) { last_seen = now } in
      ground (
        arith,
        state_of-Fits ip states all,
        length-add job_id s.active_jobs,
        insert-FitAll ip s states,
        insert-FitAll ip (admitted d config now job_id s) states,
      )

  pub end-FitAll :
      (now : ℕ) (ip job_id : Bytes) (cpu : F) (states : States F)
      → FitAll states
      → FitAll (register_job_end d config now ip job_id cpu states)
  unfolding register_job_end ended cleanup_ip_history
  end-FitAll now ip job_id cpu states all = elim (Option-cases (lookup ip states)) [
    | inl e ↦ ground arith
    | inr (s, e) ↦ ground (
      arith,
      lookup-Fits ip s states all e,
      length-remove job_id s.active_jobs,
      insert-FitAll ip (ended d config now job_id cpu s) states,
    )
  ]

  pub check-FitAll :
      (now : ℕ) (ip : Bytes) (states : States F)
      → FitAll states
      → FitAll (check_quota d config now ip states).0
  unfolding check_quota cleanup_ip_history
  check-FitAll now ip states all = insert-FitAll ip _ states (state_of-Fits ip states all) all

  step-FitAll : (states : States F) (call : ℕ × Call F) → FitAll states → FitAll (step states call)
  unfolding step
  step-FitAll states (now, checks ip) all = check-FitAll now ip states all
  step-FitAll states (now, starts ip job_id) all = start-FitAll now ip job_id states all
  step-FitAll states (now, ends ip job_id cpu) all = end-FitAll now ip job_id cpu states all
  step-FitAll states (now, cleans) all = cleanup-FitAll now states all

  run-FitAll :
      (states : States F) (calls : List (ℕ × Call F)) → FitAll states → FitAll (run states calls)
  unfolding run
  run-FitAll states [] all = all
  run-FitAll states (call ∷ calls) all =
      run-FitAll (step states call) calls (step-FitAll states call all)

  -- After any history of calls at any times, from the empty limiter on, no address has more active
  -- jobs than the limit.
  pub run-le-max :
      (calls : List (ℕ × Call F)) (ip : Bytes)
      → length (state_of ip (run [] calls)).active_jobs ≤ config.max_concurrent_jobs
  run-le-max calls ip = state_of-Fits ip (run [] calls) (run-FitAll [] calls tt)

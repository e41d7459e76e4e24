-- ===== src/RateLimiter/Quota.antt =====
-- When `check_quota` of src/rate_limiter.cpp admits a submission.
use sandrun.Common.{ℕ, ◌<◌, true, false, ◌↔◌, ◌≡◌, arith, Bytes, length}
use sandrun.RateLimiter.{
  Double, Config, IpState, States, state_of, jobs_since, available, check_quota, drop_usage,
}
use sandrun.RateLimiter.History.{jobs_since-drop_submissions, used_since-drop_usage}

module _ {F : Type 0} (d : Double F) (config : Config F) where
  available-drop_usage :
      (now : ℕ) (s : IpState F)
      → available d config now (drop_usage now s.cpu_usage_history)
        ≡ available d config now s.cpu_usage_history
  unfolding available
  available-drop_usage now s = rw (used_since-drop_usage d now d.zero s.cpu_usage_history)

  -- A submission is admitted exactly when the address runs fewer jobs than the limit, has
  -- submitted fewer jobs within the last hour than the limit, and has CPU time left in the last
  -- minute, each counted over the full history that the address had before the call.
  pub check_quota-can_submit :
      (now : ℕ) (ip : Bytes) (states : States F)
      → ((check_quota d config now ip states).1.can_submit ≡ true) ↔ (
          (length (state_of ip states).active_jobs < config.max_concurrent_jobs)
          × (jobs_since now (state_of ip states).job_submissions < config.max_jobs_per_hour)
          × (d.at_most (available d config now (state_of ip states).cpu_usage_history) d.zero
              ≡ false))
  unfolding check_quota
  check_quota-can_submit now ip states = ground (
    arith,
    jobs_since-drop_submissions now (state_of ip states).job_submissions,
    available-drop_usage now (state_of ip states),
  )

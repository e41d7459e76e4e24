-- ===== src/RateLimiter/Tests.antt =====
-- The rate limiter's theorems at inputs, over whole numbers of milliseconds of CPU time.
use sandrun.Common.{
  ℕ, ◌+◌, ◌-◌, ◌*◌, ◌≤◌, ◌<◌, true, false, ◌↔◌, ◌≡◌, refl, Bytes, codes, length, [], ◌∷◌, lookup,
  ltb, leb, bytes_key, bytes_eq,
}
use sandrun.RateLimiter.{
  Double, Config, IpState, States, state_of, check_quota, jobs_since, available, second,
}
use sandrun.RateLimiter.Quota.{check_quota-can_submit}
use sandrun.RateLimiter.Bounds.{checks, starts, ends, cleans, run, run-le-max}

abbrev pub milliseconds : Double ℕ
milliseconds = record { zero = 0; plus = ◌+◌; minus = ◌-◌; less = ltb; at_most = leb }

abbrev pub limits : Config ℕ
limits = record {
  cpu_seconds_per_minute = 10_000;
  max_concurrent_jobs = 2;
  max_jobs_per_hour = 20;
  cleanup_after_minutes = 60;
}

abbrev home : Bytes
home = codes "10.0.0.1"

abbrev job_1 : Bytes
job_1 = codes "job_1"

abbrev job_2 : Bytes
job_2 = codes "job_2"

abbrev busy : IpState ℕ
busy = record {
  cpu_usage_history = (5 * second, 300) ∷ [];
  active_jobs = job_1 ∷ [];
  job_submissions = second ∷ [];
  last_seen = 5 * second;
}

abbrev one_job : States ℕ
one_job = (home, busy) ∷ []

check_quota-can_submit_example :
    ((check_quota milliseconds limits (6 * second) home one_job).1.can_submit ≡ true) ↔ (
      (length (state_of home one_job).active_jobs < 2)
      × (jobs_since (6 * second) (state_of home one_job).job_submissions < 20)
      × (leb
            (available milliseconds limits (6 * second) (state_of home one_job).cpu_usage_history)
            0
          ≡ false))
check_quota-can_submit_example =
    check_quota-can_submit milliseconds limits (6 * second) home one_job

admitted_now : (check_quota milliseconds limits (6 * second) home one_job).1.can_submit ≡ true
unfolding check_quota jobs_since lookup bytes_eq
admitted_now = refl

run-le-max_example :
    length
      (state_of home (
        run milliseconds limits [] (
          (1, checks home)
          ∷ (2, starts home job_1)
          ∷ (3, starts home job_2)
          ∷ (4, starts home home)
          ∷ (5, ends home job_1 7)
          ∷ (6, cleans)
          ∷ []))).active_jobs
    ≤ 2
run-le-max_example =
    run-le-max milliseconds limits
      ((1, checks home)
        ∷ (2, starts home job_1)
        ∷ (3, starts home job_2)
        ∷ (4, starts home home)
        ∷ (5, ends home job_1 7)
        ∷ (6, cleans)
        ∷ [])
      home

-- ===== src/RateLimiter.antt =====
-- src/rate_limiter.h and src/rate_limiter.cpp: quotas by IP address. Time is the steady clock in
-- nanoseconds, an argument of each call; `t > now - d` is written `now < t + d`. The counts of a
-- configuration are not negative. A CPU time is a value of a type of doubles, whose operations are
-- a parameter. The mutex makes each method one step.
pub mod History
pub mod Quota
pub mod Slots
pub mod Active
pub mod Bounds
pub mod Tests
use sandrun.Common.{
  ℕ, suc, ◌+◌, ◌-◌, ◌*◌, ◌/◌, Bool, true, false, ◌&&◌, List, [], ◌∷◌, ◌++◌, Option, none, some,
  Bytes, codes, ltb, leb, if◌then◌else◌, length, is_empty, count_if, Map, lookup, insert, value_or,
  add, remove, bytes_key,
}
use sandrun.Common.Decimal.{to_string}

-- The operations on doubles that the class uses.
pub record Double (F : Type 0) : Type 0 where
  pub zero : F
  pub plus : F → F → F
  pub minus : F → F → F
  pub less : F → F → Bool
  pub at_most : F → F → Bool

pub record Config (F : Type 0) : Type 0 where
  pub cpu_seconds_per_minute : F
  pub max_concurrent_jobs : ℕ
  pub max_jobs_per_hour : ℕ
  pub cleanup_after_minutes : ℕ

pub record QuotaInfo (F : Type 0) : Type 0 where
  pub cpu_seconds_used : F
  pub cpu_seconds_available : F
  pub active_jobs : ℕ
  pub jobs_this_hour : ℕ
  pub can_submit : Bool
  pub reason : Bytes

pub record IpState (F : Type 0) : Type 0 where
  pub cpu_usage_history : List (ℕ × F)
  pub active_jobs : List Bytes
  pub job_submissions : List ℕ
  pub last_seen : ℕ

abbrev pub second : ℕ
second = 1_000_000_000

abbrev pub minute : ℕ
minute = 60_000_000_000

abbrev pub hour : ℕ
hour = 3_600_000_000_000

abbrev pub States : Type 0 → Type 0
States F = Map Bytes (IpState F)

-- The default IpState, whose time point is the clock's epoch.
abbrev pub unseen : {F : Type 0} → IpState F
unseen = record { cpu_usage_history = []; active_jobs = []; job_submissions = []; last_seen = 0 }

abbrev pub state_of : {F : Type 0} → Bytes → States F → IpState F
state_of ip states = value_or unseen (lookup ip states)

-- The first loop of `cleanup_ip_history`: usage older than a minute leaves at the front.
pub drop_usage : {F : Type 0} → ℕ → List (ℕ × F) → List (ℕ × F)
drop_usage now [] = []
drop_usage now ((time, cpu) ∷ history) =
    if ltb (time + minute) now then drop_usage now history else (time, cpu) ∷ history

-- The second loop: submissions older than an hour.
pub drop_submissions : ℕ → List ℕ → List ℕ
drop_submissions now [] = []
drop_submissions now (time ∷ times) =
    if ltb (time + hour) now then drop_submissions now times else time ∷ times

pub cleanup_ip_history : {F : Type 0} → ℕ → IpState F → IpState F
unfolding drop_usage drop_submissions
cleanup_ip_history now s = record s {
  cpu_usage_history = drop_usage now s.cpu_usage_history;
  job_submissions = drop_submissions now s.job_submissions;
}

-- The submissions of the last hour, as `check_quota` counts them.
unfoldable pub jobs_since : ℕ → List ℕ → ℕ
jobs_since now = count_if (λ time. ltb now (time + hour))

module _ {F : Type 0} (d : Double F) where
  -- The CPU time of the last minute, summed up from the oldest entry on.
  pub used_since : ℕ → F → List (ℕ × F) → F
  used_since now used [] = used
  used_since now used ((time, cpu) ∷ history) =
      used_since now (if ltb now (time + minute) then d.plus used cpu else used) history

  -- `std::max(0.0, x)`.
  pub max_zero : F → F
  max_zero x = if d.less d.zero x then x else d.zero

module _ {F : Type 0} (d : Double F) (config : Config F) where
  pub available : ℕ → List (ℕ × F) → F
  unfolding used_since max_zero
  available now history =
      max_zero d (d.minus config.cpu_seconds_per_minute (used_since d now d.zero history))

  wait_reason : ℕ → List (ℕ × F) → Bytes
  wait_reason now [] = codes "CPU quota exhausted"
  wait_reason now ((oldest, cpu) ∷ history) =
      codes "CPU quota exhausted, wait "
      ++ (to_string ((oldest + minute - now) / second) ++ codes " seconds")

  -- The body of `check_quota` behind the clean-up, with its three early returns.
  quota_of : ℕ → IpState F → QuotaInfo F
  unfolding wait_reason available
  quota_of now s =
      let jobs = jobs_since now s.job_submissions in
      let left = available now s.cpu_usage_history in
      let used = used_since d now d.zero s.cpu_usage_history in
      if leb config.max_concurrent_jobs (length s.active_jobs)
      then record {
        cpu_seconds_used = d.zero;
        cpu_seconds_available = d.zero;
        active_jobs = length s.active_jobs;
        jobs_this_hour = 0;
        can_submit = false;
        reason =
            codes "Max concurrent jobs reached ("
            ++ (to_string config.max_concurrent_jobs ++ codes ")");
      }
      else if leb config.max_jobs_per_hour jobs
      then record {
        cpu_seconds_used = d.zero;
        cpu_seconds_available = d.zero;
        active_jobs = length s.active_jobs;
        jobs_this_hour = jobs;
        can_submit = false;
        reason =
            codes "Max jobs per hour reached ("
            ++ (to_string config.max_jobs_per_hour ++ codes ")");
      }
      else if d.at_most left d.zero
      then record {
        cpu_seconds_used = used;
        cpu_seconds_available = left;
        active_jobs = length s.active_jobs;
        jobs_this_hour = jobs;
        can_submit = false;
        reason = wait_reason now s.cpu_usage_history;
      }
      else record {
        cpu_seconds_used = used;
        cpu_seconds_available = left;
        active_jobs = length s.active_jobs;
        jobs_this_hour = jobs;
        can_submit = true;
        reason = [];
      }

  unfoldable pub check_quota : ℕ → Bytes → States F → States F × QuotaInfo F
  unfolding quota_of cleanup_ip_history
  check_quota now ip states =
      let state = cleanup_ip_history now (record (state_of ip states) { last_seen = now }) in
      (insert ip state states, quota_of now state)

  -- The state of an address with one more job.
  admitted : ℕ → Bytes → IpState F → IpState F
  unfolding drop_submissions
  admitted now job_id s = record s {
    active_jobs = add job_id s.active_jobs;
    job_submissions = drop_submissions now (s.job_submissions ++ now ∷ []);
  }

  unfoldable pub register_job_start : ℕ → Bytes → Bytes → States F → States F × Bool
  unfolding admitted
  register_job_start now ip job_id states =
      let state = record (state_of ip states) { last_seen = now } in
      if leb config.max_concurrent_jobs (length state.active_jobs)
      then (insert ip state states, false)
      else (insert ip (admitted now job_id state) states, true)

  -- The state of an address whose job has ended.
  ended : ℕ → Bytes → F → IpState F → IpState F
  unfolding cleanup_ip_history
  ended now job_id cpu_seconds s = cleanup_ip_history now (record s {
    last_seen = now;
    active_jobs = remove job_id s.active_jobs;
    cpu_usage_history = s.cpu_usage_history ++ (now, cpu_seconds) ∷ [];
  })

  pub register_job_end : ℕ → Bytes → Bytes → F → States F → States F
  unfolding ended
  register_job_end now ip job_id cpu_seconds states = elim (lookup ip states) [
    | none ↦ states
    | some s ↦ insert ip (ended now job_id cpu_seconds s) states
  ]

  pub get_available_cpu_seconds : ℕ → Bytes → States F → F
  unfolding available
  get_available_cpu_seconds now ip states = elim (lookup ip states) [
    | none ↦ config.cpu_seconds_per_minute
    | some s ↦ available now s.cpu_usage_history
  ]

  pub cleanup_old_entries : ℕ → States F → States F
  unfolding cleanup_ip_history
  cleanup_old_entries now [] = []
  cleanup_old_entries now ((ip, s) ∷ states) =
      if ltb (s.last_seen + config.cleanup_after_minutes * minute) now && is_empty s.active_jobs
      then cleanup_old_entries now states
      else (ip, cleanup_ip_history now s) ∷ cleanup_old_entries now states

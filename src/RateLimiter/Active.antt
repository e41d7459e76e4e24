-- ===== src/RateLimiter/Active.antt =====
-- The active jobs of every address after each call of src/rate_limiter.cpp.
use sandrun.Common.{
  ℕ, Bool, false, ◌&&◌, ◌||◌, ◌≡◌, refl, arith, Bytes, bytes_eq, if◌then◌else◌, lookup, insert,
  contains, bytes_key, lookup-insert, contains-add, contains-remove, Option-cases, Bool-cases, inl,
  inr, bytes_eq_iff,
}
use sandrun.RateLimiter.{
  Double, Config, IpState, States, state_of, check_quota, register_job_start, register_job_end,
  admitted, ended, cleanup_ip_history,
}

-- Whether a job is active for an address.
abbrev pub is_active : {F : Type 0} → Bytes → Bytes → States F → Bool
is_active ip id states = contains id (state_of ip states).active_jobs

module _ {F : Type 0} where
  is_active-insert :
      (at ip id : Bytes) (s : IpState F) (states : States F)
      → is_active ip id (insert at s states)
        ≡ (if bytes_eq at ip then contains id s.active_jobs else is_active ip id states)
  is_active-insert at ip id s states = elim (Bool-cases (bytes_eq at ip)) [
    | inl e ↦ rw (lookup-insert at ip s states, e) refl
    | inr e ↦ rw (lookup-insert at ip s states, e) refl
  ]

  module _ (d : Double F) (config : Config F) (now : ℕ) (at : Bytes) (states : States F)
      (ip id : Bytes) where
    pub is_active-check_quota :
        is_active ip id (check_quota d config now at states).0 ≡ is_active ip id states
    unfolding check_quota cleanup_ip_history
    is_active-check_quota =
        let s = cleanup_ip_history now (record (state_of at states) { last_seen = now }) in
        ground (arith, is_active-insert at ip id s states, bytes_eq_iff at ip)

    pub is_active-register_job_start :
        (job_id : Bytes)
        → is_active ip id (register_job_start d config now at job_id states).0 ≡ (
            is_active ip id states
            || ((register_job_start d config now at job_id states).1
                && (bytes_eq at ip && bytes_eq job_id id)))
    unfolding register_job_start admitted
    is_active-register_job_start job_id =
        let s = record (state_of at states) { last_seen = now } in
        ground (
          arith,
          is_active-insert at ip id s states,
          is_active-insert at ip id (admitted d config now job_id s) states,
          contains-add job_id id s.active_jobs,
          bytes_eq_iff at ip,
        )

    pub is_active-register_job_end :
        (job_id : Bytes) (cpu_seconds : F)
        → is_active ip id (register_job_end d config now at job_id cpu_seconds states)
          ≡ (if bytes_eq at ip && bytes_eq job_id id then false else is_active ip id states)
    unfolding register_job_end ended cleanup_ip_history contains
    is_active-register_job_end job_id cpu_seconds = elim (Option-cases (lookup at states)) [
      | inl e ↦ ground (arith, bytes_eq_iff at ip)
      | inr (s, e) ↦ ground (
        arith,
        is_active-insert at ip id (ended d config now job_id cpu_seconds s) states,
        contains-remove job_id id s.active_jobs,
        bytes_eq_iff at ip,
      )
    ]

-- ===== src/Threads/Served.antt =====
-- When the executor of src/main.cpp finds the job that it has taken: as long as no job that waits is
-- downloaded or grows old.
use sandrun.Common.{
  ℕ, Bool, true, false, ◌||◌, List, [], ◌∷◌, ◌≡◌, refl, ap, arith, Option, none, some, Bytes,
  bytes_eq, lookup, contains, bytes_key, lookup-insert, lookup-erase, Option-cases, Bool-cases, inl,
  inr, ok,
}
use sandrun.RateLimiter.{Double, Config}
use sandrun.Jobs.{
  Remover, removal, Job, Server, download_all, deref, pop_job, update_positions, cleanup_jobs,
  is_old,
}
use sandrun.Jobs.Executor.{Outside, execute_job}
use sandrun.Jobs.Pointers.{Jobs, all_present, lookup-cases, update_positions_lem, ip_of, ip_behind}
use sandrun.Threads.{
  System, Event, Phase, resting, popped, ran, sweeping, download, pop, execute, finish, sweep,
  is_some, executor_step,
}
use sandrun.Threads.Known.{AllKnown, >>=-ok, ok-injective, execute_job-HasRun}
use sandrun.Threads.Consistent.{IsConsistent}
use sandrun.Threads.Stages.{pop_job-cases}

module _ {F : Type 0} where
  abbrev pub is_taken : Bytes → Phase F → Bool
  is_taken id (popped j) = bytes_eq j id
  is_taken id phase = false

  -- A job that is queued and has not run, or whose line is still to be printed.
  abbrev pub awaits : Bytes → System F → Bool
  awaits id s = (contains id s.server.job_queue || is_taken id s.executor) || contains id s.logging

  -- No job that waits or is to be printed is downloaded, and none is old when the executor sweeps.
  abbrev pub IsGentle : Event F → System F → Type 0
  IsGentle (download id) s = awaits id s ≡ false
  IsGentle (sweep now) s =
      (id : Bytes) (job : Job F)
      → awaits id s ≡ true
      → lookup id s.server.jobs ≡ some (some job)
      → is_old now job ≡ false
  IsGentle e s = Unit {0}

  pub AllKnown-all_present :
      (owners : _) (jobs : Jobs F) → AllKnown owners jobs → all_present jobs ≡ true
  AllKnown-all_present owners [] h = refl
  AllKnown-all_present owners ((id, none) ∷ jobs) h = absurd h.0
  AllKnown-all_present owners ((id, some job) ∷ jobs) h = AllKnown-all_present owners jobs h.1

  -- The clean-up keeps a job that is not old.
  cleanup_jobs-young :
      (remove_all : Remover) (now : ℕ) (id : Bytes) (job : Job F) (jobs : Jobs F) {after : Jobs F}
      → cleanup_jobs remove_all now jobs ≡ ok after
      → lookup id jobs ≡ some (some job)
      → is_old now job ≡ false
      → lookup id after ≡ some (some job)
  unfolding cleanup_jobs lookup deref
  cleanup_jobs-young remove_all now id job [] e found young = absurd cc
  cleanup_jobs-young remove_all now id job ((i, none) ∷ jobs) e found young = absurd cc
  cleanup_jobs-young remove_all now id job ((i, some other) ∷ jobs) e found young =
      let (_, removed, e') = >>=-ok (removal remove_all now other) _ e in
      let (rest, runs, last) = >>=-ok (cleanup_jobs remove_all now jobs) _ e' in
      elim (Bool-cases (bytes_eq i id)) [
        | inl same ↦ ground (arith, same)
        | inr differs ↦ ground (arith, differs, cleanup_jobs-young remove_all now id job jobs runs)
      ]

  -- A job behind an id stays there while the others are numbered.
  ip_of-found :
      (id : Bytes) (jobs after : Jobs F)
      → all_present jobs ≡ true
      → ip_of id after ≡ ip_of id jobs
      → is_some (lookup id jobs) ≡ true
      → is_some (lookup id after) ≡ true
  ip_of-found id jobs after present same found = elim (Option-cases (lookup id after)) [
    | inr (pointer, there) ↦ rw there refl
    | inl gone ↦ elim (lookup-cases id jobs present) [
      | inl lost ↦ absurd (cc (rw lost at found))
      | inr (job, there) ↦
          let here : ip_of id jobs ≡ some job.client_ip = ap ip_behind there in
          let nowhere : ip_of id after ≡ none = ap ip_behind gone in
          absurd (cc (here, nowhere, same))
    ]
  ]

  -- Every job that waits is in the map.
  abbrev pub IsServed : System F → Type 0
  IsServed s = (id : Bytes) → awaits id s ≡ true → is_some (lookup id s.server.jobs) ≡ true

  pop_job-found :
      (s : Server F) (i : Bytes) {front : Server F × Option Bytes}
      → all_present s.jobs ≡ true
      → pop_job s ≡ ok front
      → is_some (lookup i s.jobs) ≡ true
      → is_some (lookup i front.0.jobs) ≡ true
  unfolding pop_job
  pop_job-found s i {front} present e found = from s.job_queue refl
    where
      from : (queue : List Bytes) → s.job_queue ≡ queue → is_some (lookup i front.0.jobs) ≡ true
      from [] empty = rw (← ok-injective (rw (empty, pop_job) at e)) found
      from (id ∷ queue) filled =
          let (jobs, numbered, last) =
            >>=-ok (update_positions 1 queue s.jobs) _ (rw (filled, pop_job) at e) in
          let (after, runs, kept, same) = update_positions_lem 1 queue s.jobs present in
          let both : after ≡ jobs = ok-injective (cc (runs, numbered)) in
          rw (← ok-injective last, ← both) (ip_of-found i s.jobs after present (same i) found)

  pub download_all-found :
      (id i : Bytes) (s : Server F) {done : Server F × Bool}
      → download_all id s ≡ ok done
      → bytes_eq id i ≡ false
      → lookup i done.0.jobs ≡ lookup i s.jobs
  unfolding download_all
  download_all-found id i s e differs = elim (Option-cases (lookup id s.jobs)) [
    | inl gone ↦ rw (← ok-injective (rw (gone, download_all) at e)) refl
    | inr (pointer, found) ↦
        let (job, there, last) = >>=-ok (deref (some pointer)) _ (rw (found, download_all) at e) in
        rw (← ok-injective last) (rw (lookup-erase id i s.jobs, differs) refl)
  ]

module _ {F : Type 0} (o : Outside F) (d : Double F) (config : Config F) where
  pub executor_step-IsServed :
      (e : Event F) (phase : Phase F) (s : System F) {t : System F}
      → IsConsistent s
      → IsServed s
      → IsGentle e s
      → s.executor ≡ phase
      → executor_step o d config e phase s ≡ ok t
      → IsServed t
  unfolding executor_step contains
  executor_step-IsServed pop resting s h served gentle at e =
      let (front, popped_front, last) = >>=-ok (pop_job s.server) _ e in
      let present = AllKnown-all_present s.owners s.server.jobs h.known in
      rw (← ok-injective last) λ id waits.
        pop_job-found s.server id present popped_front (elim (pop_job-cases s.server popped_front) [
          | inl (empty, left, gone) ↦ ground (arith, empty, left, gone, waits, served id)
          | inr (i, found, there) ↦ ground (arith, found, there, waits, served id)
        ])
  executor_step-IsServed execute (popped i) s h served gentle at e =
      let (done, runs, last) = >>=-ok (execute_job o i s.server) _ e in
      let by = execute_job-HasRun o i s.server runs in
      rw (← ok-injective last) λ id waits.
        rw by.jobs (
          ground
            (arith, lookup-insert i id (some done.1) s.server.jobs, by.queue, served id, waits))
  executor_step-IsServed (finish now) (ran i ip cpu) s h served gentle at e =
      rw (← ok-injective e) λ id waits. served id (ground (arith, waits))
  executor_step-IsServed (sweep now) sweeping s h served gentle at e =
      let (jobs, swept, last) = >>=-ok (cleanup_jobs o.remove_all now s.server.jobs) _ e in
      let present = AllKnown-all_present s.owners s.server.jobs h.known in
      rw (← ok-injective last) λ id waits.
        let waited : awaits id s ≡ true = ground (arith, waits) in
        (elim (lookup-cases id s.server.jobs present) [
          | inl gone ↦ absurd (cc (rw gone at (served id waited)))
          | inr (job, found) ↦
              rw
                (cleanup_jobs-young o.remove_all now id job s.server.jobs swept found
                  (gentle id job waited found))
                refl
        ])
  executor_step-IsServed _ _ s h served gentle at e = rw (← ok-injective e) served

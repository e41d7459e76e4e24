-- ===== src/Threads/Calls/Waiting.antt =====
-- The slots of the limiter in src/main.cpp between whole calls.
use sandrun.Common.{
  ◌≤◌, Option-cases, inl, inr, bytes_eq_iff, true, ◌&&◌, List, [], ◌∷◌, ◌≡◌, refl, sym, ap, ◌∙◌,
  arith, none, some, Bytes, bytes_eq, lookup, contains, length, bytes_key, All, Outcome, ok,
}
use sandrun.Common.Entries.{lookup-All}
use sandrun.RateLimiter.{Double, Config}
use sandrun.RateLimiter.Active.{is_active}
use sandrun.Files.Directory.{FileSystem}
use sandrun.Jobs.Executor.{Outside}
use sandrun.Jobs.Pointers.{ip_of, ip_behind}
use sandrun.Submit.{Storage}
use sandrun.Submit.Handler.{World}
use sandrun.Threads.{System, resting, in_flight, owns}
use sandrun.Threads.Known.{IsKnown}
use sandrun.Threads.Consistent.{IsConsistent, IsDistinct}
use sandrun.Threads.Slots.{Reach-IsConsistent}
use sandrun.Threads.Bound.{length-in_flight}
use sandrun.Answers.Listing.{Removals}
use sandrun.Threads.Calls.{Call, fresh_world, run_calls}
use sandrun.Threads.Calls.Simulated.{IsSimulated, fresh_world-IsSimulated, run_calls-IsSimulated}

module _ {F : Type 0} where
  -- What is on its way while the executor rests and no handler holds a job.
  in_flight-waits :
      (t : System F) (id : Bytes)
      → t.executor ≡ resting
      → lookup id t.registered ≡ none
      → in_flight id t ≡ contains id t.server.job_queue
  in_flight-waits t id executor held = rw (executor, held) (ground arith)

  owns-client :
      (t : System F) (ip id client : Bytes)
      → IsConsistent t
      → ip_of id t.server.jobs ≡ some client
      → owns ip (lookup id t.owners) ≡ bytes_eq client ip
  owns-client t ip id client h listed = elim (Option-cases (lookup id t.server.jobs)) [
    | inl gone ↦ absurd (cc (ap ip_behind gone))
    | inr (none, null) ↦ absurd (cc (ap ip_behind null))
    | inr (some job, found) ↦
        let known = lookup-All (IsKnown t.owners) id (some job) t.server.jobs h.known found in
        let same : some job.client_ip ≡ some client = cc (ap ip_behind found) in
        ap (owns ip) (known ∙ same)
  ]

module _ {F : Type 0} {W : Type 0} (o : Outside F) (d : Double F) (config : Config F)
    (show : F → Bytes) (sha256_string : Bytes → Bytes) (disk : Storage W) (removals : Removals W)
    (fs : FileSystem) (canonical : Bytes → Outcome Bytes) (read_file : Bytes → Bytes)
    (file_name : Bytes → Bytes) (calls : List Call) (empty : W) {w : World F W}
    (ran : run_calls o d config show sha256_string disk removals fs canonical read_file file_name
        calls
        (fresh_world empty)
      ≡ ok w) where
  reached : IsSimulated o d config w
  reached =
      run_calls-IsSimulated o d config show sha256_string disk removals fs canonical read_file
        file_name calls (fresh_world empty) (fresh_world-IsSimulated o d config empty) ran

  -- What is active waits, and the owner that the threads have recorded is its address.
  waiting :
      (ip id : Bytes)
      → is_active ip id w.server.limiter
        ≡ (contains id w.server.job_queue && owns ip (lookup id reached.0.owners))
  waiting ip id =
      let (t, r, server, counter, executor, held) = reached in
      let slots = (Reach-IsConsistent o d config r).slots ip id in
      let waits = in_flight-waits t id executor (held id) in
      let settled = slots ∙ ap (λ b. b && owns ip (lookup id t.owners)) waits in
      rw server at settled

  -- After any whole calls that come back, an active job of an address waits in the queue.
  pub run_calls-waits :
      (ip id : Bytes)
      → is_active ip id w.server.limiter ≡ true
      → contains id w.server.job_queue ≡ true
  run_calls-waits ip id active = ground (arith, sym (waiting ip id) ∙ active)

  -- After any whole calls that come back, the id of a job that the map holds is active at an address
  -- exactly when the job is one of the address and its id waits in the queue.
  pub run_calls-is_active :
      (ip id client : Bytes)
      → ip_of id w.server.jobs ≡ some client
      → is_active ip id w.server.limiter ≡ (contains id w.server.job_queue && bytes_eq client ip)
  run_calls-is_active ip id client listed =
      let (t, r, server, counter, executor, held) = reached in
      let h = Reach-IsConsistent o d config r in
      waiting ip id
      ∙ ap (λ b. contains id w.server.job_queue && b)
          (owns-client t ip id client h (rw server listed))

  -- After any whole calls that come back, any different ids in the queue whose jobs the map holds as
  -- jobs of one address are at most max_concurrent_jobs.
  pub run_calls-length :
      (ip : Bytes) (ids : List Bytes)
      → IsDistinct ids
      → All (λ id. (contains id w.server.job_queue ≡ true) × (ip_of id w.server.jobs ≡ some ip)) ids
      → length ids ≤ config.max_concurrent_jobs
  run_calls-length ip ids apart h =
      length-in_flight o d config reached.1 ip ids apart (all_active ids h)
    where
      active :
          (j : Bytes)
          → (contains j w.server.job_queue ≡ true) × (ip_of j w.server.jobs ≡ some ip)
          → is_active ip j w.server.limiter ≡ true
      active j (waits, listed) =
          run_calls-is_active ip j ip listed ∙ rw (waits, (bytes_eq_iff ip ip).1 refl) refl

      all_active :
          (js : List Bytes)
          → All
              (λ id. (contains id w.server.job_queue ≡ true) × (ip_of id w.server.jobs ≡ some ip))
              js
          → All (λ id. (in_flight id reached.0 && owns ip (lookup id reached.0.owners)) ≡ true) js
      all_active [] all = tt
      all_active (j ∷ js) all = (
        sym ((Reach-IsConsistent o d config reached.1).slots ip j) ∙ rw reached.2 (active j all.0),
        all_active js all.1,
      )

-- ===== src/Threads/Steps.antt =====
-- The sections of the handlers of src/main.cpp keep what holds between the threads' steps.
use sandrun.Common.{
  List, ◌∷◌, ℕ, suc, ◌≤◌, Bool, false, ◌||◌, ◌≡◌, ◌≢◌, refl, ap, arith, some, Bytes, bytes_eq_iff,
  lookup, erase, contains, bytes_key, lookup-erase, Option-cases, Bool-cases, inl, inr, ok,
}
use sandrun.Common.Entries.{insert-All, erase-All}
use sandrun.RateLimiter.{Double, Config, register_job_start}
use sandrun.RateLimiter.Active.{is_active-register_job_start}
use sandrun.Jobs.{Job, Server, generate_job_id, download_all, deref}
use sandrun.Jobs.Executor.{Outside}
use sandrun.Jobs.Ids.{generate_job_id-inj}
use sandrun.Threads.{System, is_some, at_executor, push_job, register_job}
use sandrun.Threads.Known.{AllKnown, IsKnown, >>=-ok, ok-injective}
use sandrun.Threads.Consistent.{
  contains-append, append-IsDistinct, IsConsistent, limiter-IsConsistent, admit-IsConsistent,
}

pub next_counter : (seconds counter : ℕ) → (generate_job_id seconds counter).1 ≡ suc counter
unfolding generate_job_id
next_counter seconds counter = refl

module _ {F : Type 0} where
  pub push-IsConsistent :
      (s : System F) (id : Bytes) (job : Job F)
      → IsConsistent s
      → lookup id s.registered ≡ some job
      → IsConsistent (record s {
        server = push_job id job s.server;
        registered = erase id s.registered;
        logging = id ∷ s.logging;
      })
  unfolding push_job
  push-IsConsistent s id job h e =
      let apart : contains id s.server.job_queue || at_executor id s.executor ≡ false =
        h.apart_registered id (ap is_some e) in
      record {
        slots = λ ip i. ground (
          arith,
          h.slots ip i,
          contains-append i id s.server.job_queue,
          lookup-erase id i s.registered,
          bytes_eq_iff id i,
        );
        known =
            insert-All (IsKnown s.owners) id _ s.server.jobs (h.known_registered id job e) h.known;
        distinct = append-IsDistinct id s.server.job_queue h.distinct (ground arith);
        apart_registered = λ i r. ground (
          arith,
          contains-append i id s.server.job_queue,
          lookup-erase id i s.registered,
          h.apart_registered i,
        );
        apart_waiting = λ i r.
            ground (
              arith,
              contains-append i id s.server.job_queue,
              bytes_eq_iff id i,
              h.apart_waiting i,
            );
        known_registered =
            λ i j r. ground (arith, lookup-erase id i s.registered, h.known_registered i j);
        known_ran = h.known_ran;
        owned = λ i r. ground (
          arith,
          contains-append i id s.server.job_queue,
          lookup-erase id i s.registered,
          bytes_eq_iff id i,
          h.owned i,
        );
        fresh = h.fresh;
      }

  pub logging-IsConsistent :
      (s : System F) (ids : List Bytes) → IsConsistent s → IsConsistent (record s { logging = ids })
  logging-IsConsistent s ids h = record {
    slots = h.slots;
    known = h.known;
    distinct = h.distinct;
    apart_registered = h.apart_registered;
    apart_waiting = h.apart_waiting;
    known_registered = h.known_registered;
    known_ran = h.known_ran;
    owned = h.owned;
    fresh = h.fresh;
  }

  -- Another map whose jobs are known.
  pub jobs-IsConsistent :
      (s : System F) (server : Server F)
      → IsConsistent s
      → AllKnown s.owners server.jobs
      → server.job_queue ≡ s.server.job_queue
      → server.limiter ≡ s.server.limiter
      → IsConsistent (record s { server = server })
  jobs-IsConsistent s server h known queue limiter = record {
    slots = λ ip i. rw (queue, limiter) (h.slots ip i);
    known = known;
    distinct = rw queue h.distinct;
    apart_registered = λ i. rw queue (h.apart_registered i);
    apart_waiting = λ i. rw queue (h.apart_waiting i);
    known_registered = h.known_registered;
    known_ran = h.known_ran;
    owned = λ i. rw queue (h.owned i);
    fresh = h.fresh;
  }

  pub download_all-IsConsistent :
      (s : System F) (id : Bytes) {done : Server F × Bool}
      → IsConsistent s
      → download_all id s.server ≡ ok done
      → IsConsistent (record s { server = done.0 })
  unfolding download_all
  download_all-IsConsistent s id h e = elim (Option-cases (lookup id s.server.jobs)) [
    | inl gone ↦ rw (← ok-injective (rw (gone, download_all) at e)) h
    | inr (pointer, found) ↦
        let (job, there, last) = >>=-ok (deref (some pointer)) _ (rw (found, download_all) at e) in
        rw (← ok-injective last) (
          jobs-IsConsistent s (record s.server { jobs = erase id s.server.jobs }) h
            (erase-All (IsKnown s.owners) id s.server.jobs h.known) refl refl)
  ]

  module _ (o : Outside F) (d : Double F) (config : Config F) where
    pub register_job-IsConsistent :
        (seconds now : ℕ) (job : Job F) (s : System F)
        → IsConsistent s
        → IsConsistent (register_job o d config seconds now job s)
    unfolding register_job
    register_job-IsConsistent seconds now job s h =
        let (id, counter) = generate_job_id seconds s.counter in
        let started = register_job_start d config now job.client_ip id s.server.limiter in
        let active = λ (ip i : Bytes).
          is_active-register_job_start d config now job.client_ip s.server.limiter ip i id in
        let others : (later c : ℕ) → counter ≤ c → (generate_job_id later c).0 ≢ id =
          λ later c le same. absurd (
            omega (
              arith,
              next_counter seconds s.counter,
              (generate_job_id-inj later seconds c s.counter same).1,
            )) in
        elim (Bool-cases started.1) [
          | inl e ↦
              rw (e, register_job)
                (admit-IsConsistent s id job started.0 counter h
                  (h.fresh seconds s.counter (omega arith)) (λ ip i. rw e at (active ip i))
                  (omega (arith, next_counter seconds s.counter)) others)
          | inr e ↦
              rw (e, register_job)
                (limiter-IsConsistent s started.0 counter h (λ ip i. ground (arith, active ip i, e))
                  (omega (arith, next_counter seconds s.counter)))
        ]

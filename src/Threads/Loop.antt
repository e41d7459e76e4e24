-- ===== src/Threads/Loop.antt =====
-- The sections of the executor thread of src/main.cpp keep what holds between the threads' steps.
use sandrun.Common.{
  ℕ, List, [], ◌∷◌, ◌≡◌, refl, arith, Option, some, Bytes, bytes_eq_iff, lookup, contains,
  bytes_key, ok,
}
use sandrun.Common.Entries.{insert-All, lookup-All}
use sandrun.RateLimiter.{Double, Config, register_job_end}
use sandrun.RateLimiter.Active.{is_active-register_job_end}
use sandrun.Jobs.{Job, Server, pop_job, update_positions}
use sandrun.Jobs.Executor.{Outside, execute_job}
use sandrun.Threads.{System, Phase, resting, popped, ran, sweeping, at_executor, phase_of}
use sandrun.Threads.Known.{
  AllKnown, IsKnown, >>=-ok, ok-injective, update_positions-AllKnown, execute_job-HasRun,
}
use sandrun.Threads.Steps.{jobs-IsConsistent}
use sandrun.Threads.Consistent.{IsDistinct, IsConsistent}

module _ {F : Type 0} where
  -- An id goes from the front of the queue to the executor.
  popped-IsConsistent :
      (s : System F) (id : Bytes) (queue : List Bytes) (jobs : _)
      → IsConsistent s
      → s.server.job_queue ≡ id ∷ queue
      → s.executor ≡ resting
      → AllKnown s.owners jobs
      → IsConsistent (record s {
        server = record s.server { jobs = jobs; job_queue = queue };
        executor = popped id;
      })
  unfolding contains
  popped-IsConsistent s id queue jobs h front rest known =
      let distinct : IsDistinct (id ∷ queue) = rw front at h.distinct in
      record {
        slots = λ ip i. ground (arith, h.slots ip i, front, rest);
        known = known;
        distinct = distinct.1;
        apart_registered = λ i r. ground (arith, h.apart_registered i, front, rest);
        apart_waiting = λ i r. ground (arith, bytes_eq_iff id i, distinct.0);
        known_registered = h.known_registered;
        known_ran = λ i ip cpu e. cc;
        owned = λ i r. ground (arith, h.owned i, front, rest);
        fresh = h.fresh;
      }

  -- The executor goes on, and no job moves.
  pub phase-IsConsistent :
      (s : System F) (phase : Phase F)
      → IsConsistent s
      → ((id : Bytes) → at_executor id phase ≡ at_executor id s.executor)
      → ((id ip : Bytes) (cpu : F) → phase ≡ ran id ip cpu → lookup id s.owners ≡ some ip)
      → IsConsistent (record s { executor = phase })
  phase-IsConsistent s phase h same known_ran = record {
    slots = λ ip i. rw (same i) (h.slots ip i);
    known = h.known;
    distinct = h.distinct;
    apart_registered = λ i. rw (same i) (h.apart_registered i);
    apart_waiting = λ i. rw (same i) (h.apart_waiting i);
    known_registered = h.known_registered;
    known_ran = known_ran;
    owned = λ i. rw (same i) (h.owned i);
    fresh = h.fresh;
  }

  pub pop_job-IsConsistent :
      (s : System F) {front : Server F × Option Bytes}
      → IsConsistent s
      → s.executor ≡ resting
      → pop_job s.server ≡ ok front
      → IsConsistent (record s { server = front.0; executor = phase_of front.1 })
  unfolding pop_job
  pop_job-IsConsistent s {front} h rest e = from s.server.job_queue refl
    where
      from :
          (queue : List Bytes)
          → s.server.job_queue ≡ queue
          → IsConsistent (record s { server = front.0; executor = phase_of front.1 })
      from [] empty =
          rw (← ok-injective (rw (empty, pop_job) at e))
            (phase-IsConsistent s sweeping h (λ i. rw rest refl) (λ i ip cpu p. cc))
      from (id ∷ queue) found =
          let (jobs, numbered, last) =
            >>=-ok (update_positions 1 queue s.server.jobs) _ (rw (found, pop_job) at e) in
          rw (← ok-injective last) (
            popped-IsConsistent s id queue jobs h found rest
              (update_positions-AllKnown s.owners 1 queue s.server.jobs h.known numbered))

  module _ (o : Outside F) (d : Double F) (config : Config F) where
    pub execute_job-IsConsistent :
        (s : System F) (id : Bytes) {done : Server F × Job F}
        → IsConsistent s
        → s.executor ≡ popped id
        → execute_job o id s.server ≡ ok done
        → IsConsistent
            (record s { server = done.0; executor = ran id done.1.client_ip done.1.cpu_seconds })
    execute_job-IsConsistent s id {done} h at e =
        let done_by = execute_job-HasRun o id s.server e in
        let owner = lookup-All (IsKnown s.owners) id _ s.server.jobs h.known done_by.found in
        let known : lookup id s.owners ≡ some done.1.client_ip =
          ground (arith, owner, done_by.same) in
        let jobs : AllKnown s.owners done.0.jobs =
          rw done_by.jobs (insert-All (IsKnown s.owners) id _ s.server.jobs known h.known) in
        let moved = jobs-IsConsistent s done.0 h jobs done_by.queue done_by.limiter in
        phase-IsConsistent (record s { server = done.0 }) _ moved (λ i. rw at refl)
          (λ i ip cpu p. ground (arith, known))

    pub finish-IsConsistent :
        (now : ℕ) (s : System F) (id ip : Bytes) (cpu : F)
        → IsConsistent s
        → s.executor ≡ ran id ip cpu
        → IsConsistent (record s {
          server = record s.server {
            limiter = register_job_end d config now ip id cpu s.server.limiter;
          };
          executor = sweeping;
        })
    finish-IsConsistent now s id ip cpu h at = record {
      slots = λ ip' i. ground (
        arith,
        h.slots ip' i,
        at,
        is_active-register_job_end d config now ip s.server.limiter ip' i id cpu,
        h.known_ran id ip cpu at,
        h.apart_registered i,
        h.apart_waiting i,
        bytes_eq_iff id i,
        bytes_eq_iff ip ip',
      );
      known = h.known;
      distinct = h.distinct;
      apart_registered = λ i r. ground (arith, h.apart_registered i);
      apart_waiting = λ i r. refl;
      known_registered = h.known_registered;
      known_ran = λ i ip cpu p. cc;
      owned = λ i r. ground (arith, h.owned i);
      fresh = h.fresh;
    }

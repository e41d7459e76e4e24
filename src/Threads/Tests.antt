-- ===== src/Threads/Tests.antt =====
-- The theorems on the threads of src/main.cpp at inputs: a handler registers a job and queues it,
-- while the executor rests or is about to sweep.
use sandrun.Common.{
  [], ◌∷◌, ◌≡◌, refl, ◌&&◌, ◌*◌, ◌≤◌, length, contains, bytes_eq, Bytes, codes, lookup, insert,
  erase, bytes_key, ok, err, undefined_behavior, ℕ,
}
use sandrun.Common.Decimal.{to_string}
use sandrun.RateLimiter.{minute, register_job_start}
use sandrun.RateLimiter.Active.{is_active}
use sandrun.RateLimiter.Tests.{milliseconds, limits}
use sandrun.Jobs.{generate_job_id, pop_job, is_old}
use sandrun.Jobs.Tests.{job, outside, listable}
use sandrun.Threads.{
  System, Phase, resting, sweeping, register, push, pop, execute, sweep, start, in_flight, owns,
  push_job, register_job, executor_step, step, run, Reach, here, next, Anything,
}
use sandrun.Threads.Bound.{length-in_flight}
use sandrun.Threads.Slots.{is_active-in_flight}
use sandrun.Threads.Stages.{stage, ◌⟶◌, step-⟶}
use sandrun.Threads.Served.{IsGentle}
use sandrun.Threads.Gentle.{step-returns}
use sandrun.Threads.Rounds.{run-old}

abbrev id : Bytes
id = codes "job_5_1"

-- The system behind the registration of the job, and behind its push.
abbrev with_registered : Phase ℕ → System ℕ
with_registered phase =
    register_job outside milliseconds limits 5 8 job (record start { executor = phase })

abbrev with_queued : Phase ℕ → System ℕ
with_queued phase = record (with_registered phase) {
  server = push_job id (record job { job_id = id }) (with_registered phase).server;
  registered = erase id (with_registered phase).registered;
  logging = id ∷ [];
}

pushes :
    (phase : Phase ℕ)
    → step outside milliseconds limits (push id) (with_registered phase) ≡ ok (with_queued phase)
unfolding step register_job generate_job_id to_string register_job_start lookup insert bytes_eq
pushes phase = refl

reach_queued : Reach outside milliseconds limits Anything (with_queued resting)
unfolding step
reach_queued = next (next here (register 5 8 job) tt refl) (push id) tt (pushes resting)

reach-IsGentle : Reach outside milliseconds limits IsGentle (with_queued resting)
unfolding step
reach-IsGentle = next (next here (register 5 8 job) tt refl) (push id) tt (pushes resting)

reach_registered : Reach outside milliseconds limits Anything (with_registered resting)
unfolding step
reach_registered = next here (register 5 8 job) tt refl

-- The executor finds the queue empty, and a job comes before it sweeps.
reach_sweeping : Reach outside milliseconds limits Anything (with_queued sweeping)
unfolding step executor_step pop_job
reach_sweeping =
    next (next (next here pop tt refl) (register 5 8 job) tt refl) (push id) tt (pushes sweeping)

is_active-in_flight_example : is_active job.client_ip id (with_queued resting).server.limiter ≡ (
    in_flight id (with_queued resting)
    && owns job.client_ip (lookup id (with_queued resting).owners))
is_active-in_flight_example =
    is_active-in_flight outside milliseconds limits reach_queued job.client_ip id

length-in_flight_example : length (id ∷ []) ≤ 2
unfolding register_job generate_job_id to_string register_job_start push_job lookup insert erase
    contains bytes_eq
length-in_flight_example =
    length-in_flight outside milliseconds limits reach_queued job.client_ip (id ∷ []) (refl, tt)
      (refl, tt)

step-⟶_example : stage id (with_registered resting) ⟶ stage id (with_queued resting)
step-⟶_example = step-⟶ outside milliseconds limits reach_registered (push id) (pushes resting) id

step-returns_example :
    (t : System ℕ) × (step outside milliseconds limits pop (with_queued resting) ≡ ok t)
step-returns_example =
    step-returns outside milliseconds limits reach-IsGentle listable (λ dir. refl) pop

run-old_example :
    run outside milliseconds limits
      (sweep (10 * minute) ∷ pop ∷ execute ∷ [])
      (with_queued sweeping)
    ≡ err undefined_behavior
run-old_example =
    run-old outside milliseconds limits reach_sweeping (10 * minute) id []
      (unfold register_job generate_job_id to_string register_job_start lookup insert in refl)
      (unfold push_job register_job generate_job_id to_string register_job_start lookup insert in
        refl)
      (λ dir. refl)
      (unfold push_job register_job generate_job_id to_string register_job_start lookup insert
          is_old in
        (λ e. refl, tt))

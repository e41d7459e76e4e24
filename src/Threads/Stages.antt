-- ===== src/Threads/Stages.antt =====
-- The life of a job in src/main.cpp, as the abstract machine that the threads implement: an id is
-- unseen, held by its handler, waiting, executing, and ended, in this order.
use sandrun.Common.{
  ℕ, Bool, true, false, List, [], ◌∷◌, ◌≡◌, refl, arith, Option, none, some, Bytes, bytes_eq_iff,
  if◌then◌else◌, lookup, contains, bytes_key, lookup-insert, lookup-erase, Option-cases, inl, inr,
  ok, ◌⊎◌,
}
use sandrun.RateLimiter.{Double, Config}
use sandrun.Jobs.{
  Job, Server, generate_job_id, download_all, deref, pop_job, update_positions, cleanup_jobs,
}
use sandrun.Jobs.Executor.{Outside, execute_job}
use sandrun.Threads.{
  System, Event, Phase, resting, popped, ran, sweeping, ask, register, give_up, push, log_line,
  download, pop, execute, finish, sweep, is_some, at_executor, push_job, register_job,
  executor_step, step, Reach, Anything,
}
use sandrun.Threads.Known.{log_job_lem, >>=-ok, ok-injective, execute_job-HasRun}
use sandrun.Threads.Consistent.{contains-append, IsConsistent}
use sandrun.Threads.Slots.{Reach-IsConsistent}

pub data Stage : Type 0 where
  unseen held waiting executing ended : Stage

infix 40 ◌⟶◌
-- One step of a job's life, or none.
pub data ◌⟶◌ : Stage → Stage → Type 0 where
  admit : unseen ⟶ held
  enqueue : held ⟶ waiting
  take : waiting ⟶ executing
  end : executing ⟶ ended
  stay : {x : Stage} → x ⟶ x

abbrev follows : Stage → Stage → Bool
follows unseen unseen = true
follows unseen held = true
follows held held = true
follows held waiting = true
follows waiting waiting = true
follows waiting executing = true
follows executing executing = true
follows executing ended = true
follows ended ended = true
follows x y = false

follows-⟶ : (x y : Stage) → follows x y ≡ true → x ⟶ y
follows-⟶ unseen unseen h = stay
follows-⟶ unseen held h = admit
follows-⟶ held held h = stay
follows-⟶ held waiting h = enqueue
follows-⟶ waiting waiting h = stay
follows-⟶ waiting executing h = take
follows-⟶ executing executing h = stay
follows-⟶ executing ended h = end
follows-⟶ ended ended h = stay
follows-⟶ _ _ h = absurd (cc)

follows_refl : (x : Stage) → follows x x ≡ true
follows_refl unseen = refl
follows_refl _ = refl

-- The stage that the places show which hold an id.
abbrev pub stage_of : Bool → Bool → Bool → Bool → Stage
stage_of handler queue executor owner =
    if handler
    then held
    else if queue
    then waiting
    else if executor
    then executing
    else if owner
    then ended
    else unseen

module _ {F : Type 0} where
  -- Where a job stands.
  abbrev pub stage : Bytes → System F → Stage
  stage id s =
      stage_of (is_some (lookup id s.registered)) (contains id s.server.job_queue)
        (at_executor id s.executor) (is_some (lookup id s.owners))

  -- What a pop that returns has done.
  pub pop_job-cases :
      (s : Server F) {front : Server F × Option Bytes}
      → pop_job s ≡ ok front
      → ((s.job_queue ≡ []) × (front.0.job_queue ≡ []) × (front.1 ≡ none))
        ⊎ ((id : Bytes) × (s.job_queue ≡ id ∷ front.0.job_queue) × (front.1 ≡ some id))
  unfolding pop_job
  pop_job-cases s {front} e = from s.job_queue refl
    where
      from :
          (queue : List Bytes)
          → s.job_queue ≡ queue
          → ((s.job_queue ≡ []) × (front.0.job_queue ≡ []) × (front.1 ≡ none))
            ⊎ ((id : Bytes) × (s.job_queue ≡ id ∷ front.0.job_queue) × (front.1 ≡ some id))
      from [] empty =
          let same = ok-injective (rw (empty, pop_job) at e) in
          inl (empty, rw (← same) empty, rw (← same) refl)
      from (id ∷ queue) found =
          let (jobs, numbered, last) =
            >>=-ok (update_positions 1 queue s.jobs) _ (rw (found, pop_job) at e) in
          let same = ok-injective last in inr (id, rw (← same) found, rw (← same) refl)

  pub download_all-job_queue :
      (id : Bytes) (s : Server F) {done : Server F × Bool}
      → download_all id s ≡ ok done
      → done.0.job_queue ≡ s.job_queue
  unfolding download_all
  download_all-job_queue id s e = elim (Option-cases (lookup id s.jobs)) [
    | inl gone ↦ rw (← ok-injective (rw (gone, download_all) at e)) refl
    | inr (pointer, found) ↦
        let (job, there, last) = >>=-ok (deref (some pointer)) _ (rw (found, download_all) at e) in
        rw (← ok-injective last) refl
  ]

module _ {F : Type 0} (o : Outside F) (d : Double F) (config : Config F) where
  executor_step-follows :
      (e : Event F) (phase : Phase F) (s : System F) (id : Bytes) {t : System F}
      → IsConsistent s
      → s.executor ≡ phase
      → executor_step o d config e phase s ≡ ok t
      → follows (stage id s) (stage id t) ≡ true
  unfolding executor_step contains
  executor_step-follows pop resting s id h at e =
      let (front, popped_front, last) = >>=-ok (pop_job s.server) _ e in
      rw (← ok-injective last) (elim (pop_job-cases s.server popped_front) [
        | inl (empty, left, gone) ↦ ground (arith, empty, left, gone, at)
        | inr (i, found, there) ↦ ground (arith, found, there, at)
      ])
  executor_step-follows execute (popped i) s id h at e =
      let (done, runs, last) = >>=-ok (execute_job o i s.server) _ e in
      let queue = (execute_job-HasRun o i s.server runs).queue in
      rw (← ok-injective last) (ground (arith, queue, at))
  executor_step-follows (finish now) (ran i ip cpu) s id h at e =
      rw (← ok-injective e) (ground (arith, at, h.known_ran i ip cpu at, bytes_eq_iff i id))
  executor_step-follows (sweep now) sweeping s id h at e =
      let (jobs, swept, last) = >>=-ok (cleanup_jobs o.remove_all now s.server.jobs) _ e in
      rw (← ok-injective last) (ground (arith, at))
  executor_step-follows _ _ s id h at e = rw (← ok-injective e) (follows_refl (stage id s))

  register_job-follows :
      (seconds now : ℕ) (job : Job F) (s : System F) (id : Bytes)
      → IsConsistent s
      → follows (stage id s) (stage id (register_job o d config seconds now job s)) ≡ true
  unfolding register_job
  register_job-follows seconds now job s id h =
      let (new, counter) = generate_job_id seconds s.counter in
      ground (
        arith,
        lookup-insert new id (record job { job_id = new }) s.registered,
        lookup-insert new id job.client_ip s.owners,
        h.fresh seconds s.counter (omega arith),
        h.owned new,
        bytes_eq_iff new id,
      )

  step-follows :
      (e : Event F) (s : System F) (id : Bytes) {t : System F}
      → IsConsistent s
      → step o d config e s ≡ ok t
      → follows (stage id s) (stage id t) ≡ true
  unfolding step push_job
  step-follows (ask now ip) s id h e = rw (← ok-injective e) (follows_refl (stage id s))
  step-follows (register seconds now job) s id h e =
      rw (← ok-injective e) (register_job-follows seconds now job s id h)
  step-follows (give_up seconds) s id h e = rw (← ok-injective e) (follows_refl (stage id s))
  step-follows (push i) s id h e = elim (Option-cases (lookup i s.registered)) [
    | inl gone ↦ rw (← ok-injective (rw (gone, step) at e)) (follows_refl (stage id s))
    | inr (job, found) ↦ rw (← ok-injective (rw (found, step) at e)) (
        ground (
          arith,
          contains-append id i s.server.job_queue,
          lookup-erase i id s.registered,
          bytes_eq_iff i id,
          h.apart_registered i,
          found,
        ))
  ]
  step-follows (log_line i) s id h e =
      let (left, same, fewer) = log_job_lem i s e in rw (← same) (follows_refl (stage id s))
  step-follows (download i) s id h e =
      let (done, runs, last) = >>=-ok (download_all i s.server) _ e in
      rw (← ok-injective last, download_all-job_queue i s.server runs) (follows_refl (stage id s))
  step-follows pop s id h e = executor_step-follows pop s.executor s id h refl e
  step-follows execute s id h e = executor_step-follows execute s.executor s id h refl e
  step-follows (finish now) s id h e = executor_step-follows (finish now) s.executor s id h refl e
  step-follows (sweep now) s id h e = executor_step-follows (sweep now) s.executor s id h refl e

  -- Every section of a thread takes every job at most one step on in its life, which is unseen, held
  -- by its handler, waiting, executing and ended in this order, in every state that the threads
  -- reach.
  pub step-⟶ :
      {s t : System F}
      → Reach o d config Anything s
      → (e : Event F) → step o d config e s ≡ ok t
      → (id : Bytes) → stage id s ⟶ stage id t
  step-⟶ {s} r e runs id =
      follows-⟶ _ _ (step-follows e s id (Reach-IsConsistent o d config r) runs)

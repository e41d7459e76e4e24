-- ===== src/Executor/Rounds.antt =====
-- Rounds of the executor thread of src/main.cpp with its environment manager.
use sandrun.Common.{
  ℕ, suc, true, List, ◌∷◌, ◌≡◌, refl, Option, none, some, Bytes, leb, is_empty, lookup, bytes_key,
  ok, Error, inl, inr, Bool-cases,
}
use sandrun.RateLimiter.{Double, Config}
use sandrun.Environments.{EnvironmentManager, Disk, has_template}
use sandrun.Environments.Valid.{
  IsValid, prepare_environment-IsValid, cleanup_old_environments-IsValid,
  cleanup_old_environments-ends, IsUsable,
}
use sandrun.Jobs.{Job, Server}
use sandrun.Jobs.Executor.{Outside}
use sandrun.Jobs.Pointers.{all_present, ip_of}
use sandrun.Jobs.Rounds.{IsListable, IsRemovable, executor_round-pops}
use sandrun.Environments.Cleanup.{cleanup_old_environments}
use sandrun.Executor.{Thread, ask, ask_for_next, tenth_round, thread_round}

module _ {F : Type 0} {W : Type 0} (out : Outside F) (d : Double F) (config : Config F)
    (disk : Disk W) (what : Error → Bytes) (now : ℕ) where
  ask-IsValid :
      (name job_id : Bytes) (m : EnvironmentManager) (w : W)
      → IsValid m
      → IsValid (ask out d config disk what now name job_id m w).1
  unfolding ask
  ask-IsValid name job_id m w h = elim (Bool-cases (is_empty name)) [
    | inl e ↦ rw (e, ask) h
    | inr e ↦ elim (Bool-cases (has_template name m)) [
      | inl f ↦ rw (e, f, ask) (prepare_environment-IsValid disk now name job_id m w h)
      | inr f ↦ rw (e, f, ask) h
    ]
  ]

  found-IsValid :
      (id : Bytes) (found : Option (Option (Job F))) (s : Server F) (queue : List Bytes)
      (m : EnvironmentManager) (w : W)
      → IsValid m
      → s.job_queue ≡ id ∷ queue
      → lookup id s.jobs ≡ found
      → IsValid (ask_for_next out d config disk what now s m w).1
  unfolding ask_for_next
  found-IsValid id none s queue m w h front e = rw (front, e, ask_for_next) h
  found-IsValid id (some none) s queue m w h front e = rw (front, e, ask_for_next) h
  found-IsValid id (some (some job)) s queue m w h front e =
      rw (front, e, ask_for_next) (ask-IsValid job.environment id m w h)

  tenth_round-returns :
      IsUsable disk
      → (t : Thread F W) → IsValid t.manager
      → (after : Thread F W) × (tenth_round out d config disk what now t ≡ ok after)
        × (after.server ≡ t.server)
        × IsValid after.manager
  unfolding tenth_round
  tenth_round-returns usable t h =
      let cleaned = cleanup_old_environments disk now t.manager t.disk in
      elim (Bool-cases (leb 10 (suc t.cleanup_counter))) [
        | inl e ↦ (
          record t { cleanup_counter = 0; manager = cleaned.0; disk = cleaned.1 },
          rw (e, cleanup_old_environments-ends disk usable now t.manager t.disk, tenth_round) refl,
          refl,
          cleanup_old_environments-IsValid disk now t.manager t.disk h,
        )
        | inr e ↦ (
          record t { cleanup_counter = suc t.cleanup_counter },
          rw (e, tenth_round) refl,
          refl,
          h,
        )
      ]

  -- A round whose queue starts with a job that is in the map returns: it takes the job from the
  -- queue, whatever the manager answers about its environment, and keeps the manager valid. No
  -- pointer is null, every working directory can be listed and removed, and every directory of
  -- the environments can be removed and read.
  pub thread_round-runs :
      (t : Thread F W) (id ip : Bytes) (queue : List Bytes)
      → IsListable out
      → IsRemovable out
      → IsUsable disk
      → IsValid t.manager
      → all_present t.server.jobs ≡ true
      → t.server.job_queue ≡ id ∷ queue
      → ip_of id t.server.jobs ≡ some ip
      → (after : Thread F W) × (thread_round out d config disk what now t ≡ ok after)
        × (after.server.job_queue ≡ queue)
        × IsValid after.manager
  unfolding thread_round
  thread_round-runs t id ip queue listable removable usable valid present front here =
      let asked = ask_for_next out d config disk what now t.server t.manager t.disk in
      let told = record out { prepare_environment = λ name job_id. asked.0 } in
      let (server, cpu, runs, rest, limiter) =
        executor_round-pops told d config now t.server id ip queue listable removable present front
          here in
      let kept =
        found-IsValid id (lookup id t.server.jobs) t.server queue t.manager t.disk valid front
          refl in
      let ran = record t { server = server; manager = asked.1; disk = asked.2 } in
      let (after, ends, same, still) = tenth_round-returns usable ran kept in
      (after, rw (runs, thread_round) ends, rw same rest, still)

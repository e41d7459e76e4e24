-- ===== src/Executor.antt =====
-- The executor thread of src/main.cpp with its environment manager: a round of Jobs/Executor whose
-- answer about the environment is the manager's, and the clean-up on each tenth round.
pub mod Rounds
pub mod Tests
use sandrun.Common.{
  ℕ, zero, suc, Bool, true, false, List, [], ◌∷◌, Option, none, some, Bytes, if◌then◌else◌, leb,
  is_empty, lookup, bytes_key, Outcome, ok, err, Error, ◌>>=◌,
}
use sandrun.RateLimiter.{Double, Config}
use sandrun.Environments.{EnvironmentManager, Disk, has_template}
use sandrun.Environments.Prepare.{prepare_environment}
use sandrun.Environments.Cleanup.{cleanup_old_environments}
use sandrun.Jobs.{Job, Server}
use sandrun.Jobs.Executor.{Outside, Prepared, unknown, directory, refused, executor_round}

-- The server's state, the manager, the counter of rounds and the disk.
pub record Thread (F : Type 0) (W : Type 0) : Type 0 where
  pub server : Server F
  pub manager : EnvironmentManager
  pub cleanup_counter : ℕ
  pub disk : W

module _ {F : Type 0} {W : Type 0} (out : Outside F) (d : Double F) (config : Config F)
    (disk : Disk W) (what : Error → Bytes) where
  abbrev prepared : Outcome Bytes → Prepared
  prepared (ok env_dir) = directory env_dir
  prepared (err e) = refused (what e)

  -- The manager is asked only for an environment that is named, and prepares only a known one.
  unfoldable pub ask :
      ℕ → Bytes → Bytes → EnvironmentManager → W → Prepared × EnvironmentManager × W
  ask now name job_id m w =
      let (m', w', answer) = prepare_environment disk now name job_id m w in
      if is_empty name
      then (unknown, m, w)
      else if has_template name m
      then (prepared answer, m', w')
      else (unknown, m, w)

  -- The job at the front of the queue.
  unfoldable pub ask_for_next :
      ℕ → Server F → EnvironmentManager → W → Prepared × EnvironmentManager × W
  unfolding ask
  ask_for_next now s m w = elim s.job_queue [
    | [] ↦ (unknown, m, w)
    | id ∷ queue ↦ elim (lookup id s.jobs) [
      | none ↦ (unknown, m, w)
      | some pointer ↦ elim pointer [
        | none ↦ (unknown, m, w)
        | some job ↦ ask now job.environment id m w
      ]
    ]
  ]

  -- The end of a round. An exception of the clean-up leaves the thread, and ends the process.
  unfoldable pub tenth_round : ℕ → Thread F W → Outcome (Thread F W)
  tenth_round now t =
      let (m, w, cleaned) = cleanup_old_environments disk now t.manager t.disk in
      if leb 10 (suc t.cleanup_counter)
      then (cleaned >>= λ done. ok (record t { cleanup_counter = 0; manager = m; disk = w }))
      else ok (record t { cleanup_counter = suc t.cleanup_counter })

  unfoldable pub thread_round : ℕ → Thread F W → Outcome (Thread F W)
  unfolding ask_for_next tenth_round
  thread_round now t =
      let (answer, m, w) = ask_for_next now t.server t.manager t.disk in
      executor_round (record out { prepare_environment = λ name id. answer }) d config now t.server
      >>= λ server. tenth_round now (record t { server = server; manager = m; disk = w })

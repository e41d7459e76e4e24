-- ===== src/Executor/Tests.antt =====
-- The theorem on the executor thread of src/main.cpp at inputs.
use sandrun.Common.{
  ℕ, List, [], ◌∷◌, ◌≡◌, refl, some, Bytes, codes, lookup, bytes_key, bytes_eq, ok, Error,
}
use sandrun.RateLimiter.Tests.{milliseconds, limits}
use sandrun.Environments.BuiltIn.{new_manager}
use sandrun.Environments.Valid.{IsValid, new_manager-IsValid}
use sandrun.Environments.Tests.{shell}
use sandrun.Jobs.Tests.{outside, job, fresh, listable}
use sandrun.Executor.{Thread, thread_round}
use sandrun.Executor.Rounds.{thread_round-runs}

-- The tenth round, with a job in a built-in environment.
abbrev thread : Thread ℕ (List Bytes)
thread = record {
  server = record fresh {
    jobs = (codes "job_7_1", some (record job { environment = codes "ml-basic" })) ∷ [];
    job_queue = codes "job_7_1" ∷ [];
  };
  manager = (new_manager shell []).0;
  cleanup_counter = 9;
  disk = (new_manager shell []).1;
}

abbrev no_text : Error → Bytes
no_text e = []

thread_round-runs_example :
    (after : Thread ℕ (List Bytes)) × (thread_round outside milliseconds limits shell no_text 9
        thread
      ≡ ok after)
    × (after.server.job_queue ≡ [])
    × IsValid after.manager
unfolding lookup bytes_eq
thread_round-runs_example =
    thread_round-runs outside milliseconds limits shell no_text 9 thread (codes "job_7_1")
      (codes "10.0.0.1") [] listable (λ dir. refl)
      (λ path w. refl, λ path w. (_, refl, ((2, refl), tt))) (new_manager-IsValid shell []) refl
      refl refl

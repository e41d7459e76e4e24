-- ===== src/Sandbox/Execute.antt =====
-- `execute` of src/sandbox.cpp in the parent process. What the system calls answer is a parameter;
-- the text of the script, which is written to `script_path`, is left out;
-- the numbers of seconds are of a type the caller chooses.
use sandrun.Common.{
  ℕ, ◌+◌, ◌-◌, ◌*◌, ◌/◌, ◌<◌, Bool, true, not, List, [], ◌++◌, ◌≡◌, refl, arith, Bytes, codes,
  Option, none, some, if◌then◌else◌, length, any, ltb, map, ◌>>=◌, Outcome, ok, err, inl,
}
use mathlib.Core.Option
use sandrun.Common.Decimal.{ℤ, pos, negsuc}
use sandrun.Sandbox.{SandboxConfig, script_extension, max_output_size}
use sandrun.Sandbox.Monitor.{WaitStatus, exited, signaled, Poll, Watched, monitor}
use sandrun.Sandbox.Wipe.{total, cleanup, cleanup-total}
use sandrun.Sandbox.Output.{monitor-bound}
use sandrun.Sandbox.Endings.{monitor-ends}

-- A member that is not set, and has no default, is none.
pub record JobResult (F : Type 0) : Type 0 where
  pub job_id : Bytes
  pub output : Bytes
  pub error : Bytes
  pub exit_code : Option ℤ
  pub cpu_seconds : Option F
  pub memory_bytes : Option ℕ
  pub wall_time : Option ℕ

-- `fork` answers with a child or fails.
pub data Fork (F : Type 0) : Type 0 where
  fork_failed : Fork F
  -- The polls of the child, the time behind them, and what `getrusage` says: the seconds of
  -- processor time and the largest memory in kilobytes.
  forked : List Poll → ℕ → Option (F × ℕ) → Fork F

pub record Machine (F : Type 0) : Type 0 where
  -- `fs::create_directories` of the job's directory, and what the clean-up does behind the writes:
  -- values, or exceptions.
  pub makes_directory : Outcome (Unit {0})
  pub removes_directory : Outcome (Unit {0})
  pub makes_pipes : Bool
  pub start_time : ℕ
  pub fork : Fork F
  -- The files in the job's directory in the end, with their sizes.
  pub left : List (Bytes × ℕ)

-- `std::filesystem::temp_directory_path() / ("job_" + job_id)` and the script in it.
unfoldable pub job_dir : Bytes → Bytes → Bytes
job_dir temp_dir job_id = temp_dir ++ codes "/job_" ++ job_id

unfoldable pub script_path : Bytes → Bytes → SandboxConfig → Bytes
unfolding job_dir script_extension
script_path temp_dir job_id config =
    job_dir temp_dir job_id ++ codes "/script" ++ script_extension config.interpreter

-- WIFEXITED and WEXITSTATUS.
unfoldable pub exit_code_of : WaitStatus → ℤ
exit_code_of (exited code) = pos code
exit_code_of signaled = negsuc 0

unfoldable pub collect : {F : Type 0} → Bytes → ℕ → ℕ → Option (F × ℕ) → Watched → JobResult F
unfolding exit_code_of
collect job_id start_time end_time usage watched = record {
  job_id = job_id;
  output = watched.stdout_buffer;
  error = watched.stderr_buffer;
  exit_code = Option.map exit_code_of watched.status;
  cpu_seconds = Option.map (λ u. u.0) usage;
  memory_bytes = Option.map (λ u. u.1 * 1024) usage;
  wall_time = some ((end_time - start_time) / 1_000_000);
}

-- The result before anything is measured.
unfoldable pub unmeasured : {F : Type 0} → Bytes → Bytes → Option ℤ → JobResult F
unmeasured job_id error exit_code = record {
  job_id = job_id;
  output = [];
  error = error;
  exit_code = exit_code;
  cpu_seconds = none;
  memory_bytes = none;
  wall_time = none;
}

unfoldable pub after_fork :
    {F : Type 0} → SandboxConfig → ℕ → Bytes → Fork F → Outcome (JobResult F)
unfolding collect unmeasured
after_fork config start_time job_id fork_failed = ok (unmeasured job_id [] none)
after_fork config start_time job_id (forked polls end_time usage) =
    elim (monitor (start_time + config.timeout) polls [] []) [
      | ok watched ↦ ok (collect job_id start_time end_time usage watched)
      | err e ↦ err e
    ]

-- The result, and the writes over each of the files that the job leaves.
unfoldable pub execute :
    {F : Type 0} → SandboxConfig → Machine F → Bytes → Outcome (JobResult F × List (Bytes × List ℕ))
unfolding after_fork unmeasured
execute config machine job_id = machine.makes_directory >>= λ made.
    (if not machine.makes_pipes
      then ok (unmeasured job_id (codes "Failed to create pipes") (some (negsuc 0)))
      else after_fork config machine.start_time job_id machine.fork)
    >>= λ result. machine.removes_directory >>= λ removed. ok (result, cleanup machine.left)

-- `Sandbox::kill`.
unfoldable pub kill : Bytes → Bool
kill job_id = true

-- A job that is forked comes back with a result in its name and bounded logs, as soon as a poll
-- comes after its deadline, at the latest, and the writes over each file that it leaves add up to
-- the file's length. The job's directory can be made and removed.
pub execute-reports :
    {F : Type 0} (config : SandboxConfig) (machine : Machine F) (job_id : Bytes)
    → (polls : List Poll) (end_time : ℕ) (usage : Option (F × ℕ)) → machine.makes_directory ≡ ok tt
    → machine.removes_directory ≡ ok tt
    → machine.makes_pipes ≡ true
    → machine.fork ≡ forked polls end_time usage
    → any (λ p. ltb (machine.start_time + config.timeout) p.now) polls ≡ true
    → (result : JobResult F) × (wiped : List (Bytes × List ℕ)) × (execute config machine job_id
        ≡ ok (result, wiped))
      × (result.job_id ≡ job_id)
      × (length result.output < max_output_size)
      × (length result.error < max_output_size + 16)
      × (map (λ w. (w.0, total w.1)) wiped ≡ machine.left)
unfolding execute after_fork collect
execute-reports config machine job_id polls end_time usage made removed pipes child late =
    let deadline = machine.start_time + config.timeout in
    let (watched, done) = monitor-ends deadline polls [] [] late in
    let (small, small_errors) =
      monitor-bound deadline polls [] [] watched (inl (omega arith)) (inl (omega arith)) done in
    (
      collect job_id machine.start_time end_time usage watched,
      cleanup machine.left,
      rw (made, pipes, child, after_fork, done, removed) refl,
      refl,
      small,
      small_errors,
      cleanup-total machine.left,
    )

-- ===== src/Sandbox/Tests.antt =====
-- The theorems on src/sandbox.cpp at inputs.
use sandrun.Common.{
  ℕ, ◌+◌, ◌<◌, starts_with, true, false, List, [], ◌∷◌, ◌≡◌, refl, some, none, Bytes, codes, length,
  map, ok, bytes_eq,
}
use sandrun.Common.Find.{find}
use sandrun.Common.Decimal.{pos, negsuc, to_string, int_to_string}
use sandrun.Sandbox.{default_config, max_output_size, script_extension}
use sandrun.Sandbox.Pipe.{effective_limit, read_chunks, read_pipe_nonblocking}
use sandrun.Sandbox.Monitor.{
  Poll, Watched, exited, signaled, child_ended, still_running, append_note, monitor,
}
use sandrun.Sandbox.Endings.{monitor-truncated}
use sandrun.Sandbox.Setup.{Kernel, setup_gpu_access}
use sandrun.Sandbox.Wipe.{total, overwrite, cleanup}
use sandrun.Sandbox.Execute.{
  JobResult, Machine, forked, fork_failed, script_path, after_fork, execute, execute-reports,
}

-- A child that writes two lines and ends, watched over three rounds.
abbrev running : Poll
running = record {
  out = codes "one " ∷ [];
  errors = [];
  waited = still_running;
  last_out = [];
  last_errors = [];
  now = 10;
  killed = none;
}

abbrev ending : Poll
ending = record running {
  out = [];
  waited = child_ended (exited 3);
  last_out = codes "two" ∷ [];
  now = 20;
}

abbrev overdue : Poll
overdue = record running { now = 400_000_000_000; killed = some signaled }

abbrev machine : List Poll → Machine ℕ
machine polls = record {
  makes_directory = ok tt;
  removes_directory = ok tt;
  makes_pipes = true;
  start_time = 0;
  fork = forked polls 5_000_000 (some (1, 2));
  left = (codes "script.py", 1_500_000) ∷ [];
}

abbrev of_two_lines : JobResult ℕ
of_two_lines = record {
  job_id = codes "j";
  output = codes "one two";
  error = [];
  exit_code = some (pos 3);
  cpu_seconds = some 1;
  memory_bytes = some 2048;
  wall_time = some 5;
}

abbrev wiped_script : List (Bytes × List ℕ)
wiped_script = (codes "script.py", 1_048_576 ∷ 451_424 ∷ []) ∷ []

job_of_two_lines :
    execute default_config (machine (running ∷ ending ∷ [])) (codes "j")
    ≡ ok (of_two_lines, wiped_script)
unfolding execute after_fork monitor default_config read_pipe_nonblocking find starts_with
    read_chunks effective_limit cleanup overwrite
job_of_two_lines = refl

job_killed :
    execute default_config (machine (running ∷ overdue ∷ [])) (codes "j")
    ≡ ok (
      record of_two_lines {
        output = codes "one one ";
        error = codes "\nKilled: timeout";
        exit_code = some (negsuc 0);
      },
      wiped_script,
    )
unfolding execute after_fork monitor default_config read_pipe_nonblocking append_note find
    starts_with read_chunks effective_limit cleanup overwrite
job_killed = refl

-- A child that cannot be forked leaves an exit code that was never set.
job_unforked :
    execute default_config (record (machine []) { fork = fork_failed }) (codes "j")
    ≡ ok (
      record of_two_lines {
        output = [];
        exit_code = none;
        cpu_seconds = none;
        memory_bytes = none;
        wall_time = none;
      },
      wiped_script,
    )
unfolding execute after_fork default_config cleanup overwrite
job_unforked = refl

path_of_script :
    script_path (codes "/tmp") (codes "j") default_config ≡ codes "/tmp/job_j/script.py"
unfolding script_path script_extension bytes_eq default_config
path_of_script = refl

execute-reports_example :
    (result : JobResult ℕ) × (wiped : List (Bytes × List ℕ)) × (execute default_config
        (machine (running ∷ overdue ∷ []))
        (codes "j")
      ≡ ok (result, wiped))
    × (result.job_id ≡ codes "j")
    × (length result.output < max_output_size)
    × (length result.error < max_output_size + 16)
    × (map {B = Bytes × ℕ} (λ w. (w.0, total w.1)) wiped ≡ (codes "script.py", 1_500_000) ∷ [])
unfolding default_config
execute-reports_example =
    execute-reports default_config (machine (running ∷ overdue ∷ [])) (codes "j")
      (running ∷ overdue ∷ []) 5_000_000 (some (1, 2)) refl refl refl refl refl

-- A child that prints the word, and then a result.
abbrev telling : Poll
telling = record ending { out = codes "42" ∷ []; last_out = [] }

abbrev told : Watched
told = record {
  stdout_buffer = codes "a truncated list ";
  stderr_buffer = [];
  status = some (exited 3);
}

monitor-truncated_example : told.stdout_buffer ≡ codes "a truncated list "
unfolding find starts_with monitor read_pipe_nonblocking read_chunks
monitor-truncated_example =
    monitor-truncated 50 (telling ∷ []) (codes "a truncated list ") [] told refl refl

abbrev unprivileged : Kernel
unprivileged = record {
  unshares = false;
  mounts_tmpfs = false;
  enters_directory = true;
  inits_seccomp = true;
  loads_seccomp = true;
  exists = λ path. bytes_eq path (codes "/dev/nvidiactl");
}

command_for_the_gpu :
    (setup_gpu_access default_config unprivileged).command
    ≡ codes "nvidia-smi -i 0 -pl 8192 2>/dev/null"
unfolding setup_gpu_access int_to_string default_config to_string
command_for_the_gpu = refl

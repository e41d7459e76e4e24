-- ===== src/Jobs/Tests.antt =====
-- The theorems on the jobs of src/main.cpp at inputs: a directory without files, a worker without a
-- key, and a job that runs for 40 ms.
use sandrun.Common.{
  Outcome, bytes_eq, ◌++◌, Bytes, if◌then◌else◌, lookup, ℕ, true, false, [], ◌≡◌, refl, arith, none,
  codes, ok, err, undefined_behavior, ◌>>=◌,
}
use sandrun.Common.Decimal.{pos, to_string}
use sandrun.RateLimiter.Tests.{milliseconds, limits}
use sandrun.WebSocket.Broadcaster.{no_jobs}
use sandrun.Files.Directory.{FileSystem, hash_directory}
use sandrun.Jobs.{Job, Server, queued, submit_job, download_all}
use sandrun.Jobs.Executor.{Outside, unknown, executor_round}
use sandrun.Jobs.Rounds.{executor_round-download_all, IsListable}

abbrev pub empty_disk : FileSystem
empty_disk = record {
  exists = λ path. false;
  is_regular_file = λ path. false;
  is_directory = λ path. false;
  file_size = λ path. 0;
  entries = λ path. [];
}

abbrev pub outside : Outside ℕ
outside = record {
  execute = λ dir interpreter entrypoint args path. record {
    stdout_log = codes "hi\n";
    stderr_log = [];
    cpu_seconds = 40;
    memory_bytes = 4096;
    exit_code = pos 0;
  };
  prepare_environment = λ name id. unknown;
  sends = λ message fd. true;
  file_system = empty_disk;
  sha256_file = λ path. [];
  worker_identity = none;
  show = to_string;
  to_fixed = to_string;
  remove_all = λ path. ok tt;
}

abbrev pub job : Job ℕ
job = record {
  job_id = codes "job_7_1";
  client_ip = codes "10.0.0.1";
  entrypoint = codes "main.py";
  interpreter = codes "python3";
  args = [];
  outputs = [];
  environment = [];
  status = queued;
  stdout_log = [];
  stderr_log = [];
  working_dir = codes "/tmp/sandrun_jobs/job_7_1";
  queue_position = 0;
  cpu_seconds = 0;
  memory_mb = 0;
  created_at = 7;
  job_hash = codes "ab";
  output_files = [];
  wall_time_ms = 0;
  exit_code = pos 0;
  worker_id = [];
  result_signature = [];
}

abbrev pub fresh : Server ℕ
fresh = record { jobs = []; job_queue = []; limiter = []; broadcaster = no_jobs }

pub listable : IsListable outside
listable dir patterns = ([], unfold hash_directory in refl)

executor_round-download_all_example :
    (download_all (codes "job_7_1") (submit_job milliseconds limits 8 job fresh).0 >>= λ answer.
    executor_round outside milliseconds limits 9 answer.0)
    ≡ err undefined_behavior
executor_round-download_all_example =
    executor_round-download_all outside milliseconds limits 8 9 job fresh refl refl
      (unfold lookup in omega arith)

-- The directory of job_7_12 starts with the text of job_7_1's.
abbrev real_path : Bytes → Outcome Bytes
real_path path =
    if bytes_eq path (codes "/tmp/sandrun_jobs/job_7_1")
    then ok path
    else ok (codes "/tmp/sandrun_jobs/job_7_1" ++ codes "2/secret")

abbrev full_disk : FileSystem
full_disk = record {
  exists = λ path. true;
  is_regular_file = λ path. true;
  is_directory = λ path. false;
  file_size = λ path. 1;
  entries = λ path. [];
}

-- ===== src/Submit/Manifest.antt =====
-- What a new job takes from its manifest, from `job.json`, and from the names of its files, and the
-- hash of its inputs, in the handler of POST /submit of src/main.cpp.
use sandrun.Common.{
  ℕ, not, ◌&&◌, List, [], ◌∷◌, ◌++◌, Bytes, codes, bytes_eq, if◌then◌else◌, is_empty,
}
use sandrun.Common.Decimal.{pos}
use sandrun.Json.{json_get_string, json_get_string_array}
use sandrun.Multipart.{MultipartPart}
use sandrun.Jobs.{Job, queued}
use sandrun.Submit.{Storage}

-- A value of the manifest, if it has one, or the old one.
abbrev pub unless_empty : Bytes → Bytes → Bytes
unless_empty value old = if is_empty value then old else value

unfoldable pub args_data : List Bytes → Bytes
args_data [] = []
args_data (arg ∷ args) = arg ++ (b'|' ∷ args_data args)

module _ {F : Type 0} where
  -- A job with its members' default values; the time zero counts the steady clock.
  unfoldable pub new_job : F → Bytes → Bytes → ℕ → Job F
  new_job zero job_id client_ip now = record {
    job_id = job_id;
    client_ip = client_ip;
    entrypoint = [];
    interpreter = codes "python3";
    args = [];
    outputs = [];
    environment = [];
    status = queued;
    stdout_log = [];
    stderr_log = [];
    working_dir = codes "/tmp/sandrun_jobs/" ++ job_id;
    queue_position = 0;
    cpu_seconds = zero;
    memory_mb = 0;
    created_at = now;
    job_hash = [];
    output_files = [];
    wall_time_ms = 0;
    exit_code = pos 0;
    worker_id = [];
    result_signature = [];
  }

  unfoldable pub read_manifest : Bytes → Job F → Job F
  read_manifest manifest job = record job {
    entrypoint = json_get_string manifest (codes "entrypoint");
    interpreter = unless_empty (json_get_string manifest (codes "interpreter")) job.interpreter;
    environment = json_get_string manifest (codes "environment");
    outputs = json_get_string_array manifest (codes "outputs");
    args = json_get_string_array manifest (codes "args");
  }

  -- Each part with the name `manifest` counts.
  unfoldable pub read_manifests : List MultipartPart → Job F → Job F
  unfolding read_manifest
  read_manifests [] job = job
  read_manifests (part ∷ parts) job =
      read_manifests parts
        (if bytes_eq part.name (codes "manifest") then read_manifest part.data_bytes job else job)

  -- `job.json` fills what the manifest left empty.
  unfoldable pub read_job_json : Bytes → Job F → Job F
  read_job_json manifest job = record job {
    entrypoint = json_get_string manifest (codes "entrypoint");
    interpreter = unless_empty (json_get_string manifest (codes "interpreter")) job.interpreter;
    environment = unless_empty job.environment (json_get_string manifest (codes "environment"));
    outputs =
        if is_empty job.outputs
        then json_get_string_array manifest (codes "outputs")
        else job.outputs;
    args = if is_empty job.args then json_get_string_array manifest (codes "args") else job.args;
  }

  unfoldable pub with_entrypoint : Bytes → Bytes → Job F → Job F
  with_entrypoint entrypoint interpreter job = record job {
    entrypoint = entrypoint;
    interpreter = interpreter;
  }

  module _ {W : Type 0} (disk : Storage W) where
    unfoldable pub read_uploaded : W → Job F → Job F
    unfolding read_job_json
    read_uploaded w job =
        let manifest_path = job.working_dir ++ codes "/job.json" in
        if is_empty job.entrypoint && disk.exists manifest_path w
        then read_job_json (disk.read_file manifest_path w) job
        else job

    unfoldable pub default_entrypoint : W → Job F → Job F
    unfolding with_entrypoint
    default_entrypoint w job =
        if not (is_empty job.entrypoint)
        then job
        else if disk.exists (job.working_dir ++ codes "/main.py") w
        then with_entrypoint (codes "main.py") (codes "python3") job
        else if disk.exists (job.working_dir ++ codes "/index.js") w
        then with_entrypoint (codes "index.js") (codes "node") job
        else if disk.exists (job.working_dir ++ codes "/run.sh") w
        then with_entrypoint (codes "run.sh") (codes "bash") job
        else job

    -- The job behind its manifests and its files.
    unfoldable pub configured : List MultipartPart → W → Job F → Job F
    unfolding read_manifests read_uploaded default_entrypoint
    configured parts w job = default_entrypoint w (read_uploaded w (read_manifests parts job))

    -- The text whose hash is the job's hash.
    unfoldable pub job_data : W → Job F → Bytes
    unfolding args_data
    job_data w job =
        let path = job.working_dir ++ (b'/' ∷ job.entrypoint) in
        job.entrypoint
        ++ (b'|'
            ∷ (job.interpreter
                ++ (b'|'
                    ∷ (job.environment
                        ++ (b'|'
                            ∷ (args_data job.args
                                ++ (if disk.exists path w then disk.read_file path w else [])))))))

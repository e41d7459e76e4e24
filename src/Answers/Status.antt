-- ===== src/Answers/Status.antt =====
-- GET /status/{job_id} and GET /logs/{job_id} in src/main.cpp. The printing of a double with two
-- decimals is a parameter.
use sandrun.Common.{
  ◌*◌, ◌%◌, ◌^◌, [], ◌∷◌, ◌++◌, Bytes, codes, if◌then◌else◌, is_empty, map, Outcome,
}
use sandrun.Common.Decimal.{to_string, int_to_string}
use sandrun.Json.{json_escape}
use sandrun.Files.Directory.{FileMetadata}
use sandrun.Files.Tables.{file_type_to_string}
use sandrun.Http.Response.{HttpResponse}
use sandrun.Jobs.{Job, Server}
use sandrun.Jobs.Executor.{status_text}
use sandrun.Answers.{written, join_pieces, answer, with_job}

-- A text in quotes, or null where it is empty.
abbrev pub or_null : Bytes → Bytes
or_null value = if is_empty value then codes "null" else b'"' ∷ (value ++ b'"' ∷ [])

unfoldable pub output_file : Bytes × FileMetadata → Bytes
unfolding json_escape
output_file (path, metadata) = written (
    codes "    \""
    ∷ json_escape path
    ∷ codes "\": {\n      \"size_bytes\": "
    ∷ to_string metadata.size_bytes
    ∷ codes ",\n      \"sha256\": \""
    ∷ metadata.sha256_hash
    ∷ codes "\",\n      \"type\": \""
    ∷ file_type_to_string metadata.type
    ∷ codes "\"\n    }"
    ∷ [])

module _ {F : Type 0} (to_fixed : F → Bytes) where
  unfoldable pub execution_metadata : Job F → Bytes
  execution_metadata job = written (
      codes "  \"execution_metadata\": {\n    \"cpu_seconds\": "
      ∷ to_fixed job.cpu_seconds
      ∷ codes ",\n    \"memory_peak_bytes\": "
      ∷ to_string (job.memory_mb * 1024 * 1024 % 2 ^ 64)
      ∷ codes ",\n    \"memory_peak_mb\": "
      ∷ to_string job.memory_mb
      ∷ codes ",\n    \"wall_time_ms\": "
      ∷ to_string job.wall_time_ms
      ∷ codes ",\n    \"exit_code\": "
      ∷ int_to_string job.exit_code
      ∷ codes ",\n    \"environment\": \""
      ∷ json_escape job.environment
      ∷ codes "\",\n    \"interpreter\": \""
      ∷ json_escape job.interpreter
      ∷ codes "\"\n  },\n"
      ∷ [])

  unfoldable pub status_body : Bytes → Job F → Bytes
  unfolding execution_metadata output_file status_text join_pieces
  status_body job_id job = written (
      codes "{\n  \"job_id\": \""
      ∷ job_id
      ∷ codes "\",\n  \"status\": \""
      ∷ status_text job.status
      ∷ codes "\",\n  \"queue_position\": "
      ∷ to_string job.queue_position
      ∷ codes ",\n"
      ∷ execution_metadata job
      ∷ codes "  \"job_hash\": \""
      ∷ job.job_hash
      ∷ codes "\",\n  \"output_files\": {\n"
      ∷ join_pieces (codes ",\n") (map output_file job.output_files)
      ∷ codes "\n  },\n  \"worker_metadata\": {\n    \"worker_id\": "
      ∷ or_null job.worker_id
      ∷ codes ",\n    \"signature\": "
      ∷ or_null job.result_signature
      ∷ codes "\n  }\n}"
      ∷ [])

  unfoldable pub handle_status : Bytes → Server F → Outcome HttpResponse
  unfolding status_body with_job
  handle_status job_id s = with_job job_id s (λ job. answer (status_body job_id job))

unfoldable pub logs_body : Bytes → Bytes → Bytes
unfolding json_escape
logs_body stdout_log stderr_log =
    codes "{\"stdout\":\""
    ++ (json_escape stdout_log
        ++ (b'"' ∷ (codes ",\"stderr\":\"" ++ (json_escape stderr_log ++ (b'"' ∷ codes "}")))))

unfoldable pub handle_logs : {F : Type 0} → Bytes → Server F → Outcome HttpResponse
unfolding logs_body with_job
handle_logs job_id s = with_job job_id s (λ job. answer (logs_body job.stdout_log job.stderr_log))

-- ===== src/Threads/Calls/Tests.antt =====
-- The theorems on whole calls of src/main.cpp at inputs: the executor finds no job, a job is
-- submitted, and it runs in the next round.
use sandrun.Common.{
  length, arith, ℕ, List, [], ◌∷◌, ◌≡◌, refl, ap, ◌∙◌, ◌&&◌, some, Bytes, codes, contains, bytes_eq,
  Map, bytes_key, ok, All, map, true, false, lookup, starts_with, insert,
}
use sandrun.Common.Decimal.{to_string}
use sandrun.Common.Find.{find, find_from}
use sandrun.RateLimiter.{check_quota, jobs_since, register_job_start}
use sandrun.Http.Lines.{split_lines}
use sandrun.Multipart.{parse}
use sandrun.Jobs.{submit_job, pop_job, cleanup_jobs, generate_job_id}
use sandrun.Submit.Upload.{save_files}
use sandrun.Submit.Manifest.{configured, new_job}
use sandrun.Submit.Handler.{upload, create_job, accept, enqueue, World, handle_submit}
use sandrun.RateLimiter.Tests.{milliseconds, limits}
use sandrun.RateLimiter.Active.{is_active}
use sandrun.Jobs.Tests.{listable, outside, empty_disk}
use sandrun.Jobs.Executor.{executor_round}
use sandrun.Jobs.Pointers.{ip_of, ip_behind}
use sandrun.Submit.Accepted.{handle_submit-accepts}
use sandrun.Submit.Tests.{
  files_by_path, clock, request, part, quota_is_free, form_is_read, entrypoint_is_found,
}
use sandrun.Answers.Listing.{Removals}
use sandrun.Threads.{is_some, start}
use sandrun.Threads.Calls.Young.{AllYoung}
use sandrun.Threads.Calls.Drains.{run_calls-drains}
use sandrun.Threads.Calls.{Call, submits, rounds, fresh_world, call, run_calls}
use sandrun.Threads.Calls.Submits.{Leads, world_of, handle_submit-Leads}
use sandrun.Threads.Calls.Waiting.{run_calls-is_active}

abbrev no_exception : {W : Type 0} → Removals W
no_exception = record { remove = λ path w. (ok tt, w); remove_all = λ path w. (ok tt, w) }

abbrev calls : List Call
calls = rounds 9 ∷ submits clock request ∷ []

abbrev submitted : World ℕ (Map Bytes Bytes)
submitted =
    (handle_submit milliseconds limits to_string (λ text. text) files_by_path clock request
      (fresh_world [])).0

ran :
    run_calls outside milliseconds limits to_string
      (λ text. text)
      files_by_path
      no_exception
      empty_disk
      ok
      (λ path. [])
      (λ path. path)
      calls
      (fresh_world [])
    ≡ ok submitted
unfolding run_calls call executor_round pop_job cleanup_jobs
ran = refl

listed : ip_of (codes "job_7_1") submitted.server.jobs ≡ some (codes "10.0.0.1")
unfolding generate_job_id to_string
listed =
    let accepted =
      handle_submit-accepts milliseconds limits to_string (λ text. text) files_by_path clock request
        (fresh_world []) (part ∷ []) quota_is_free form_is_read refl entrypoint_is_found in
    ap ip_behind accepted.3 ∙ ap some accepted.4

handle_submit-Leads_example :
    Leads outside milliseconds limits start
      (handle_submit milliseconds limits to_string
        (λ text. text)
        files_by_path
        clock
        request
        (world_of start [])).0
handle_submit-Leads_example =
    handle_submit-Leads outside milliseconds limits to_string (λ text. text) files_by_path clock
      request start []

run_calls-is_active_example :
    is_active (codes "10.0.0.1") (codes "job_7_1") submitted.server.limiter ≡ (
      contains (codes "job_7_1") submitted.server.job_queue
      && bytes_eq (codes "10.0.0.1") (codes "10.0.0.1"))
run_calls-is_active_example =
    run_calls-is_active outside milliseconds limits to_string (λ text. text) files_by_path
      no_exception empty_disk ok (λ path. []) (λ path. path) calls [] ran (codes "10.0.0.1")
      (codes "job_7_1") (codes "10.0.0.1") listed

young : AllYoung 10 submitted.server.jobs
unfolding handle_submit upload create_job accept enqueue submit_job register_job_start check_quota
    jobs_since lookup parse find find_from starts_with split_lines insert bytes_eq configured
    save_files new_job generate_job_id contains to_string
young = (refl, tt)

held : All (λ id. is_some (ip_of id submitted.server.jobs) ≡ true) submitted.server.job_queue
unfolding generate_job_id to_string
held =
    let accepted =
      handle_submit-accepts milliseconds limits to_string (λ text. text) files_by_path clock request
        (fresh_world []) (part ∷ []) quota_is_free form_is_read refl entrypoint_is_found in
    rw accepted.2 (rw listed refl, tt)

once : length {A = ℕ} (9 ∷ []) ≡ length submitted.server.job_queue
unfolding generate_job_id to_string
once =
    let accepted =
      handle_submit-accepts milliseconds limits to_string (λ text. text) files_by_path clock request
        (fresh_world []) (part ∷ []) quota_is_free form_is_read refl entrypoint_is_found in
    rw accepted.2 refl

run_calls-drains_example :
    (v : World ℕ (Map Bytes Bytes)) × (run_calls outside milliseconds limits to_string
        (λ text. text)
        files_by_path
        no_exception
        empty_disk
        ok
        (λ path. [])
        (λ path. path)
        (map rounds (9 ∷ []))
        submitted
      ≡ ok v)
    × (v.server.job_queue ≡ [])
    × (is_active (codes "10.0.0.1") (codes "job_7_1") v.server.limiter ≡ false)
run_calls-drains_example =
    run_calls-drains outside milliseconds limits to_string (λ text. text) files_by_path no_exception
      empty_disk ok (λ path. []) (λ path. path) listable calls [] ran 10 (9 ∷ []) once
      (omega arith, tt) young held (codes "10.0.0.1") (codes "job_7_1")

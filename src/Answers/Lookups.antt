-- ===== src/Answers/Lookups.antt =====
-- What the answers of src/main.cpp say of the jobs that are there, and of those that are gone.
use sandrun.Common.{
  true, [], ◌++◌, ◌≡◌, refl, ap, ◌∙◌, Option, none, some, Bytes, codes, drop, lookup, erase,
  bytes_key, lookup-erase_self, Outcome, ok,
}
use sandrun.Common.Find.{Lacks, find_byte_none}
use sandrun.Json.Escape.{read_string, plain}
use sandrun.Files.Directory.{FileSystem}
use sandrun.Files.Sizes.{SizeDouble}
use sandrun.Http.Response.{HttpResponse}
use sandrun.Jobs.{Job, Server, deref, download_all}
use sandrun.Submit.{Storage}
use sandrun.Answers.{job_not_found, with_job}
use sandrun.Answers.Status.{handle_logs, handle_status}
use sandrun.Answers.Listing.{
  split_download, Removals, archive, archive_response, download_job, handle_outputs,
  handle_download,
}

with_job-gone :
    {F : Type 0} (job_id : Bytes) (s : Server F) (handler : Job F → Outcome HttpResponse)
    → lookup job_id s.jobs ≡ none
    → with_job job_id s handler ≡ ok job_not_found
unfolding with_job
with_job-gone job_id s handler e = rw (e, with_job) refl

download_all-found :
    {F : Type 0} (job_id : Bytes) (s : Server F) (job : Job F)
    → lookup job_id s.jobs ≡ some (some job)
    → download_all job_id s ≡ ok (record s { jobs = erase job_id s.jobs }, true)
unfolding download_all deref
download_all-found job_id s job e = rw (e, download_all) refl

-- A reader of the two strings of an answer to /logs.
abbrev second_string : Bytes → Option (Bytes × Bytes) → Option (Bytes × Bytes)
second_string first none = none
second_string first (some (second, rest)) = some (first, second)

abbrev behind_first : Option (Bytes × Bytes) → Option (Bytes × Bytes)
behind_first none = none
behind_first (some (first, rest)) = second_string first (read_string plain (drop 11 rest))

abbrev pub logs_of : Bytes → Option (Bytes × Bytes)
logs_of body = behind_first (read_string plain (drop 11 body))

split_download-whole : (id : Bytes) → Lacks b'/' id → split_download id ≡ (id, [])
unfolding split_download
split_download-whole id h = rw (find_byte_none b'/' id h, split_download) refl

module _ {F : Type 0} {D : Type 0} {W : Type 0} (fs : FileSystem) (relative : Bytes → Bytes → Bytes)
    (d : SizeDouble D) (to_fixed : F → Bytes) (disk : Storage W) (removals : Removals W)
    (canonical : Bytes → Outcome Bytes) (read_file : Bytes → Bytes)
    (file_name : Bytes → Bytes) where
  archive-ends :
      (job_id working_dir : Bytes) (w : W)
      → ((path : Bytes) (v : W) → (removals.remove path v).0 ≡ ok tt)
      → ((path : Bytes) (v : W) → (removals.remove_all path v).0 ≡ ok tt)
      → (archive disk removals job_id working_dir w).1 ≡ ok tt
  unfolding archive
  archive-ends job_id working_dir w removes wipes =
      rw (removes (codes "/tmp/" ++ (job_id ++ codes ".tar.gz")) _, archive) (wipes working_dir _)

  -- A download of all files takes the job away: it is answered with the archive, and in the state
  -- that it leaves the job's status, its logs, its files and a second download are answered by 404.
  -- The removals of the archive and of the job's directory throw nothing.
  pub handle_download-gone :
      (job_id : Bytes) (s : Server F) (w : W) (job : Job F)
      → Lacks b'/' job_id
      → lookup job_id s.jobs ≡ some (some job)
      → ((path : Bytes) (v : W) → (removals.remove path v).0 ≡ ok tt)
      → ((path : Bytes) (v : W) → (removals.remove_all path v).0 ≡ ok tt)
      → let download = handle_download disk removals fs canonical read_file file_name job_id in
        (after : Server F) × (last : W) × (resp : HttpResponse) × (download s w
          ≡ (after, last, ok resp))
        × (resp.body ≡ (archive disk removals job_id job.working_dir w).0)
        × (handle_status to_fixed job_id after ≡ ok job_not_found)
        × (handle_logs job_id after ≡ ok job_not_found)
        × (handle_outputs fs relative d job_id after ≡ ok job_not_found)
        × ((v : W) → download after v ≡ (after, v, ok job_not_found))
  unfolding handle_download handle_status handle_logs handle_outputs deref archive_response
  handle_download-gone job_id s w job h e removes wipes =
      let whole = split_download-whole job_id h in
      let gone = lookup-erase_self job_id s.jobs in
      let left = record s { jobs = erase job_id s.jobs } in
      let (tar_data, removed, w') = archive disk removals job_id job.working_dir w in
      (
        left,
        w',
        archive_response disk removals job_id tar_data,
        ap (λ parts. download_job disk removals fs canonical read_file file_name parts s w) whole
            ∙ rw
                (
                  e,
                  archive-ends job_id job.working_dir w removes wipes,
                  download_job,
                  download_all-found job_id s job e,
                )
                refl,
        refl,
        with_job-gone job_id left _ gone,
        with_job-gone job_id left _ gone,
        with_job-gone job_id left _ gone,
        λ v.
            ap (λ parts. download_job disk removals fs canonical read_file file_name parts left v)
              whole
            ∙ rw (gone, download_job) refl,
      )

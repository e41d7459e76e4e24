-- ===== src/Jobs/Download.antt =====
-- GET /download/{job_id}/{file_path} in src/main.cpp: one file of a job. `fs::canonical`, the file
-- system, the reading of a file and the last part of a path are parameters.
use sandrun.Common.{
  ℕ, Bool, true, not, ◌||◌, [], ◌∷◌, ◌++◌, ◌≡◌, refl, Option, none, some, Bytes, codes, ◌==◌,
  if◌then◌else◌, insert, bytes_key, Outcome, ok, ◌>>=◌, starts_with, starts_with_self,
}
use sandrun.Common.Find.{find}
use sandrun.Files.Directory.{FileSystem}
use sandrun.Files.Types.{get_mime_type}
use sandrun.Http.Response.{HttpResponse, default_response}
use sandrun.Jobs.{Job}

-- `find(...) != 0`.
abbrev pub is_elsewhere : Option ℕ → Bool
is_elsewhere none = true
is_elsewhere (some i) = not (i == 0)

module _ (fs : FileSystem) (canonical : Bytes → Outcome Bytes) (read_file : Bytes → Bytes)
    (file_name : Bytes → Bytes) where
  -- The answer that holds the file.
  unfoldable pub file_response : Bytes → Bytes → HttpResponse
  file_response full_path file_path = record default_response {
    headers =
        insert (codes "Content-Disposition")
          (codes "attachment; filename=\"" ++ (file_name file_path ++ codes "\""))
          (insert (codes "Content-Type") (get_mime_type file_path) default_response.headers);
    body = read_file full_path;
  }

  unfoldable pub download_file : {F : Type 0} → Job F → Bytes → Outcome HttpResponse
  unfolding file_response
  download_file job file_path =
      let full_path = job.working_dir ++ b'/' ∷ file_path in
      canonical job.working_dir >>= λ work_dir. canonical full_path >>= λ file. ok (
        if is_elsewhere (find work_dir file)
        then record default_response {
          status_code = 403;
          body = codes "{\"error\":\"Access denied: path traversal detected\"}";
        }
        else if not (fs.exists full_path) || not (fs.is_regular_file full_path)
        then record default_response {
          status_code = 404;
          body = codes "{\"error\":\"File not found\"}";
        }
        else file_response full_path file_path)

  find_front : (p s : Bytes) → starts_with p s ≡ true → find p s ≡ some 0
  unfolding find
  find_front p [] h = rw h refl
  find_front p (c ∷ s) h = rw h refl

  -- Any regular file is served whose canonical path goes on from the text of the job's canonical
  -- directory, be it in the directory or in another one whose name is longer.
  pub download_file-served :
      {F : Type 0} (job : Job F) (file_path work_dir rest : Bytes)
      → canonical job.working_dir ≡ ok work_dir
      → canonical (job.working_dir ++ b'/' ∷ file_path) ≡ ok (work_dir ++ rest)
      → fs.exists (job.working_dir ++ b'/' ∷ file_path) ≡ true
      → fs.is_regular_file (job.working_dir ++ b'/' ∷ file_path) ≡ true
      → download_file job file_path
        ≡ ok (file_response (job.working_dir ++ b'/' ∷ file_path) file_path)
  unfolding download_file
  download_file-served job file_path work_dir rest at_dir at_file there regular =
      rw
        (
          at_dir,
          at_file,
          find_front work_dir (work_dir ++ rest) (starts_with_self work_dir rest),
          there,
          regular,
        )
        refl

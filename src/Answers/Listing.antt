-- ===== src/Answers/Listing.antt =====
-- GET /outputs/{job_id} and GET /download/ in src/main.cpp. `fs::relative`, the doubles of the sizes
-- and `fs::remove` are parameters.
use sandrun.Common.{
  ℕ, suc, List, [], ◌∷◌, ◌++◌, none, some, Bytes, codes, if◌then◌else◌, is_empty, length, map,
  select, take, drop, lookup, insert, bytes_key, Outcome, ok, err,
}
use sandrun.Common.Find.{find}
use sandrun.Common.Decimal.{to_string}
use sandrun.Json.{json_escape}
use sandrun.Files.Tables.{FileType, file_type_to_string}
use sandrun.Files.Types.{detect_file_type, get_mime_type}
use sandrun.Files.Directory.{FileSystem, is_selected}
use sandrun.Files.Sizes.{SizeDouble, format_file_size}
use sandrun.Http.Response.{HttpResponse, default_response}
use sandrun.Jobs.{Job, Server, deref, download_all}
use sandrun.Jobs.Executor.{status_text}
use sandrun.Jobs.Download.{download_file}
use sandrun.Submit.{Storage}
use sandrun.Answers.{written, join_pieces, answer, job_not_found, with_job}

pub record FileInfo : Type 0 where
  pub path : Bytes
  pub size : ℕ
  pub type : FileType

module _ {D : Type 0} (fs : FileSystem) (relative : Bytes → Bytes → Bytes) (d : SizeDouble D) where
  unfoldable pub file_info : Bytes → Bytes → FileInfo
  file_info working_dir entry =
      let rel_path = relative entry working_dir in
      record { path = rel_path; size = fs.file_size entry; type = detect_file_type rel_path }

  -- The regular files of a job that its patterns select.
  unfoldable pub list_files : Bytes → List Bytes → List FileInfo
  unfolding file_info
  list_files working_dir outputs =
      if fs.exists working_dir
      then select (λ file. is_selected outputs file.path)
          (map (file_info working_dir) (select fs.is_regular_file (fs.entries working_dir)))
      else []

  unfoldable pub file_entry : Bytes → FileInfo → Bytes
  file_entry job_id file = written (
      codes "    {\n      \"name\": \""
      ∷ json_escape file.path
      ∷ codes "\",\n      \"size\": "
      ∷ to_string file.size
      ∷ codes ",\n      \"size_formatted\": \""
      ∷ format_file_size d file.size
      ∷ codes "\",\n      \"type\": \""
      ∷ file_type_to_string file.type
      ∷ codes "\",\n      \"mime_type\": \""
      ∷ get_mime_type file.path
      ∷ codes "\",\n      \"download_url\": \"/download/"
      ∷ job_id
      ∷ codes "/"
      ∷ json_escape file.path
      ∷ codes "\"\n    }"
      ∷ [])

  unfoldable pub outputs_body : {F : Type 0} → Bytes → Job F → Bytes
  unfolding list_files file_entry
  outputs_body job_id job =
      let files = list_files job.working_dir job.outputs in
      written (
        codes "{\n  \"job_id\": \""
        ∷ job_id
        ∷ codes "\",\n  \"status\": \""
        ∷ status_text job.status
        ∷ codes "\",\n  \"total_files\": "
        ∷ to_string (length files)
        ∷ codes ",\n  \"files\": [\n"
        ∷ join_pieces (codes ",\n") (map (file_entry job_id) files)
        ∷ codes "\n  ]\n}"
        ∷ [])

  unfoldable pub handle_outputs : {F : Type 0} → Bytes → Server F → Outcome HttpResponse
  unfolding outputs_body with_job
  handle_outputs job_id s = with_job job_id s (λ job. answer (outputs_body job_id job))

-- The id and the path of a file behind `/download/`; the path is empty for all files.
unfoldable pub split_download : Bytes → Bytes × Bytes
split_download path = elim (find (b'/' ∷ []) path) [
  | none ↦ (path, [])
  | some slash_pos ↦ (take slash_pos path, drop (suc slash_pos) path)
]

-- `fs::remove` and `fs::remove_all`: an exception of theirs is an answer, beside the disk that it
-- leaves.
pub record Removals (W : Type 0) : Type 0 where
  pub remove : Bytes → W → Outcome (Unit {0}) × W
  pub remove_all : Bytes → W → Outcome (Unit {0}) × W

module _ {W : Type 0} (disk : Storage W) (removals : Removals W) where
  -- The archive is made, read and removed, and the job's directory is removed.
  unfoldable pub archive : Bytes → Bytes → W → Bytes × Outcome (Unit {0}) × W
  archive job_id working_dir w =
      let tar_path = codes "/tmp/" ++ (job_id ++ codes ".tar.gz") in
      let made =
        disk.system
          (codes "tar -czf " ++ (tar_path ++ (codes " -C " ++ (working_dir ++ codes " .")))) w in
      let tar_data = disk.read_file tar_path made in
      let (removed, w') = removals.remove tar_path made in
      let (wiped, last) = removals.remove_all working_dir w' in
      elim removed [ err e ↦ (tar_data, err e, w') | ok done ↦ (tar_data, wiped, last) ]

  unfoldable pub archive_response : Bytes → Bytes → HttpResponse
  archive_response job_id tar_data = record default_response {
    headers =
        insert (codes "Content-Disposition")
          (codes "attachment; filename=\"" ++ (job_id ++ codes ".tar.gz\""))
          (insert (codes "Content-Type") (codes "application/gzip") default_response.headers);
    body = tar_data;
  }

  module _ (fs : FileSystem) (canonical : Bytes → Outcome Bytes) (read_file : Bytes → Bytes)
      (file_name : Bytes → Bytes) where
    unfoldable pub download_job :
        {F : Type 0} → Bytes × Bytes → Server F → W → Server F × W × Outcome HttpResponse
    unfolding archive archive_response download_all deref
    download_job (job_id, file_path) s w = elim (lookup job_id s.jobs) [
      | none ↦ (s, w, ok job_not_found)
      | some pointer ↦ elim (deref (some pointer)) [
        | err e ↦ (s, w, err e)
        | ok job ↦
            let (tar_data, removed, w') = archive job_id job.working_dir w in
            if is_empty file_path
            then (elim removed [
              | err e ↦ (s, w', err e)
              | ok directory ↦ elim (download_all job_id s) [
                | err e ↦ (s, w', err e)
                | ok done ↦ (done.0, w', ok (archive_response job_id tar_data))
              ]
            ])
            else (s, w, download_file fs canonical read_file file_name job file_path)
      ]
    ]

    -- `path` is what stands behind `/download/`.
    unfoldable pub handle_download :
        {F : Type 0} → Bytes → Server F → W → Server F × W × Outcome HttpResponse
    unfolding split_download download_job
    handle_download path s w = download_job (split_download path) s w

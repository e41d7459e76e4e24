-- ===== src/Submit/Upload.antt =====
-- `save_files` of src/main.cpp. The sums of `find` and a constant wrap around as size_t does.
use sandrun.Common.{
  ℕ, ◌+◌, ◌%◌, ◌^◌, Bool, false, not, ◌&&◌, ◌||◌, List, [], ◌∷◌, ◌++◌, Option, none, some, Bytes,
  codes, ◌==◌, bytes_eq, if◌then◌else◌, is_empty, Outcome, ok, err, Error, ◌>>=◌, substr,
  substr_from,
}
use sandrun.Common.Find.{find, find_from, index_or_npos, is_found}
use sandrun.Multipart.{MultipartPart, minus}
use sandrun.Submit.{Storage}

abbrev pub plus : ℕ → ℕ → ℕ
plus a b = (a + b) % 2 ^ 64

abbrev pub is_front : Option ℕ → Bool
is_front none = false
is_front (some i) = i == 0

-- The name and the content of a file in the web frontend's format.
unfoldable pub fake_tar : Bytes → Outcome (Bytes × Bytes)
fake_tar text = do
  let path_start = plus (index_or_npos (find (codes "Path: ") text)) 6
  let path_end = index_or_npos (find_from (b'\n' ∷ []) path_start text)
  filename ← substr text path_start (minus path_end path_start)
  content ← substr_from text (plus (index_or_npos (find (codes "\n\n") text)) 2)
  ok (filename, content)

abbrev pub has : Bytes → Bytes → Bool
has text filename = is_found (find text filename)

module _ {W : Type 0} (disk : Storage W) where
  -- An archive is written under a name of its own, and unpacked by the shell.
  unfoldable pub unpack : Bytes → Bytes → Bytes → Bytes → W → W
  unpack job_dir archive command bytes w =
      disk.system
        (codes "cd " ++ (job_dir ++ (codes " && " ++ (command ++ (codes " && rm " ++ archive)))))
        (disk.write_file (job_dir ++ (b'/' ∷ archive)) bytes w)

  unfoldable pub save_plain : Bytes → MultipartPart → W → W
  unfolding unpack
  save_plain job_dir part w =
      if has (codes ".tar.gz") part.filename || has (codes ".tgz") part.filename
      then unpack job_dir (codes "upload.tar.gz") (codes "tar -xzf upload.tar.gz") part.data_bytes w
      else if has (codes ".zip") part.filename
      then unpack job_dir (codes "upload.zip") (codes "unzip -q upload.zip") part.data_bytes w
      else disk.write_file (job_dir ++ (b'/' ∷ part.filename)) part.data_bytes w

  -- One part; the second component is an exception.
  unfoldable pub save_file : Bytes → MultipartPart → W → W × Option Error
  unfolding fake_tar save_plain
  save_file job_dir part w =
      if not (bytes_eq part.name (codes "files") && not (is_empty part.filename))
      then (w, none)
      else if is_front (find (codes "----Tar\nPath:") part.data_bytes)
      then (elim (fake_tar part.data_bytes) [
        | err e ↦ (w, some e)
        | ok (filename, content) ↦ (disk.write_file (job_dir ++ (b'/' ∷ filename)) content w, none)
      ])
      else (save_plain job_dir part w, none)

  unfoldable pub save_parts : Bytes → List MultipartPart → W → W × Option Error
  unfolding save_file
  save_parts job_dir [] w = (w, none)
  save_parts job_dir (part ∷ parts) w =
      let (w', failed) = save_file job_dir part w in
      let rest = save_parts job_dir parts w' in elim failed [ none ↦ rest | some e ↦ (w', some e) ]

  unfoldable pub save_files : Bytes → List MultipartPart → W → W × Option Error
  unfolding save_parts
  save_files job_dir parts w = save_parts job_dir parts (disk.create_directories job_dir w)

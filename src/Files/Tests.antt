-- ===== src/Files/Tests.antt =====
-- The theorems on src/file_utils.cpp and src/job_hash.cpp at inputs.
use sandrun.Common.{true, [], ◌∷◌, ◌≡◌, Bytes, codes, bytes_key, All, ◌<◌, refl, arith}
use sandrun.Files.Tables.{image}
use sandrun.Files.Hashes.{bytes_to_hex-inj, JobDefinition}
use sandrun.Files.Directory.{FileSystem, FileMetadata}

-- `data/*results` matches `data/a`, where `*results` has to be behind `data/`.
abbrev digest : Bytes
digest = 10 ∷ 255 ∷ []

abbrev digest-small : All (λ c. c < 256) digest
digest-small = (omega arith, (omega arith, tt))

bytes_to_hex-inj_example : digest ≡ digest
bytes_to_hex-inj_example = bytes_to_hex-inj digest digest digest-small digest-small refl

abbrev job : JobDefinition
job = record {
  entrypoint = codes "main.py";
  interpreter = codes "python3";
  environment = [];
  args = [];
  code = codes "print(1)";
}

abbrev disk : FileSystem
disk = record {
  exists = λ path. true;
  is_regular_file = λ path. true;
  is_directory = λ path. true;
  file_size = λ path. 3;
  entries = λ path. codes "/d/a.png" ∷ codes "/d/b" ∷ [];
}

abbrev listed : FileMetadata
listed = record { path = codes "a.png"; size_bytes = 3; sha256_hash = []; type = image }

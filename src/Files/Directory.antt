-- ===== src/Files/Directory.antt =====
-- `get_file_metadata` and `hash_directory` of src/file_utils.cpp. The file system and the hash of a
-- file are parameters, and `entries` is what the recursive iterator passes.
use sandrun.Common.{
  ℕ, Bool, true, not, ◌||◌, List, [], ◌∷◌, ◌≡◌, arith, Bytes, some, any, is_empty, if◌then◌else◌,
  Map, lookup, insert, bytes_key, bytes_eq_sound, lookup-insert, Bool-cases, inl, inr, Outcome,
  Outcome-cases, ok, ◌>>=◌, substr_from, length, drop, ◌==◌,
}
use sandrun.Files.Tables.{FileType, other}
use sandrun.Files.Types.{detect_file_type}
use sandrun.Files.Patterns.{matches_pattern}

pub record FileMetadata : Type 0 where
  pub path : Bytes
  pub size_bytes : ℕ
  pub sha256_hash : Bytes
  pub type : FileType

-- The calls of std::filesystem that the code makes.
pub record FileSystem : Type 0 where
  pub exists : Bytes → Bool
  pub is_regular_file : Bytes → Bool
  pub is_directory : Bytes → Bool
  pub file_size : Bytes → ℕ
  pub entries : Bytes → List Bytes

-- The loop over the patterns, with its flag at the start.
unfoldable pub is_selected : List Bytes → Bytes → Bool
is_selected patterns relpath =
    if is_empty patterns then true else any (matches_pattern relpath) patterns

module _ (fs : FileSystem) (sha256_file : Bytes → Bytes) where
  unfoldable pub get_file_metadata : Bytes → FileMetadata
  get_file_metadata filepath =
      if not (fs.exists filepath) || not (fs.is_regular_file filepath)
      then record { path = filepath; size_bytes = 0; sha256_hash = []; type = other }
      else record {
        path = filepath;
        size_bytes = fs.file_size filepath;
        sha256_hash = sha256_file filepath;
        type = detect_file_type filepath;
      }

  -- The metadata of the file at `filepath`, under its relative path.
  unfoldable pub relative_metadata : Bytes → Bytes → FileMetadata
  unfolding get_file_metadata
  relative_metadata filepath relpath = record (get_file_metadata filepath) { path = relpath }

  unfoldable pub strip_slash : Bytes → Bytes
  strip_slash [] = []
  strip_slash (c ∷ path) = if c == b'/' then path else c ∷ path

  -- One round of the loop over the entries, on the result so far.
  unfoldable pub hash_entry :
      Bytes → List Bytes → Bytes → Map Bytes FileMetadata → Outcome (Map Bytes FileMetadata)
  unfolding is_selected relative_metadata strip_slash
  hash_entry dirpath patterns filepath result =
      if not (fs.is_regular_file filepath)
      then ok result
      else (substr_from filepath (length dirpath) >>= λ rest.
          let relpath = strip_slash rest in
          if is_selected patterns relpath
          then ok (insert relpath (relative_metadata filepath relpath) result)
          else ok result)

  unfoldable pub hash_entries :
      Bytes → List Bytes → List Bytes → Map Bytes FileMetadata → Outcome (Map Bytes FileMetadata)
  unfolding hash_entry
  hash_entries dirpath patterns [] result = ok result
  hash_entries dirpath patterns (filepath ∷ entries) result =
      hash_entry dirpath patterns filepath result >>= hash_entries dirpath patterns entries

  unfoldable pub hash_directory : Bytes → List Bytes → Outcome (Map Bytes FileMetadata)
  unfolding hash_entries
  hash_directory dirpath patterns =
      if not (fs.exists dirpath) || not (fs.is_directory dirpath)
      then ok []
      else hash_entries dirpath patterns (fs.entries dirpath) []

  -- Each entry has its key as its path, and its key is selected.
  abbrev pub IsListing : List Bytes → Map Bytes FileMetadata → Type 0
  IsListing patterns m =
      (relpath : Bytes) (metadata : FileMetadata)
      → lookup relpath m ≡ some metadata
      → (metadata.path ≡ relpath) × (is_selected patterns relpath ≡ true)

  insert-IsListing :
      (patterns : List Bytes) (filepath relpath : Bytes) (m : Map Bytes FileMetadata)
      → is_selected patterns relpath ≡ true
      → IsListing patterns m
      → IsListing patterns (insert relpath (relative_metadata filepath relpath) m)
  unfolding relative_metadata
  insert-IsListing patterns filepath relpath m chosen h key metadata found = ground (
    arith,
    lookup-insert relpath key (relative_metadata filepath relpath) m,
    bytes_eq_sound relpath key,
    h key metadata,
  )

  hash_entry-IsListing :
      (dirpath : Bytes) (patterns : List Bytes) (filepath : Bytes)
      (m after : Map Bytes FileMetadata)
      → IsListing patterns m
      → hash_entry dirpath patterns filepath m ≡ ok after
      → IsListing patterns after
  unfolding hash_entry
  hash_entry-IsListing dirpath patterns filepath m after h e key metadata found =
      let relpath = strip_slash (drop (length dirpath) filepath) in
      elim (Bool-cases (is_selected patterns relpath)) [
        | inl c ↦
            ground
              (arith, h key metadata, insert-IsListing patterns filepath relpath m c h key metadata)
        | inr c ↦ ground (arith, h key metadata)
      ]

  hash_entries-IsListing :
      (dirpath : Bytes) (patterns entries : List Bytes) (m after : Map Bytes FileMetadata)
      → IsListing patterns m
      → hash_entries dirpath patterns entries m ≡ ok after
      → IsListing patterns after
  unfolding hash_entries
  hash_entries-IsListing dirpath patterns [] m after h e key metadata found =
      ground (arith, h key metadata)
  hash_entries-IsListing dirpath patterns (filepath ∷ entries) m after h e key metadata found =
      elim (Outcome-cases (hash_entry dirpath patterns filepath m)) [
        | inl (m', e') ↦
            hash_entries-IsListing dirpath patterns entries m' after
              (hash_entry-IsListing dirpath patterns filepath m m' h e') (ground (arith, e')) key
              metadata found
        | inr (x, e') ↦ ground (arith, e')
      ]

  -- Each file that hash_directory lists has its key as its path, and that key matches a pattern,
  -- where there are patterns.
  hash_directory-is_selected :
      (dirpath : Bytes) (patterns : List Bytes) (m : Map Bytes FileMetadata) (relpath : Bytes)
      (metadata : FileMetadata)
      → hash_directory dirpath patterns ≡ ok m
      → lookup relpath m ≡ some metadata
      → (metadata.path ≡ relpath) × (is_selected patterns relpath ≡ true)
  unfolding hash_directory
  hash_directory-is_selected dirpath patterns m relpath metadata e found =
      elim (Bool-cases (not (fs.exists dirpath) || not (fs.is_directory dirpath))) [
        | inl refused ↦ unfold lookup in ground arith
        | inr listed ↦
            hash_entries-IsListing dirpath patterns (fs.entries dirpath) [] m
              (λ k v f. absurd (unfold lookup in cc)) (ground (arith, listed)) relpath metadata
              found
      ]

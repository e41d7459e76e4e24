-- ===== src/Submit.antt =====
-- POST /submit in src/main.cpp: the files that a client uploads, the manifest, and the new job. The
-- file system and the shell act on a disk of any type.
pub mod Upload
pub mod Manifest
pub mod Handler
pub mod Saved
pub mod Configured
pub mod Refused
pub mod Accepted
pub mod Tests
use sandrun.Common.{ℕ, Bool, Bytes}

pub record Storage (W : Type 0) : Type 0 where
  pub exists : Bytes → W → Bool
  pub read_file : Bytes → W → Bytes
  pub create_directories : Bytes → W → W
  pub write_file : Bytes → Bytes → W → W
  pub remove_all : Bytes → W → W
  pub system : Bytes → W → W

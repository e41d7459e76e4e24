-- ===== src/Files.antt =====
-- src/file_utils.h and src/file_utils.cpp: file types, patterns, hashes and directories.
pub mod Tables
pub mod Types
pub mod Patterns
pub mod Hashes
pub mod Directory
pub mod Sizes
pub mod Tests

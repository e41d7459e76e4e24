-- ===== src/Sandbox.antt =====
-- src/sandbox.h and src/sandbox.cpp: one job in a child process. System calls are parameters: what
-- the pipes hold at each poll, what waitpid answers, and which of the calls that set the child up
-- succeed. A variable that C++ leaves uninitialised is `none`.
pub mod Pipe
pub mod Output
pub mod Endings
pub mod Monitor
pub mod Seccomp
pub mod Setup
pub mod Wipe
pub mod Execute
pub mod Tests
use sandrun.Common.{
  ℕ, ◌*◌, Bool, true, false, ◌||◌, Bytes, codes, bytes_eq, if◌then◌else◌, Option, List, [], ◌∷◌,
}
use sandrun.Common.Decimal.{ℤ, pos}

abbrev pub max_output_size : ℕ
max_output_size = 10_485_760

abbrev pub tmpfs_size_limit : ℕ
tmpfs_size_limit = 104_857_600

abbrev pub max_processes_per_job : ℕ
max_processes_per_job = 32

abbrev pub secure_delete_chunk : ℕ
secure_delete_chunk = 1_048_576

pub record SandboxConfig : Type 0 where
  pub memory_limit_bytes : ℕ
  pub cpu_quota_us : ℕ
  pub cpu_period_us : ℕ
  pub timeout : ℕ
  pub allow_network : Bool
  pub interpreter : Bytes
  pub pythonpath : Bytes
  pub gpu_enabled : Bool
  pub gpu_device_id : ℤ
  pub gpu_memory_limit_bytes : ℕ

-- The default member values; the timeout is in nanoseconds.
unfoldable pub default_config : SandboxConfig
default_config = record {
  memory_limit_bytes = 512 * 1024 * 1024;
  cpu_quota_us = 10_000_000;
  cpu_period_us = 60_000_000;
  timeout = 300_000_000_000;
  allow_network = false;
  interpreter = codes "python3";
  pythonpath = [];
  gpu_enabled = false;
  gpu_device_id = pos 0;
  gpu_memory_limit_bytes = 8 * 1024 * 1024 * 1024;
}

-- The name of the script for an interpreter.
unfoldable pub script_extension : Bytes → Bytes
script_extension interpreter =
    if bytes_eq interpreter (codes "node")
    then codes ".js"
    else if bytes_eq interpreter (codes "bash") || bytes_eq interpreter (codes "sh")
    then codes ".sh"
    else codes ".py"

-- The program that is executed; an unknown interpreter is Python 3.
unfoldable pub interpreter_path : Bytes → Bytes
interpreter_path interpreter =
    if bytes_eq interpreter (codes "python3")
    then codes "/usr/bin/python3"
    else if bytes_eq interpreter (codes "python")
    then codes "/usr/bin/python"
    else if bytes_eq interpreter (codes "node")
    then codes "/usr/bin/node"
    else if bytes_eq interpreter (codes "bash")
    then codes "/bin/bash"
    else if bytes_eq interpreter (codes "sh")
    then codes "/bin/sh"
    else codes "/usr/bin/python3"

-- ===== src/Sandbox/Seccomp.antt =====
-- The filter of system calls in src/sandbox.cpp, by the names of the calls.
use sandrun.Common.{
  Bool, true, not, List, [], ◌∷◌, ◌++◌, Option, none, some, Bytes, codes, if◌then◌else◌, contains,
  bytes_key,
}

unfoldable pub allowed : List Bytes
allowed =
    codes "read"
    ∷ codes "write"
    ∷ codes "close"
    ∷ codes "fstat"
    ∷ codes "lseek"
    ∷ codes "mmap"
    ∷ codes "mprotect"
    ∷ codes "munmap"
    ∷ codes "brk"
    ∷ codes "rt_sigaction"
    ∷ codes "rt_sigprocmask"
    ∷ codes "ioctl"
    ∷ codes "access"
    ∷ codes "execve"
    ∷ codes "getuid"
    ∷ codes "getgid"
    ∷ codes "geteuid"
    ∷ codes "getegid"
    ∷ codes "fcntl"
    ∷ codes "dup2"
    ∷ codes "exit_group"
    ∷ codes "exit"
    ∷ codes "getpid"
    ∷ codes "getrandom"
    ∷ codes "clock_gettime"
    ∷ codes "socket"
    ∷ codes "connect"
    ∷ codes "bind"
    ∷ codes "listen"
    ∷ codes "accept"
    ∷ codes "accept4"
    ∷ codes "getsockname"
    ∷ codes "getpeername"
    ∷ codes "setsockopt"
    ∷ codes "getsockopt"
    ∷ codes "sendto"
    ∷ codes "recvfrom"
    ∷ codes "sendmsg"
    ∷ codes "recvmsg"
    ∷ codes "shutdown"
    ∷ codes "open"
    ∷ codes "openat"
    ∷ codes "newfstatat"
    ∷ codes "pread64"
    ∷ codes "pwrite64"
    ∷ codes "readlink"
    ∷ codes "getcwd"
    ∷ codes "stat"
    ∷ codes "fstat64"
    ∷ codes "lstat"
    ∷ codes "getdents64"
    ∷ codes "futex"
    ∷ codes "set_tid_address"
    ∷ codes "set_robust_list"
    ∷ codes "rt_sigreturn"
    ∷ codes "sigaltstack"
    ∷ codes "arch_prctl"
    ∷ codes "gettid"
    ∷ codes "tgkill"
    ∷ codes "clone"
    ∷ codes "unshare"
    ∷ codes "mount"
    ∷ codes "umount2"
    ∷ codes "prlimit64"
    ∷ codes "setrlimit"
    ∷ codes "getrlimit"
    ∷ codes "rseq"
    ∷ codes "sysinfo"
    ∷ codes "uname"
    ∷ codes "pipe"
    ∷ codes "pipe2"
    ∷ codes "dup"
    ∷ codes "dup3"
    ∷ codes "poll"
    ∷ codes "ppoll"
    ∷ codes "select"
    ∷ codes "pselect6"
    ∷ codes "epoll_create"
    ∷ codes "epoll_create1"
    ∷ codes "epoll_ctl"
    ∷ codes "epoll_wait"
    ∷ codes "eventfd"
    ∷ codes "eventfd2"
    ∷ codes "mremap"
    ∷ codes "getpgrp"
    ∷ codes "getppid"
    ∷ codes "getsid"
    ∷ codes "sched_getaffinity"
    ∷ codes "sched_yield"
    ∷ codes "nanosleep"
    ∷ codes "clock_nanosleep"
    ∷ []

unfoldable pub gpu_syscalls : List Bytes
gpu_syscalls =
    codes "ioctl"
    ∷ codes "mmap2"
    ∷ codes "statx"
    ∷ codes "readlinkat"
    ∷ codes "getpriority"
    ∷ codes "setpriority"
    ∷ codes "sched_getscheduler"
    ∷ codes "sched_setscheduler"
    ∷ codes "memfd_create"
    ∷ codes "fstatfs"
    ∷ codes "fstatfs64"
    ∷ []

-- The rules that are added to a filter.
unfoldable pub rules : Bool → List Bytes
unfolding allowed gpu_syscalls
rules gpu_enabled = if gpu_enabled then allowed ++ gpu_syscalls else allowed

-- `setup_seccomp`, where `inits` and `loads` say whether libseccomp's calls succeed: the filter
-- that is then in force, if any, and the warning.
unfoldable pub setup_seccomp : Bool → Bool → Bool → Option (List Bytes) × Bytes
unfolding rules
setup_seccomp inits loads gpu_enabled =
    if not inits
    then (none, codes "Warning: Failed to initialize seccomp\n")
    else if not loads
    then (none, codes "Warning: Failed to load seccomp filter\n")
    else (some (rules gpu_enabled), [])

-- A call that the filter in force lets through.
unfoldable pub permits : Option (List Bytes) → Bytes → Bool
permits none syscall = true
permits (some names) syscall = contains syscall names

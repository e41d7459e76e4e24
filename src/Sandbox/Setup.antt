-- ===== src/Sandbox/Setup.antt =====
-- `setup_sandbox` and `setup_gpu_access` of src/sandbox.cpp: what the child process is like when it
-- runs the script. Which system calls succeed is a parameter.
use sandrun.Common.{
  ℕ, ◌+◌, bytes_eq, ◌*◌, ◌/◌, Bool, true, false, not, ◌≡◌, refl, List, [], ◌∷◌, ◌++◌, Option, none,
  some, Bytes, codes, if◌then◌else◌, select, contains, bytes_key,
}
use sandrun.Common.Decimal.{ℤ, to_string, int_to_string}
use sandrun.Sandbox.{SandboxConfig, tmpfs_size_limit, max_processes_per_job, interpreter_path}
use sandrun.Sandbox.Seccomp.{setup_seccomp, permits, allowed, gpu_syscalls, rules}

-- Which calls succeed, and which paths exist.
pub record Kernel : Type 0 where
  pub unshares : Bool
  pub mounts_tmpfs : Bool
  pub enters_directory : Bool
  pub inits_seccomp : Bool
  pub loads_seccomp : Bool
  pub exists : Bytes → Bool

-- What the GPU's part adds.
pub record Gpu : Type 0 where
  pub devices : List Bytes
  pub libraries : List Bytes
  pub variables : List (Bytes × Bytes)
  pub command : Bytes

pub record Child : Type 0 where
  pub namespaces : Bool
  pub tmpfs : Option Bytes
  pub gpu : Option Gpu
  pub no_new_privs : Bool
  pub filter : Option (List Bytes)
  pub address_space : ℕ
  pub cpu_soft : ℕ
  pub cpu_hard : ℕ
  pub core_size : ℕ
  pub processes : ℕ
  pub warnings : Bytes

unfoldable pub nvidia_devices : ℤ → List Bytes
nvidia_devices gpu_device_id =
    (codes "/dev/nvidia" ++ int_to_string gpu_device_id)
    ∷ codes "/dev/nvidiactl"
    ∷ codes "/dev/nvidia-uvm"
    ∷ codes "/dev/nvidia-uvm-tools"
    ∷ codes "/dev/nvidia-modeset"
    ∷ []

unfoldable pub cuda_paths : List Bytes
cuda_paths =
    codes "/usr/local/cuda"
    ∷ codes "/usr/lib/x86_64-linux-gnu/libcuda.so"
    ∷ codes "/usr/lib/x86_64-linux-gnu/libnvidia-ml.so"
    ∷ codes "/usr/lib/x86_64-linux-gnu/libcudnn.so"
    ∷ []

-- The devices and libraries that exist are mounted in the working directory, by their paths without
-- the leading slash; failures are ignored.
unfoldable pub setup_gpu_access : SandboxConfig → Kernel → Gpu
unfolding nvidia_devices cuda_paths
setup_gpu_access config kernel = record {
  devices = select kernel.exists (nvidia_devices config.gpu_device_id);
  libraries = select kernel.exists cuda_paths;
  variables =
      (codes "CUDA_VISIBLE_DEVICES", int_to_string config.gpu_device_id)
      ∷ (codes "CUDA_DEVICE_ORDER", codes "PCI_BUS_ID")
      ∷ [];
  command =
      codes "nvidia-smi -i "
      ++ (int_to_string config.gpu_device_id
          ++ (codes " -pl "
              ++ (to_string (config.gpu_memory_limit_bytes / (1024 * 1024))
                  ++ codes " 2>/dev/null")));
}

-- The file system of the working directory, and the warning.
unfoldable pub mount_work_dir : Kernel → Option Bytes × Bytes
mount_work_dir kernel =
    if not kernel.unshares
    then (none, codes "Warning: Failed to create namespaces\n")
    else if not kernel.mounts_tmpfs
    then (none, codes "Warning: Failed to mount tmpfs\n")
    else (some (codes "size=" ++ to_string tmpfs_size_limit), [])

-- The child that runs the script.
unfoldable pub child_of : SandboxConfig → Kernel → Child
unfolding setup_gpu_access
child_of config kernel = record {
  namespaces = kernel.unshares;
  tmpfs = (mount_work_dir kernel).0;
  gpu = if config.gpu_enabled then some (setup_gpu_access config kernel) else none;
  no_new_privs = true;
  filter = (setup_seccomp kernel.inits_seccomp kernel.loads_seccomp config.gpu_enabled).0;
  address_space = config.memory_limit_bytes;
  cpu_soft = config.cpu_quota_us / 1_000_000;
  cpu_hard = config.cpu_quota_us / 1_000_000 + 1;
  core_size = 0;
  processes = max_processes_per_job;
  warnings =
      (mount_work_dir kernel).1
      ++ (setup_seccomp kernel.inits_seccomp kernel.loads_seccomp config.gpu_enabled).1;
}

-- None where the child ends because it cannot enter the working directory.
unfoldable pub setup_sandbox : SandboxConfig → Kernel → Option Child
unfolding child_of
setup_sandbox config kernel =
    if not kernel.enters_directory then none else some (child_of config kernel)

-- What `execl` is called with, in the child: the program, its name and the script.
unfoldable pub child_command : SandboxConfig → Bytes → Bytes × Bytes × Bytes
unfolding interpreter_path
child_command config script_path =
    (interpreter_path config.interpreter, config.interpreter, script_path)

-- No filter forbids the calls that open a connection.
permits-socket :
    (inits loads gpu : Bool)
    → (permits (setup_seccomp inits loads gpu).0 (codes "socket") ≡ true)
      × (permits (setup_seccomp inits loads gpu).0 (codes "connect") ≡ true)
unfolding setup_seccomp rules permits contains bytes_eq allowed gpu_syscalls
permits-socket false loads gpu = (refl, refl)
permits-socket true false gpu = (refl, refl)
permits-socket true true false = (refl, refl)
permits-socket true true true = (refl, refl)

-- Where no namespaces can be made, the job still runs if its directory can be entered: on the
-- host's network, whose calls `socket` and `connect` no filter forbids, whatever allow_network is.
pub setup_sandbox-open :
    (config : SandboxConfig) (kernel : Kernel)
    → kernel.unshares ≡ false
    → kernel.enters_directory ≡ true
    → (child : Child) × (setup_sandbox config kernel ≡ some child)
      × (child.namespaces ≡ false)
      × (permits child.filter (codes "socket") ≡ true)
      × (permits child.filter (codes "connect") ≡ true)
unfolding setup_sandbox child_of
setup_sandbox-open config kernel closed enters = (
  child_of config kernel,
  rw enters refl,
  closed,
  (permits-socket kernel.inits_seccomp kernel.loads_seccomp config.gpu_enabled).0,
  (permits-socket kernel.inits_seccomp kernel.loads_seccomp config.gpu_enabled).1,
)

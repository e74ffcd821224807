-- ===== src/Sandbox/Process/Command.antt =====
-- worker/sandbox/process_sandbox.py: `_adapt_compile_command_for_platform`. Where `rustc` and `go`
-- stand, when they are not on the path, comes from the file system and is an argument.
use secure_remote_code_execu.Prelude.{
  Bool, true, false, Option, none, some, ◌||◌, ◌≡◌, refl, Bool-cases, inl, inr, List, [], ◌∷◌, All,
  ◌==◌, list_eq, nat_eq, if◌then◌else◌,
}
use secure_remote_code_execu.Prelude.Texts.{Text, codes}

pub record Platform : Type 0 where
  pub is_windows : Bool
  -- the file of the compiler, if it is not on the path and there is one
  pub cargo_rustc : Option Text
  pub go_candidate : Option Text

abbrev pub binary_name : Platform → Text
binary_name p = if p.is_windows then codes "solution.exe" else codes "solution"

-- `arg in ["-pie", "-fPIE", "-Wl,-z,relro,-z,now"]`
abbrev pub is_dropped : Text → Bool
is_dropped arg =
    (arg == codes "-pie") || ((arg == codes "-fPIE") || (arg == codes "-Wl,-z,relro,-z,now"))

-- The loop over the arguments; the first argument is `skip_next`.
unfoldable pub filter_arguments : Bool → List Text → List Text
filter_arguments skip_next [] = []
filter_arguments true (arg ∷ args) = filter_arguments false args
filter_arguments false (arg ∷ args) =
    let rest = filter_arguments false args in
    let skipped = filter_arguments true args in
    if arg == codes "-std=c17"
    then codes "-std=c11" ∷ rest
    else if arg == codes "-std=c++20"
    then codes "-std=c++14" ∷ rest
    else if is_dropped arg
    then rest
    else if arg == codes "-z"
    then skipped
    else arg ∷ rest

-- `if filtered and filtered[0] == name and not shutil.which(name): ... filtered[0] = path`
abbrev pub relocate : Text → Option Text → List Text → List Text
relocate name none args = args
relocate name (some path) [] = []
relocate name (some path) (arg ∷ args) = if arg == name then path ∷ args else arg ∷ args

unfoldable pub adapt_compile_command_for_platform : Platform → List Text → List Text
adapt_compile_command_for_platform p cmd =
    let filtered = filter_arguments false cmd in
    if p.is_windows
    then relocate (codes "go") p.go_candidate (relocate (codes "rustc") p.cargo_rustc filtered)
    else cmd

abbrev pub IsKept : Text → Type 0
IsKept arg = (is_dropped arg ≡ false) × ((arg == codes "-z") ≡ false)

filter_arguments-IsKept :
    (skip_next : Bool) (args : List Text) → All IsKept (filter_arguments skip_next args)
unfolding filter_arguments
filter_arguments-IsKept skip_next [] = tt
filter_arguments-IsKept true (arg ∷ args) = filter_arguments-IsKept false args
filter_arguments-IsKept false (arg ∷ args) =
    let rest : All IsKept (filter_arguments false args) = filter_arguments-IsKept false args in
    elim (Bool-cases (arg == codes "-std=c17")) [
      | inl a ↦ rw (a) ((refl, refl), rest)
      | inr a ↦ rw (a) (elim (Bool-cases (arg == codes "-std=c++20")) [
        | inl b ↦ rw (b) ((refl, refl), rest)
        | inr b ↦ rw (b) (elim (Bool-cases (is_dropped arg)) [
          | inl c ↦ rw (c) rest
          | inr c ↦ rw (c) (elim (Bool-cases (arg == codes "-z")) [
            | inl d ↦ rw (d) (filter_arguments-IsKept true args)
            | inr d ↦ rw (d) ((c, d), rest)
          ])
        ])
      ])
    ]

-- On Windows, where the compilers are on the path: no argument of the compile command is one that
-- the linker or the compiler there rejects (`-pie`, `-fPIE`, `-Wl,-z,relro,-z,now` and `-z`).
pub adapt_compile_command_for_platform-IsKept :
    (cmd : List Text)
    → All IsKept (
        adapt_compile_command_for_platform
          (record { is_windows = true; cargo_rustc = none; go_candidate = none })
          cmd)
unfolding adapt_compile_command_for_platform
adapt_compile_command_for_platform-IsKept cmd = filter_arguments-IsKept false cmd

-- ===== src/Sandbox/MicroVm/Tests.antt =====
-- A failing program in a small guest, and the theorem of the micro VM sandbox at it.
use secure_remote_code_execu.Prelude.{◌≡◌, refl, true, false, some, List, [], ◌∷◌, ◌++◌, ok}
use secure_remote_code_execu.Prelude.Texts.{codes, show_nat}
use secure_remote_code_execu.Prelude.Int.{pos}
use secure_remote_code_execu.Sandbox.Models.{
  completed, runtime_error, complete, ExecutionResult, StreamChunk,
}
use secure_remote_code_execu.Sandbox.Polyglot.Strategies.{python_strategy}
use secure_remote_code_execu.Sandbox.Process.Samples.{request}
use secure_remote_code_execu.Sandbox.Process.Stream.{chunk_of}
use secure_remote_code_execu.Sandbox.MicroVm.{
  compiler_raised, guest_exited, Guest, outcome_json, initial_notice, microvm_stream_execute,
  microvm_execute,
}
use secure_remote_code_execu.Sandbox.MicroVm.Agrees.{IsPlain, microvm_execute-failed}

abbrev guest : Guest
guest = record {
  probes = record {
    is_linux = true;
    kvm_exists = true;
    kvm_accessible = true;
    firecracker_found = false;
  };
  vcpus = 1;
  mem_size_mib = 128;
  is_windows = false;
  in_directory = λ name. name;
  compile = λ command. compiler_raised [];
  run = λ command input ms. guest_exited (pos 1) (codes "4") (codes "Traceback");
  elapsed_ms = 20;
}

guest-IsPlain : IsPlain (initial_notice guest)
unfolding show_nat
guest-IsPlain = (refl, refl, refl)

microvm_execute-failed_example :
    (front : List StreamChunk) × (x : ExecutionResult) × (microvm_stream_execute [] guest request
        (ok (python_strategy (codes "python3")))
      ≡ ok (
          front
          ++ chunk_of [] complete (
              outcome_json runtime_error (pos 1)
              ++ (codes ", \"duration_ms\": " ++ (show_nat 20 ++ codes "}")))
            ∷ []))
    × (microvm_execute [] guest request (ok (python_strategy (codes "python3"))) ≡ ok x)
    × (x.status ≡ completed)
    × (x.exit_code ≡ some (pos 0))
microvm_execute-failed_example =
    microvm_execute-failed [] guest request (python_strategy (codes "python3")) (pos 1) (codes "4")
      (codes "Traceback") refl refl refl guest-IsPlain

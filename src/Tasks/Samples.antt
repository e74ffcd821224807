-- ===== src/Tasks/Samples.antt =====
-- A codec for the final report, which writes lengths, and one for the frames of a client.
use secure_remote_code_execu.Prelude.{
  ℕ, zero, suc, ◌≡◌, refl, Bool, true, false, Option, none, some, list_eq, nat_eq, [], ◌∷◌, ◌++◌,
  length, take, drop,
}
use secure_remote_code_execu.Prelude.Texts.{Text, codes}
use secure_remote_code_execu.Prelude.Int.{ℤ, pos, negsuc}
use secure_remote_code_execu.Sandbox.Process.Stream.{Report}
use secure_remote_code_execu.Streaming.Samples.{take-append, drop-append}
use secure_remote_code_execu.Tasks.Reports.{ReportCodec}
use secure_remote_code_execu.Streaming.Replay.{ClientText, object, undecodable}
use secure_remote_code_execu.Tasks.Inputs.{InputFrame}
use secure_remote_code_execu.Tasks.Inputs.Typed.{InputCodec}

abbrev pub write_code : Option ℤ → Text
write_code none = 0 ∷ 0 ∷ []
write_code (some (pos n)) = 1 ∷ n ∷ []
write_code (some (negsuc n)) = 2 ∷ n ∷ []

abbrev pub exit_code_of : ℕ → ℕ → Option ℤ
exit_code_of zero n = none
exit_code_of (suc zero) n = some (pos n)
exit_code_of _ n = some (negsuc n)

abbrev pub write_flag : Bool → ℕ
write_flag false = 0
write_flag true = 1

abbrev pub flag_of : ℕ → Bool
flag_of zero = false
flag_of (suc n) = true

abbrev pub write_rest : Option Text → Text
write_rest none = []
write_rest (some t) = 0 ∷ t

abbrev pub rest_of : Text → Option Text
rest_of [] = none
rest_of (x ∷ t) = some t

abbrev pub write : Report → Text
write r =
    write_code r.exit_code
    ++ (r.duration_ms
        ∷ (write_flag r.oom_killed
            ∷ (length r.outcome ∷ (r.outcome ++ write_rest r.compile_output))))

abbrev pub read : Text → Option Report
read (k ∷ (n ∷ (ms ∷ (oom ∷ (len ∷ t))))) = some (record {
  outcome = take len t;
  exit_code = exit_code_of k n;
  duration_ms = ms;
  oom_killed = flag_of oom;
  compile_output = rest_of (drop len t);
})
read _ = none

flag_of-write_flag : (b : Bool) → flag_of (write_flag b) ≡ b
flag_of-write_flag true = refl
flag_of-write_flag false = refl

rest_of-write_rest : (o : Option Text) → rest_of (write_rest o) ≡ o
rest_of-write_rest none = refl
rest_of-write_rest (some t) = refl

pub read-fields :
    (code : Option ℤ) (ms : ℕ) (oom : Bool) (t : Text) (out : Option Text)
    → read (
        write (record {
          outcome = t;
          exit_code = code;
          duration_ms = ms;
          oom_killed = oom;
          compile_output = out;
        }))
      ≡ some (record {
        outcome = t;
        exit_code = code;
        duration_ms = ms;
        oom_killed = oom;
        compile_output = out;
      })
read-fields none ms oom t out =
    rw
      (
        take-append t (write_rest out),
        drop-append t (write_rest out),
        flag_of-write_flag oom,
        rest_of-write_rest out,
      )
      refl
read-fields (some (pos n)) ms oom t out =
    rw
      (
        take-append t (write_rest out),
        drop-append t (write_rest out),
        flag_of-write_flag oom,
        rest_of-write_rest out,
      )
      refl
read-fields (some (negsuc n)) ms oom t out =
    rw
      (
        take-append t (write_rest out),
        drop-append t (write_rest out),
        flag_of-write_flag oom,
        rest_of-write_rest out,
      )
      refl

abbrev pub reports : ReportCodec
reports = record {
  dumps = write;
  loads = read;
  loads-dumps = λ r. read-fields r.exit_code r.duration_ms r.oom_killed r.outcome r.compile_output;
}

-- A client's text: 0 begins a frame for the terminal, 1 a frame without a type.
abbrev pub parse_client : Text → ClientText
parse_client (zero ∷ t) = object (some (codes "stdin"))
parse_client (suc zero ∷ t) = object none
parse_client _ = undecodable

abbrev pub wrap_stdin : Text → Text
wrap_stdin t = 0 ∷ t

abbrev pub frame_of : Option Text → Text → InputFrame
frame_of kind t = record {
  frame_type = kind;
  data_text = t;
  cols = none;
  rows = none;
  signal_name = [];
}

abbrev pub load_input : Text → Option InputFrame
load_input (zero ∷ t) = some (frame_of (some (codes "stdin")) t)
load_input (suc zero ∷ t) = some (frame_of none t)
load_input _ = none

type_of-load_input :
    (t : Text) (k : Option Text)
    → parse_client t ≡ object k
    → (f : InputFrame) × (load_input t ≡ some f) × (f.frame_type ≡ k)
type_of-load_input [] k e = absurd (cc e)
type_of-load_input (zero ∷ t) k e = (frame_of (some (codes "stdin")) t, refl, cc e)
type_of-load_input (suc zero ∷ t) k e = (frame_of none t, refl, cc e)
type_of-load_input (suc (suc n) ∷ t) k e = absurd (cc e)

pub inputs-InputCodec : InputCodec parse_client wrap_stdin load_input
inputs-InputCodec = record {
  type_of = type_of-load_input;
  wrapped = λ t. (frame_of (some (codes "stdin")) t, refl, refl, refl);
  wrap_stdin-is_truthy = λ t. refl;
}

-- ===== src/Sandbox/Pty/Tests.antt =====
-- Runs of a session on a small system, and witnesses.
use secure_remote_code_execu.Prelude.{true, false, ◌≡◌, refl, some, [], ◌∷◌, ok}
use secure_remote_code_execu.Prelude.Int.{pos, negsuc}
use secure_remote_code_execu.Prelude.Texts.{codes}
use secure_remote_code_execu.Utf8.{encode}
use secure_remote_code_execu.Sandbox.Pty.{
  new_session, pack_winsize, open_session, set_window_size, write_input, with_session, close, ◌>>◌,
}
use secure_remote_code_execu.Sandbox.Pty.Descriptors.{resize, keys, read, signal, shut, perform_all}
use secure_remote_code_execu.Sandbox.Pty.Opening.{with_session-restores}
use secure_remote_code_execu.Sandbox.Pty.Samples.{small_system, small_system-laws}

winsize-24-80 : pack_winsize (pos 24) (pos 80) ≡ ok (24 ∷ 0 ∷ 80 ∷ 0 ∷ 0 ∷ 0 ∷ 0 ∷ 0 ∷ [])
winsize-24-80 = refl

-- The descriptors 1 and 2 are open before.
open_session-new : open_session true small_system (new_session (pos 80) (pos 24), 1 ∷ 2 ∷ []) ≡ (
  ok (some 4, some 5),
  (
    record (new_session (pos 80) (pos 24)) {
      master_fd = some 4;
      slave_fd = some 5;
      is_open = true;
    },
    4 ∷ 5 ∷ 1 ∷ 2 ∷ [],
  ),
)
unfolding open_session
open_session-new = refl

-- A pipe stands in for the terminal on other platforms.
write_input-windows :
    (write_input false small_system
      (codes "ls")
      (record (new_session (pos 80) (pos 24)) { is_open = true }, [])).1.0.input_queue
    ≡ encode (codes "ls") ∷ []
unfolding write_input
write_input-windows = refl

set_window_size-small :
    (set_window_size false small_system (negsuc 4) (pos 2) (new_session (pos 80) (pos 24), [])).1.0
    ≡ new_session (pos 10) (pos 4)
unfolding set_window_size
set_window_size-small = refl

with_session-restores_example :
    small_system.holds
      (with_session true small_system
        (perform_all true small_system
          (resize (pos 120) (pos 40) ∷ keys (codes "ls") ∷ read 4096 ∷ signal 2 ∷ shut ∷ []))
        (new_session (pos 80) (pos 24), 1 ∷ 2 ∷ [])).1.1
      4
    ≡ small_system.holds (1 ∷ 2 ∷ []) 4
with_session-restores_example =
    with_session-restores true small_system small_system-laws (new_session (pos 80) (pos 24))
      (1 ∷ 2 ∷ [])
      (resize (pos 120) (pos 40) ∷ keys (codes "ls") ∷ read 4096 ∷ signal 2 ∷ shut ∷ []) refl refl 4

-- A session that is opened twice gives back the second pair only.
open_session-twice :
    ((open_session true small_system >> (open_session true small_system >> close true small_system))
      (new_session (pos 80) (pos 24), 1 ∷ 2 ∷ [])).1.1
    ≡ 4 ∷ 5 ∷ 1 ∷ 2 ∷ []
unfolding open_session
open_session-twice = refl

-- ===== src/Sandbox/Pty/Opening.antt =====
-- worker/sandbox/pty_session.py: `open`, and a `with` block of a session.
use mathlib.Core.Path.{subst}
use secure_remote_code_execu.Prelude.{
  ℕ, Bool, true, false, ◌≡◌, refl, ◌∙◌, ap, ap₂, none, some, List, [], ◌∷◌, Result, ok, err, nat_eq,
  arith,
}
use secure_remote_code_execu.Sandbox.Terminal.{Raised, System, SystemLaws}
use secure_remote_code_execu.Sandbox.Pty.{
  PtySession, PtyState, Op, Fds, continue_with, give, set_window_size, configure, close, set_up,
  allocate, after_try, open_on, open_session, leave_with, read_output, send_signal, with_session,
}
use secure_remote_code_execu.Sandbox.Pty.Descriptors.{
  Owns, Sound, Keeps, >>=-Keeps, set_window_size-Keeps, configure-Keeps, write_bytes-Keeps,
  read_output-Keeps, send_signal-Keeps, Call, resize, keys, read, signal, shut, perform,
  perform_all,
}
use secure_remote_code_execu.Sandbox.Pty.Release.{Released, close-Released, close-Keeps, none-Owns}

-- What the body of the `try` in `open` comes to.
data Tried (posix : Bool) (s : System) (base : ℕ → Bool)
    : Result Raised Fds × PtyState s.World → Type 0 where
  done :
      (st : PtyState s.World)
      → (st.0).is_open ≡ true
      → Sound posix s base st
      → Tried posix s base (ok ((st.0).master_fd, (st.0).slave_fd), st)
  failed :
      (e : Raised) (st : PtyState s.World) → Sound posix s base st → Tried posix s base (err e, st)

-- `open` returned what the session holds, which is open, or it raised and holds nothing.
pub data Opened (posix : Bool) (s : System) (base : ℕ → Bool)
    : Result Raised Fds × PtyState s.World → Type 0 where
  opened :
      (st : PtyState s.World)
      → (st.0).is_open ≡ true
      → Sound posix s base st
      → Opened posix s base (ok ((st.0).master_fd, (st.0).slave_fd), st)
  raised :
      (e : Raised) (st : PtyState s.World) → Released s base st → Opened posix s base (err e, st)

module _ (posix : Bool) (s : System) (base : ℕ → Bool) where
  continue_with-Tried :
      {A : Type 0} (r : Result Raised A × PtyState s.World) (f : A → Op s.World Fds)
      → Sound posix s base r.1
      → ((a : A) (st : PtyState s.World) → Sound posix s base st → Tried posix s base (f a st))
      → Tried posix s base (continue_with r f)
  continue_with-Tried (ok a, st) f sound next = next a st sound
  continue_with-Tried (err e, st) f sound next = failed e st sound

  raise_after :
      (e : Raised) (r : Result Raised (Unit {0}) × PtyState s.World)
      → r.0 ≡ ok tt
      → Released s base r.1
      → Opened posix s base (continue_with r (λ _. give (err e)))
  raise_after e (ok u, st) eq free = raised e st free
  raise_after e (err e', st) eq free = absurd (cc eq)

module _ (posix : Bool) (s : System) (laws : SystemLaws s) where
  Owns-openpty :
      (w : s.World) (m l : ℕ)
      → (s.openpty w).0 ≡ ok (m, l)
      → Owns (s.holds w) (some m) (some l) (s.holds (s.openpty w).1)
  Owns-openpty w m l e = record {
    same = λ x. laws.holds-openpty w m l x e;
    master_apart = λ x held. ground (arith, laws.openpty-fresh w m l e);
    slave_apart = λ x held. ground (arith, laws.openpty-fresh w m l e);
  }

  set_up-Tried :
      (base : ℕ → Bool) (m l : ℕ) (p : PtySession) (w : s.World)
      → posix ≡ true
      → Owns base (some m) (some l) (s.holds w)
      → Tried posix s base (set_up posix s m l (p, w))
  unfolding set_up
  set_up-Tried base m l p w on o =
      let sized = record p { master_fd = some m; slave_fd = some l } in
      continue_with-Tried posix s base (set_window_size posix s p.cols p.rows (sized, w)) _
        (set_window_size-Keeps posix s laws base p.cols p.rows (sized, w)
          (record { owns = o; plain = λ off. cc }))
        λ _ st sound.
          continue_with-Tried posix s base (configure posix s m l st) _
            (configure-Keeps posix s laws base m l st sound)
            λ _ st' sound'. done _ refl (record { owns = sound'.owns; plain = sound'.plain })

  tried :
      (p : PtySession) (w : s.World) (r : Result Raised (ℕ × ℕ))
      → posix ≡ true
      → p.master_fd ≡ none
      → p.slave_fd ≡ none
      → (s.openpty w).0 ≡ r
      → Tried posix s
          (s.holds w)
          (continue_with (r, (p, (s.openpty w).1)) (λ pair. set_up posix s pair.0 pair.1))
  tried p w (ok (m, l)) on hm hl e =
      set_up-Tried (s.holds w) m l p (s.openpty w).1 on (Owns-openpty w m l e)
  tried p w (err x) on hm hl e = failed x _ (record {
    owns =
        none-Owns (s.holds w) p.master_fd p.slave_fd _ hm hl
          (λ fd. laws.holds-openpty_raises w x fd e);
    plain = λ off. cc;
  })

  after_try-Opened :
      (base : ℕ → Bool) (r : Result Raised Fds × PtyState s.World)
      → Tried posix s base r
      → Opened posix s base (after_try posix s r)
  after_try-Opened base _ (done st on sound) = opened st on sound
  after_try-Opened base _ (failed e st sound) =
      let closed = close-Released s laws posix base st sound in
      raise_after posix s base e (close posix s st) closed.0 closed.1

  open_on-Opened :
      (on : Bool) (p : PtySession) (w : s.World)
      → posix ≡ on
      → p.master_fd ≡ none
      → p.slave_fd ≡ none
      → Opened posix s (s.holds w) (open_on posix s on (p, w))
  unfolding allocate
  open_on-Opened false p w e hm hl =
      subst (λ z. Opened posix s (s.holds w) (ok z, (record p { is_open = true }, w)))
        (ap₂ (λ a b. (a, b)) hm hl)
        (opened (record p { is_open = true }, w) refl
          (record {
            owns = none-Owns (s.holds w) p.master_fd p.slave_fd (s.holds w) hm hl (λ fd. refl);
            plain = λ off. (hm, hl);
          }))
  open_on-Opened true p w e hm hl =
      after_try-Opened (s.holds w) _ (tried p w (s.openpty w).0 e hm hl refl)

  -- ~Opening a session that holds nothing
  pub open_session-Opened :
      (p : PtySession) (w : s.World)
      → p.master_fd ≡ none
      → p.slave_fd ≡ none
      → Opened posix s (s.holds w) (open_session posix s (p, w))
  unfolding open_session
  open_session-Opened p w hm hl = open_on-Opened posix p w refl hm hl

  same_end :
      {A : Type 0} (r : Result Raised A) (q : Result Raised (Unit {0}) × PtyState s.World)
      → q.0 ≡ ok tt
      → continue_with q (λ _ st. (r, st)) ≡ (r, q.1)
  same_end r (ok u, st) e = refl
  same_end r (err x, st) e = absurd (cc e)

  holds-leave_with :
      {A : Type 0} (base : ℕ → Bool) (r : Result Raised A × PtyState s.World)
      → Sound posix s base r.1
      → (x : ℕ) → s.holds (leave_with posix s r).1.1 x ≡ base x
  holds-leave_with base (r, st) sound x =
      let closed = close-Released s laws posix base st sound in
      ap (λ z. s.holds z.1.1 x) (same_end r (close posix s st) closed.0) ∙ closed.1.holds_base x

  body_and_close :
      {A : Type 0} (base : ℕ → Bool) (body : Op s.World A)
      (r : Result Raised Fds × PtyState s.World)
      → Keeps posix s base body
      → Opened posix s base r
      → (x : ℕ) → s.holds (continue_with r (λ _ st. leave_with posix s (body st))).1.1 x ≡ base x
  body_and_close base body _ keep (opened st on sound) x =
      holds-leave_with base (body st) (keep st sound) x
  body_and_close base body _ keep (raised e st free) x = free.holds_base x

  perform-Keeps : (base : ℕ → Bool) (c : Call) → Keeps posix s base (perform posix s c)
  unfolding perform
  perform-Keeps base (resize c r) =
      >>=-Keeps posix s base (set_window_size posix s c r) _
        (set_window_size-Keeps posix s laws base c r) (λ a st sound. sound)
  perform-Keeps base (keys b) = write_bytes-Keeps posix s laws base b
  perform-Keeps base (read n) =
      >>=-Keeps posix s base (read_output posix s n) _ (read_output-Keeps posix s laws base n)
        (λ a st sound. sound)
  perform-Keeps base (signal sig) =
      >>=-Keeps posix s base (send_signal posix s sig) _ (send_signal-Keeps posix s laws base sig)
        (λ a st sound. sound)
  perform-Keeps base shut = close-Keeps s laws posix base

  perform_all-Keeps :
      (base : ℕ → Bool) (calls : List Call) → Keeps posix s base (perform_all posix s calls)
  unfolding perform_all
  perform_all-Keeps base [] = λ st sound. sound
  perform_all-Keeps base (c ∷ calls) =
      >>=-Keeps posix s base (perform posix s c) _ (perform-Keeps base c)
        (λ _. perform_all-Keeps base calls)

  -- For a system that does what it is documented to do, and a session that holds no descriptor:
  -- after `with session:` around any calls of its methods but `open`, also if `open` or a call
  -- raises, exactly the descriptors are open that were open before.
  pub with_session-restores :
      (p : PtySession) (w : s.World) (calls : List Call)
      → p.master_fd ≡ none
      → p.slave_fd ≡ none
      → (x : ℕ)
      → s.holds (with_session posix s (perform_all posix s calls) (p, w)).1.1 x ≡ s.holds w x
  unfolding with_session
  with_session-restores p w calls hm hl x =
      body_and_close (s.holds w) (perform_all posix s calls) (open_session posix s (p, w))
        (perform_all-Keeps (s.holds w) calls) (open_session-Opened p w hm hl) x

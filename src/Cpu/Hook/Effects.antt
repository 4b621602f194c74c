-- ===== src/Cpu/Hook/Effects.antt =====
-- What each syscall of stage 1 does to the guest and its owner, through the hook.
use win_vpwn.Base.{
  ℕ, ℤ, ◌≤◌, ◌-◌, ◌%◌, ◌^◌, pos, List, [], ◌∷◌, ◌++◌, true, false, ◌||◌, Option, none, some, Text,
  Outcome, ok, error, signed64, if◌then◌else◌, ◌≡◌, ◌⊎◌, inl, inr, refl, ap, ◌∙◌, sym, arith, eq_ℤ,
  isize_max, append-nil, codes,
}
use win_vpwn.Trace.{SyscallOutcome, TraceSink, Buffers}
use win_vpwn.Vkernel.{Context}
use win_vpwn.Vkernel.Capture
use win_vpwn.Vkernel.Capture.{OutputCapture, empty_capture, combined}
use win_vpwn.Vkernel.Process.{ExitReason}
use win_vpwn.Vkernel.Guest.{GuestMemError}
use win_vpwn.Syscall.Errno.{err, enosys, ebadf}
use win_vpwn.Syscall.Dispatch.{
  SyscallRegs, DispatchError, engine, Dispatch, dispatch, dispatch_error_text, get, trace_outcome,
}
use win_vpwn.Syscall.Dispatch.Tracing.{dispatch_handled, dispatch_failed, dispatch_missing}
use win_vpwn.Syscall.Handlers.{handle_exit, write_handler, exit_handler, exit_group_handler}
use win_vpwn.Syscall.Handlers.Stage1.{
  stage1, get-stage1, handle_write-ok, handle_write-ebadf, handle_write-unreadable,
}
use win_vpwn.Cpu.Engine.{Unicorn, unicorn_guest, guest_read}
use win_vpwn.Cpu.Vcpu.{SharedState}
use win_vpwn.Cpu.Hook.{HookState, read_regs, hook_context, extend_output, settle, syscall_hook}

-- One write into a fresh capture, combined.
combined-write :
    (fd : ℤ) (bytes : List ℕ)
    → (eq_ℤ fd (pos 1) || eq_ℤ fd (pos 2)) ≡ true
    → combined (Capture.write empty_capture fd bytes) ≡ bytes
unfolding combined Capture.write
combined-write fd bytes h = ground (arith, append-nil bytes)

pub extend_output_lem :
    (shared : SharedState) (bytes : List ℕ)
    → extend_output shared bytes ≡ record shared { output = shared.output ++ bytes }
extend_output_lem shared [] =
    ap (λ o. record shared { output = o }) (sym (append-nil shared.output))
extend_output_lem shared (b ∷ bs) = refl

module _ (u : Unicorn) (trace : Option TraceSink) (h : HookState u) where
  abbrev pub regs : SyscallRegs
  regs = read_regs u h.engine

  abbrev pub fd : ℤ
  fd = signed64 regs.arg0

  abbrev pub stage1_dispatch : Dispatch u.State
  stage1_dispatch = stage1 (unicorn_guest u) trace

  pub hook_settles :
      (outcome : Outcome DispatchError SyscallOutcome) (ctx : Context u.State) (bufs : Buffers)
      → dispatch stage1_dispatch h.bufs (hook_context u h.engine) regs ≡ (outcome, ctx, bufs)
      → syscall_hook u stage1_dispatch h
        ≡ settle u outcome (record {
          engine = ctx.mem;
          shared = extend_output h.shared (combined ctx.io);
          bufs = bufs;
        })
  unfolding syscall_hook
  hook_settles outcome ctx bufs e = rw (e, syscall_hook)

  -- What the trace holds after a syscall with this name and outcome.
  abbrev pub traced : Text → SyscallOutcome → Buffers
  traced name outcome = trace_outcome trace h.bufs name regs outcome

  no_output : extend_output h.shared (combined empty_capture) ≡ h.shared
  unfolding combined
  no_output = refl

  -- A `write` of a readable buffer to descriptor 1 or 2 appends exactly the bytes of the buffer to
  -- the captured output, puts their number into RAX and is traced; nothing else changes.
  pub hook-write :
      (bytes : List ℕ)
      → regs.syscall_nr ≡ pos 1
      → (eq_ℤ fd (pos 1) || eq_ℤ fd (pos 2)) ≡ true
      → guest_read u h.engine regs.arg1 regs.arg2 ≡ ok bytes
      → regs.arg2 ≤ isize_max
      → syscall_hook u stage1_dispatch h
        ≡ ok (record {
          engine = (u.reg_write h.engine u.rax regs.arg2).1;
          shared = record h.shared { output = h.shared.output ++ bytes };
          bufs = traced (codes "write") (SyscallOutcome.return (pos regs.arg2));
        })
  unfolding settle
  hook-write bytes nr out readable fits =
      let handled =
        handle_write-ok (unicorn_guest u) (hook_context u h.engine) regs bytes out readable fits in
      let found : get stage1_dispatch regs.syscall_nr ≡ some (write_handler (unicorn_guest u)) =
        get-stage1 (unicorn_guest u) trace regs.syscall_nr ∙ rw nr refl in
      let dispatched =
        dispatch_handled stage1_dispatch h.bufs (hook_context u h.engine) regs _ _ _ found
          handled in
      let count : regs.arg2 % 2 ^ 64 ≡ regs.arg2 = omega arith in
      hook_settles _ _ _ dispatched
      ∙ rw (combined-write fd bytes out, extend_output_lem h.shared bytes, settle, count)

  -- A `write` to any other descriptor puts -EBADF into RAX, and captures nothing.
  pub hook-write_ebadf :
      regs.syscall_nr ≡ pos 1
      → (eq_ℤ fd (pos 1) || eq_ℤ fd (pos 2)) ≡ false
      → syscall_hook u stage1_dispatch h
        ≡ ok (record h {
          engine = (u.reg_write h.engine u.rax (2 ^ 64 - 9)).1;
          bufs = traced (codes "write") (SyscallOutcome.return (err ebadf));
        })
  unfolding settle
  hook-write_ebadf nr out =
      let handled = handle_write-ebadf (unicorn_guest u) (hook_context u h.engine) regs out in
      let found : get stage1_dispatch regs.syscall_nr ≡ some (write_handler (unicorn_guest u)) =
        get-stage1 (unicorn_guest u) trace regs.syscall_nr ∙ rw nr refl in
      let dispatched =
        dispatch_handled stage1_dispatch h.bufs (hook_context u h.engine) regs _ _ _ found
          handled in
      hook_settles _ _ _ dispatched ∙ rw (no_output, settle)

  -- A `write` of a buffer that cannot be read stops the guest with an engine error; it is not
  -- traced, and RAX is left as it was.
  pub hook-write_unreadable :
      (e : GuestMemError)
      → regs.syscall_nr ≡ pos 1
      → (eq_ℤ fd (pos 1) || eq_ℤ fd (pos 2)) ≡ true
      → guest_read u h.engine regs.arg1 regs.arg2 ≡ error e
      → syscall_hook u stage1_dispatch h
        ≡ ok (record h {
          engine = (u.emu_stop h.engine).1;
          shared = record h.shared {
            engine_error = some (dispatch_error_text (engine (codes "guest memory read failed")));
          };
        })
  unfolding settle
  hook-write_unreadable e nr out unreadable =
      let handled =
        handle_write-unreadable (unicorn_guest u) (hook_context u h.engine) regs e out unreadable in
      let found : get stage1_dispatch regs.syscall_nr ≡ some (write_handler (unicorn_guest u)) =
        get-stage1 (unicorn_guest u) trace regs.syscall_nr ∙ rw nr refl in
      let dispatched =
        dispatch_failed stage1_dispatch h.bufs (hook_context u h.engine) regs _ _ _ found handled in
      hook_settles _ _ _ dispatched ∙ rw (no_output, settle)

  -- A number that stage 1 does not implement puts -ENOSYS into RAX, and is traced.
  pub hook-unknown :
      (eq_ℤ (pos 1) regs.syscall_nr
          || eq_ℤ (pos 60) regs.syscall_nr
          || eq_ℤ (pos 231) regs.syscall_nr)
        ≡ false
      → syscall_hook u stage1_dispatch h
        ≡ ok (record h {
          engine = (u.reg_write h.engine u.rax (2 ^ 64 - 38)).1;
          bufs = traced (codes "<unimplemented>") (SyscallOutcome.return (err enosys));
        })
  unfolding settle
  hook-unknown none_of =
      let missing : get stage1_dispatch regs.syscall_nr ≡ none =
        get-stage1 (unicorn_guest u) trace regs.syscall_nr ∙ ground arith in
      let dispatched =
        dispatch_missing stage1_dispatch h.bufs (hook_context u h.engine) regs missing in
      hook_settles _ _ _ dispatched ∙ rw (no_output, settle)

  abbrev pub exit_name : Text
  exit_name = if eq_ℤ (pos 60) regs.syscall_nr then codes "exit" else codes "exit_group"

  -- `exit` and `exit_group` stop the guest, and leave the low byte of their argument as the reason.
  pub hook-exit :
      (regs.syscall_nr ≡ pos 60) ⊎ (regs.syscall_nr ≡ pos 231)
      → syscall_hook u stage1_dispatch h
        ≡ ok (record h {
          engine = (u.emu_stop h.engine).1;
          shared = record h.shared { exit_reason = some (ExitReason.exit (regs.arg0 % 256)) };
          bufs = traced exit_name (SyscallOutcome.exit (ExitReason.exit (regs.arg0 % 256)));
        })
  unfolding settle handle_exit
  hook-exit (inl nr) =
      let found : get stage1_dispatch regs.syscall_nr ≡ some exit_handler =
        get-stage1 (unicorn_guest u) trace regs.syscall_nr ∙ rw nr refl in
      let dispatched =
        dispatch_handled stage1_dispatch h.bufs (hook_context u h.engine) regs _ _ _ found refl in
      hook_settles _ _ _ dispatched ∙ rw (no_output, nr)
  hook-exit (inr nr) =
      let found : get stage1_dispatch regs.syscall_nr ≡ some exit_group_handler =
        get-stage1 (unicorn_guest u) trace regs.syscall_nr ∙ rw nr refl in
      let dispatched =
        dispatch_handled stage1_dispatch h.bufs (hook_context u h.engine) regs _ _ _ found refl in
      hook_settles _ _ _ dispatched ∙ rw (no_output, nr)

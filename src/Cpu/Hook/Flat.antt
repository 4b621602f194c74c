-- ===== src/Cpu/Hook/Flat.antt =====
-- The hook under stage 1 as one table: the dispatcher, the handlers and the capture composed away.
use win_vpwn.Base.{
  ℕ, ◌≤◌, ◌%◌, ◌^◌, ◌-◌, ℤ, pos, ◌++◌, List, Bool, true, Bool-cases, ◌||◌, Option, some, codes,
  Text, ◌≡◌, refl, sym, ◌∙◌, inl, inr, arith, Outcome, Outcome-cases, ok, error, panic, eq_ℤ,
  eq_ℤ_iff, if◌then◌else◌, ltb, isize_max,
}
use win_vpwn.Trace.{SyscallOutcome, TraceSink}
use win_vpwn.Vkernel.Process.{ExitReason}
use win_vpwn.Vkernel.Guest.{GuestMemError}
use win_vpwn.Syscall.Errno.{err, enosys, ebadf}
use win_vpwn.Syscall.Dispatch.{dispatch_error_text, engine}
use win_vpwn.Syscall.Handlers.Stage1.{stage1}
use win_vpwn.Cpu.Engine.{Unicorn, unicorn_guest, guest_read}
use win_vpwn.Cpu.Hook.{HookState, syscall_hook}
use win_vpwn.Cpu.Hook.Effects.{
  hook-write, hook-write_ebadf, hook-write_unreadable, hook-unknown, hook-exit, regs, fd, traced,
}
use win_vpwn.Cpu.Run.Panics.{hook-write_panic, guest_read-panic}

module _ (u : Unicorn) (trace : Option TraceSink) (h : HookState u) where
  -- A syscall that returns `ret`: RAX holds it, and the trace has it.
  abbrev pub returns : Text → SyscallOutcome → ℕ → HookState u
  returns name outcome rax = record h {
    engine = (u.reg_write h.engine u.rax rax).1;
    bufs = traced u trace h name outcome;
  }

  abbrev pub is_output : Bool
  is_output = eq_ℤ (fd u trace h) (pos 1) || eq_ℤ (fd u trace h) (pos 2)

  abbrev pub flat_write : Outcome GuestMemError (List ℕ) → Outcome ⊥ (HookState u)
  flat_write (ok bytes) =
      let count = (regs u trace h).arg2 in
      ok (record (returns (codes "write") (SyscallOutcome.return (pos count)) count) {
        shared = record h.shared { output = h.shared.output ++ bytes };
      })
  flat_write (error e) = ok (record h {
    engine = (u.emu_stop h.engine).1;
    shared = record h.shared {
      engine_error = some (dispatch_error_text (engine (codes "guest memory read failed")));
    };
  })
  flat_write panic = panic

  abbrev pub flat_exit : Text → Outcome ⊥ (HookState u)
  flat_exit name =
      let reason = ExitReason.exit ((regs u trace h).arg0 % 256) in
      ok (record {
        engine = (u.emu_stop h.engine).1;
        shared = record h.shared { exit_reason = some reason };
        bufs = traced u trace h name (SyscallOutcome.exit reason);
      })

  -- By the number in RAX: `write`, `exit`, `exit_group`, and all others.
  unfoldable pub flat_hook : Outcome ⊥ (HookState u)
  flat_hook =
      let nr = (regs u trace h).syscall_nr in
      if eq_ℤ (pos 1) nr
      then (if is_output
          then flat_write (guest_read u h.engine (regs u trace h).arg1 (regs u trace h).arg2)
          else ok (returns (codes "write") (SyscallOutcome.return (err ebadf)) (2 ^ 64 - 9)))
      else if eq_ℤ (pos 60) nr
      then flat_exit (codes "exit")
      else if eq_ℤ (pos 231) nr
      then flat_exit (codes "exit_group")
      else ok (returns (codes "<unimplemented>") (SyscallOutcome.return (err enosys)) (2 ^ 64 - 38))

  Equals : Type 0
  Equals = syscall_hook u (stage1 (unicorn_guest u) trace) h ≡ flat_hook

  readable_size :
      (bytes : List ℕ)
      → guest_read u h.engine (regs u trace h).arg1 (regs u trace h).arg2 ≡ ok bytes
      → (regs u trace h).arg2 ≤ isize_max
  readable_size bytes readable = elim (Bool-cases (ltb isize_max (regs u trace h).arg2)) [
    | inr fits ↦ ground (arith, fits)
    | inl huge ↦ cc (sym (guest_read-panic u trace h.engine _ _ (ground (arith, huge))) ∙ readable)
  ]

  flat_hook_write : eq_ℤ (pos 1) (regs u trace h).syscall_nr ≡ true → Equals
  unfolding Equals flat_hook
  flat_hook_write is_write =
      let nr = sym ((eq_ℤ_iff (pos 1) (regs u trace h).syscall_nr).0 is_write) in
      elim (Bool-cases is_output) [
        | inr closed ↦ hook-write_ebadf u trace h nr closed ∙ rw (is_write, closed) refl
        | inl open_fd ↦
            elim (Outcome-cases
              (guest_read u h.engine (regs u trace h).arg1 (regs u trace h).arg2)) [
                | inl (bytes, readable) ↦
                    hook-write u trace h bytes nr open_fd readable (readable_size bytes readable)
                    ∙ rw (is_write, open_fd, readable) refl
                | inr (inl (e, unreadable)) ↦
                    hook-write_unreadable u trace h e nr open_fd unreadable
                    ∙ rw (is_write, open_fd, unreadable) refl
                | inr (inr huge) ↦
                    hook-write_panic u trace h nr open_fd huge ∙ rw (is_write, open_fd, huge) refl
              ]
      ]

  -- After any syscall under stage 1 the whole state, the engine with its registers, the captured
  -- output, the reasons and the trace, is as the table says.
  pub hook-flat : syscall_hook u (stage1 (unicorn_guest u) trace) h ≡ flat_hook
  unfolding Equals flat_hook
  hook-flat = elim (Bool-cases (eq_ℤ (pos 1) nr)) [
    | inl is_write ↦ flat_hook_write is_write
    | inr a ↦ elim (Bool-cases (eq_ℤ (pos 60) nr)) [
      | inl is_exit ↦
          let at : nr ≡ pos 60 = sym ((eq_ℤ_iff (pos 60) nr).0 is_exit) in
          hook-exit u trace h (inl at) ∙ rw (a, is_exit) refl
      | inr b ↦ elim (Bool-cases (eq_ℤ (pos 231) nr)) [
        | inl is_group ↦
            let at : nr ≡ pos 231 = sym ((eq_ℤ_iff (pos 231) nr).0 is_group) in
            hook-exit u trace h (inr at) ∙ rw (a, b, is_group) refl
        | inr c ↦ hook-unknown u trace h (rw (a, b, c) refl) ∙ rw (a, b, c) refl
      ]
    ]
  ]
    where
      nr : ℤ
      nr = (regs u trace h).syscall_nr

-- ===== src/Syscall/Handlers.antt =====
-- crates/winvpwn-core/src/syscall/dispatch_impl.rs: `write`, `exit` and `exit_group`.
pub mod Stage1
use win_vpwn.Base.{
  ℕ, ℤ, pos, ◌%◌, List, [], ◌∷◌, Bool, not, ◌&&◌, Text, codes, Outcome, ok, error, panic, eq_ℤ,
  signed64, if◌then◌else◌, length, ◌++◌,
}
use win_vpwn.Trace.{SyscallOutcome}
use win_vpwn.Vkernel.{Context}
use win_vpwn.Vkernel.Capture
use win_vpwn.Vkernel.Guest.{GuestMemory}
use win_vpwn.Vkernel.Process.{ProcessState, exited, ExitReason}
use win_vpwn.Syscall.Errno.{err, ebadf}
use win_vpwn.Syscall.Dispatch.{
  SyscallRegs, DispatchError, engine, SyscallHandler, Dispatch, register,
}

abbrev pub low_byte : ℕ → ℕ
low_byte x = x % 256

module _ {M : Type 0} where
  -- The body that `ExitHandler` and `ExitGroupHandler` both have; `arg0 & 0xff` is the low byte.
  unfoldable pub handle_exit :
      Context M → SyscallRegs → Outcome DispatchError SyscallOutcome × Context M
  handle_exit ctx regs =
      let code = low_byte regs.arg0 in
      (ok (SyscallOutcome.exit (ExitReason.exit code)), record ctx { process = exited code })

  abbrev pub exit_handler : SyscallHandler M
  exit_handler = record { number = pos 60; name = codes "exit"; handle = handle_exit }

  abbrev pub exit_group_handler : SyscallHandler M
  exit_group_handler = record { number = pos 231; name = codes "exit_group"; handle = handle_exit }

module _ {M : Type 0} (memory : GuestMemory M) where
  unfoldable pub handle_write :
      Context M → SyscallRegs → Outcome DispatchError SyscallOutcome × Context M
  handle_write ctx regs =
      let fd = signed64 regs.arg0 in
      if not (eq_ℤ fd (pos 1)) && not (eq_ℤ fd (pos 2))
      then (ok (SyscallOutcome.return (err ebadf)), ctx)
      else elim (memory.read ctx.mem regs.arg1 regs.arg2) [
        | ok bytes ↦ (
          ok (SyscallOutcome.return (signed64 (length bytes))),
          record ctx { io = Capture.write ctx.io fd bytes },
        )
        | error e ↦ (error (engine (codes "guest memory read failed")), ctx)
        | panic ↦ (panic, ctx)
      ]

  abbrev pub write_handler : SyscallHandler M
  write_handler = record { number = pos 1; name = codes "write"; handle = handle_write }

  unfoldable pub register_all : Dispatch M → Dispatch M
  register_all d = register (register (register d write_handler) exit_handler) exit_group_handler

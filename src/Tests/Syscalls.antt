-- ===== src/Tests/Syscalls.antt =====
-- The dispatcher of stage 1 over the test machine, its trace, and the captured output.
use win_vpwn.Base.{ℤ, pos, [], ◌∷◌, false, some, ◌≡◌, ◌≢◌, refl, ok}
use win_vpwn.Trace.{SyscallOutcome, Buffers}
use win_vpwn.Vkernel.{Context}
use win_vpwn.Vkernel.Process.{ExitReason, running}
use win_vpwn.Vkernel.Capture
use win_vpwn.Vkernel.Capture.{OutputCapture, empty_capture, combined, stdout, stderr}
use win_vpwn.Syscall.Dispatch.{
  SyscallRegs, Dispatch, from_regs, dispatch, get, register, implemented,
}
use win_vpwn.Syscall.Dispatch.Table.{IsAscending, holds, is_some, implemented_lem}
use win_vpwn.Syscall.Dispatch.Tracing.{dispatch_untraced}
use win_vpwn.Syscall.Handlers.{register_all, handle_exit, handle_write}
use win_vpwn.Syscall.Handlers.Stage1.{stage1}
use win_vpwn.Cpu.Engine.{unicorn_guest, guest_read}
use win_vpwn.Vkernel.Guest.{GuestMemory, zeroed}
use win_vpwn.Tests.Machine.{Machine, machine}

abbrev memory : GuestMemory Machine
memory = unicorn_guest (machine [])

abbrev table : Dispatch Machine
table = stage1 memory (some 0)

abbrev no_records : Buffers
no_records sink = []

abbrev context : Context Machine
context = record {
  process = running;
  mem = record { regs = λ r. 0; program = []; halted = false };
  io = empty_capture;
}

abbrev exit_regs : SyscallRegs
exit_regs = from_regs (pos 60) (0x12a, 0, 0, 0, 0, 0) 0x401000

-- A `write` of two bytes at an address that is not mapped.
abbrev bad_write_regs : SyscallRegs
bad_write_regs = from_regs (pos 1) (1, 0x10, 2, 0, 0, 0) 0x401000

implemented_numbers : implemented table ≡ pos 1 ∷ pos 60 ∷ pos 231 ∷ []
unfolding implemented register_all register
implemented_numbers = refl

implemented_lem_example :
    IsAscending (implemented table)
    × ((nr : ℤ) → holds (implemented table) nr ≡ is_some (get table nr))
implemented_lem_example = implemented_lem table

exits :
    (dispatch table no_records context exit_regs).0 ≡ ok (SyscallOutcome.exit (ExitReason.exit 42))
unfolding dispatch get register_all register handle_exit
exits = refl

fails :
    (outcome : SyscallOutcome) → (dispatch table no_records context bad_write_regs).0 ≢ ok outcome
unfolding dispatch get register_all register handle_write guest_read zeroed
fails outcome e = cc e

dispatch_untraced_example : (dispatch table no_records context bad_write_regs).2 ≡ no_records
dispatch_untraced_example = dispatch_untraced table no_records context bad_write_regs fails

-- Three writes, to standard error, to standard output, and to standard error again.
abbrev written : OutputCapture
written =
    Capture.write
      (Capture.write (Capture.write empty_capture (pos 2) (7 ∷ [])) (pos 1) (8 ∷ 9 ∷ [])) (pos 2)
      (10 ∷ [])

combined-written : combined written ≡ 8 ∷ 9 ∷ 7 ∷ 10 ∷ []
unfolding combined Capture.write
combined-written = refl

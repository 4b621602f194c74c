-- ===== src/Syscall/Handlers/Stage1.antt =====
-- The three syscalls of stage 1: what each does, through the dispatcher that holds them.
use win_vpwn.Base.{
  ℕ, ◌≤◌, ◌%◌, ℤ, pos, List, true, false, ◌||◌, ◌↔◌, ◌⊎◌, Option, none, some, ◌≡◌, arith, codes, ok,
  error, panic, eq_ℤ, signed64, if◌then◌else◌, isize_max,
}
use win_vpwn.Trace.{SyscallOutcome, Buffers, TraceSink}
use win_vpwn.Vkernel.{Context}
use win_vpwn.Vkernel.Capture
use win_vpwn.Vkernel.Guest.{GuestMemory, GuestMemError}
use win_vpwn.Vkernel.Process.{ExitReason}
use win_vpwn.Syscall.Errno.{err, ebadf}
use win_vpwn.Syscall.Dispatch.{SyscallRegs, engine, Dispatch, register, get, dispatch, new_dispatch}
use win_vpwn.Syscall.Dispatch.Table.{get-register}
use win_vpwn.Syscall.Handlers.{
  handle_exit, handle_write, write_handler, exit_handler, exit_group_handler, register_all,
}

module _ {M : Type 0} (memory : GuestMemory M) where
  -- After `register_all` the three numbers have their handlers, and the others what they had.
  pub get-register_all :
      (d : Dispatch M) (nr : ℤ)
      → get (register_all memory d) nr ≡ (
          if eq_ℤ (pos 231) nr
          then some exit_group_handler
          else if eq_ℤ (pos 60) nr
          then some exit_handler
          else if eq_ℤ (pos 1) nr
          then some (write_handler memory)
          else get d nr)
  unfolding register_all
  get-register_all d nr = ground (
    arith,
    get-register (register (register d (write_handler memory)) exit_handler) exit_group_handler nr,
    get-register (register d (write_handler memory)) exit_handler nr,
    get-register d (write_handler memory) nr,
  )

  module _ (ctx : Context M) (regs : SyscallRegs) where
    -- `write` to a descriptor other than 1 and 2 returns -EBADF and changes nothing.
    pub handle_write-ebadf :
        (eq_ℤ (signed64 regs.arg0) (pos 1) || eq_ℤ (signed64 regs.arg0) (pos 2)) ≡ false
        → handle_write memory ctx regs ≡ (ok (SyscallOutcome.return (err ebadf)), ctx)
    unfolding handle_write
    handle_write-ebadf h = ground arith

    -- `write` of a readable buffer to descriptor 1 or 2 returns the number of bytes asked for, and
    -- appends exactly the bytes read to that descriptor's output.
    pub handle_write-ok :
        (bytes : List ℕ)
        → (eq_ℤ (signed64 regs.arg0) (pos 1) || eq_ℤ (signed64 regs.arg0) (pos 2)) ≡ true
        → memory.read ctx.mem regs.arg1 regs.arg2 ≡ ok bytes
        → regs.arg2 ≤ isize_max
        → handle_write memory ctx regs ≡ (
          ok (SyscallOutcome.return (pos regs.arg2)),
          record ctx { io = Capture.write ctx.io (signed64 regs.arg0) bytes },
        )
    unfolding handle_write
    handle_write-ok bytes fd readable fits =
        let count = memory.read_length ctx.mem regs.arg1 regs.arg2 bytes readable in
        ground (arith, count)

    pub handle_write-panic :
        (eq_ℤ (signed64 regs.arg0) (pos 1) || eq_ℤ (signed64 regs.arg0) (pos 2)) ≡ true
        → memory.read ctx.mem regs.arg1 regs.arg2 ≡ panic
        → handle_write memory ctx regs ≡ (panic, ctx)
    unfolding handle_write
    handle_write-panic fd unreadable = ground arith

    -- `write` of a buffer that cannot be read is an error of the dispatcher, and not -EFAULT.
    pub handle_write-unreadable :
        (e : GuestMemError)
        → (eq_ℤ (signed64 regs.arg0) (pos 1) || eq_ℤ (signed64 regs.arg0) (pos 2)) ≡ true
        → memory.read ctx.mem regs.arg1 regs.arg2 ≡ error e
        → handle_write memory ctx regs ≡ (error (engine (codes "guest memory read failed")), ctx)
    unfolding handle_write
    handle_write-unreadable e fd unreadable = ground arith

-- The dispatcher of a run: the three handlers, and a trace.
abbrev pub stage1 : {M : Type 0} → GuestMemory M → Option TraceSink → Dispatch M
stage1 {M} memory trace = record (register_all memory (new_dispatch M)) { trace = trace }

module _ {M : Type 0} (memory : GuestMemory M) (trace : Option TraceSink) where
  -- The dispatcher of stage 1 has handlers for 1, 60 and 231, and for no other number.
  pub get-stage1 :
      (nr : ℤ)
      → get (stage1 memory trace) nr ≡ (
          if eq_ℤ (pos 231) nr
          then some exit_group_handler
          else if eq_ℤ (pos 60) nr
          then some exit_handler
          else if eq_ℤ (pos 1) nr
          then some (write_handler memory)
          else none)
  unfolding get
  get-stage1 nr = get-register_all memory (new_dispatch M) nr

  module _ (bufs : Buffers) (ctx : Context M) (regs : SyscallRegs) where
    -- Whatever the syscall and its outcome, the guest's memory is what it was.
    pub mem-dispatch : (dispatch (stage1 memory trace) bufs ctx regs).1.mem ≡ ctx.mem
    unfolding dispatch handle_exit handle_write
    mem-dispatch = ground (arith, get-stage1 regs.syscall_nr)

    -- A dispatch of stage 1 ends the process exactly for `exit` and `exit_group`, with the low
    -- byte of the first argument.
    pub dispatch_exit_iff :
        (reason : ExitReason)
        → ((dispatch (stage1 memory trace) bufs ctx regs).0 ≡ ok (SyscallOutcome.exit reason)) ↔ (
            ((regs.syscall_nr ≡ pos 60) ⊎ (regs.syscall_nr ≡ pos 231))
            × (reason ≡ ExitReason.exit (regs.arg0 % 256)))
    unfolding dispatch handle_exit handle_write
    dispatch_exit_iff reason =
        (ground (arith, get-stage1 regs.syscall_nr), ground (arith, get-stage1 regs.syscall_nr))

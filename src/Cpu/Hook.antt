-- ===== src/Cpu/Hook.antt =====
-- The closure of `install_syscall_hook` in crates/winvpwn-core/src/cpu/unicorn_engine.rs: what runs
-- at each `syscall` instruction of the guest.
pub mod Effects
pub mod Flat
use win_vpwn.Base.{
  ℕ, ℤ, List, [], ◌∷◌, ◌++◌, Bool, true, false, Option, none, some, Text, Done, Outcome, ok, error,
  panic, signed64, unsigned64, if◌then◌else◌,
}
use win_vpwn.Trace.{SyscallOutcome, Args, Buffers}
use win_vpwn.Vkernel.{Context}
use win_vpwn.Vkernel.Capture.{OutputCapture, empty_capture, combined}
use win_vpwn.Vkernel.Process.{ExitReason, running}
use win_vpwn.Syscall.Dispatch.{
  SyscallRegs, DispatchError, Dispatch, from_regs, dispatch, dispatch_error_text,
}
use win_vpwn.Cpu.Engine.{Unicorn}
use win_vpwn.Cpu.Vcpu.{SharedState}

-- `unwrap_or(0)`
abbrev pub or_zero {ℓ} : {E : Type ℓ} → Outcome E ℕ → ℕ
or_zero (ok v) = v
or_zero _ = 0

abbrev pub is_nil : List ℕ → Bool
is_nil [] = true
is_nil (b ∷ bs) = false

-- `shared.borrow_mut().output.extend_from_slice(&combined)`, if there is output
abbrev pub extend_output : SharedState → List ℕ → SharedState
extend_output shared bytes =
    if is_nil bytes then shared else record shared { output = shared.output ++ bytes }

module _ (u : Unicorn) where
  -- What the hook changes: the engine, the state shared with the owner, and the trace buffers.
  pub record HookState : Type 0 where
    pub engine : u.State
    pub shared : SharedState
    pub bufs : Buffers

  unfoldable pub read_regs : u.State → SyscallRegs
  read_regs s =
      from_regs (signed64 (or_zero (u.reg_read s u.rax)))
        (
          or_zero (u.reg_read s u.rdi),
          or_zero (u.reg_read s u.rsi),
          or_zero (u.reg_read s u.rdx),
          or_zero (u.reg_read s u.r10),
          or_zero (u.reg_read s u.r8),
          or_zero (u.reg_read s u.r9),
        )
        (or_zero (u.reg_read s u.rip))

  -- The context of one syscall: a running process over the engine's memory, with nothing captured.
  abbrev pub hook_context : u.State → Context u.State
  hook_context s = record { process = running; mem = s; io = empty_capture }

  -- What the hook does with the outcome; the results of `reg_write` and `emu_stop` are dropped.
  -- A panic goes on through the callback.
  unfoldable pub settle : Outcome DispatchError SyscallOutcome → HookState → Outcome ⊥ HookState
  settle (ok (SyscallOutcome.return ret)) h =
      ok (record h { engine = (u.reg_write h.engine u.rax (unsigned64 ret)).1 })
  settle (ok (SyscallOutcome.exit reason)) h = ok (record h {
    engine = (u.emu_stop h.engine).1;
    shared = record h.shared { exit_reason = some reason };
  })
  settle (error e) h = ok (record h {
    engine = (u.emu_stop h.engine).1;
    shared = record h.shared { engine_error = some (dispatch_error_text e) };
  })
  settle panic h = panic

  unfoldable pub syscall_hook : Dispatch u.State → HookState → Outcome ⊥ HookState
  unfolding settle
  syscall_hook d h =
      let (outcome, ctx, bufs) = dispatch d h.bufs (hook_context h.engine) (read_regs h.engine) in
      settle outcome (record {
        engine = ctx.mem;
        shared = extend_output h.shared (combined ctx.io);
        bufs = bufs;
      })

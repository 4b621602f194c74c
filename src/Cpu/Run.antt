-- ===== src/Cpu/Run.antt =====
-- `Vcpu::run` of crates/winvpwn-core/src/cpu/unicorn_engine.rs: the emulation with its syscalls, and
-- how its end is reported.
pub mod Steps
pub mod Reports
pub mod Panics
pub mod Observed
pub mod Replayed
pub mod Exited
pub mod Complete
pub mod Falloff
pub mod AccessFaults
pub mod Ideal
pub mod Rows
pub mod Refined
pub mod Recorded
use win_vpwn.Base.{
  ℕ, zero, suc, ◌-◌, ◌^◌, List, [], ◌∷◌, Bool, ◌||◌, Option, none, some, Text, codes, contains_text,
  Done, Outcome, ok, error, panic, if◌then◌else◌,
}
use win_vpwn.Trace.{Buffers}
use win_vpwn.Vkernel.Process.{ExitReason, falloff, stopped}
use win_vpwn.Syscall.Dispatch.{Dispatch}
use win_vpwn.Cpu.Engine.{Unicorn, at_syscall, returned}
use win_vpwn.Cpu.Vcpu.{Vcpu, VcpuError, SharedState}
use win_vpwn.Cpu.Hook.{HookState, syscall_hook, or_zero}

-- The texts by which `run` knows that the guest fell off its image.
abbrev pub is_falloff : Text → Bool
is_falloff msg =
    contains_text (codes "READ_PROTECT") msg
    || contains_text (codes "FETCH_PROTECT") msg
    || contains_text (codes "READ_UNMAPPED") msg
    || contains_text (codes "FETCH_UNMAPPED") msg
    || contains_text (codes "WRITE_UNMAPPED") msg

module _ (u : Unicorn) where
  -- How an emulation ended: `emu_start` returned, a handler panicked, or the fuel ran out while the
  -- guest was running.
  pub data Emulated : Type 0 where
    ended : Outcome u.UcError Done → HookState u → Emulated
    crashed : Emulated
    unfinished : Emulated

  abbrev pub resumed : HookState u → HookState u
  resumed h = record h { engine = (u.resume h.engine).1 }

  -- `emu_start`, a stretch for each unit of fuel: at a `syscall` the hook runs, and the guest goes on.
  unfoldable pub emulate : ℕ → Dispatch u.State → HookState u → Emulated
  emulate zero d h = unfinished
  emulate (suc fuel) d h = elim (u.resume h.engine).0 [
    | returned r ↦ ended r (resumed h)
    | at_syscall ↦ elim (syscall_hook u d (resumed h)) [
      | ok h' ↦ emulate fuel d h'
      | error impossible ↦ crashed
      | panic ↦ crashed
    ]
  ]

  -- What `run` makes of the state after `emu_start` returned without an error.
  abbrev pub report_shared : SharedState → Outcome VcpuError ExitReason
  report_shared shared = elim shared.exit_reason [
    | some reason ↦ ok reason
    | none ↦ elim shared.engine_error [ some e ↦ error (VcpuError.exec e) | none ↦ ok stopped ]
  ]

  unfoldable pub report : Outcome u.UcError Done → HookState u → Outcome VcpuError ExitReason
  report (ok done) h = report_shared h.shared
  report panic h = panic
  report (error e) h =
      let msg = u.error_text e in
      if is_falloff msg
      then ok (falloff (or_zero (u.reg_read h.engine u.rip)))
      else error (VcpuError.exec msg)

  -- The result of a run, the CPU after it and the trace buffers; `none` if the fuel ran out. After
  -- a panic in a handler the process is gone, and the CPU is given as it was.
  abbrev pub Ran : Type 0
  Ran = Option (Outcome VcpuError ExitReason × Vcpu u × Buffers)

  unfoldable pub finish : Vcpu u → Buffers → Emulated → Ran
  finish v bufs (ended r h) =
      some (report r h, record v { uc = some h.engine; shared = h.shared }, h.bufs)
  finish v bufs crashed = some (panic, v, bufs)
  finish v bufs unfinished = none

  -- The state that the emulation sets off from.
  abbrev pub begun : Vcpu u → u.State → Buffers → ℕ → HookState u
  begun v s bufs timeout_ms = record {
    engine = u.emu_begin s (or_zero (u.reg_read s u.rip)) (2 ^ 64 - 1) timeout_ms 0;
    shared = v.shared;
    bufs = bufs;
  }

  unfoldable pub run : ℕ → ℕ → Vcpu u → Buffers → Ran
  unfolding emulate
  run fuel timeout_ms v bufs = elim v.uc [
    | none ↦ some (panic, v, bufs)
    | some s ↦ finish v bufs (emulate fuel v.hook (begun v s bufs timeout_ms))
  ]

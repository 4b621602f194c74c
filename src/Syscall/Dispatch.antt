-- ===== src/Syscall/Dispatch.antt =====
-- crates/winvpwn-core/src/syscall/dispatch.rs: the handlers, and the routing of a syscall to one.
pub mod Table
pub mod Tracing
use win_vpwn.Base.{
  ℕ, ℤ, List, [], ◌∷◌, ◌++◌, Bool, not, Option, none, some, Text, codes, Outcome, ok, error, panic,
  eq_ℤ, leb_ℤ, if◌then◌else◌, filter, find, sort_by, map,
}
use win_vpwn.Trace.{SyscallOutcome, Args, TraceSink, Buffers, push_record}
use win_vpwn.Vkernel.{Context}
use win_vpwn.Syscall.Errno.{err, enosys}

pub record SyscallRegs : Type 0 where
  pub syscall_nr : ℤ
  pub arg0 : ℕ
  pub arg1 : ℕ
  pub arg2 : ℕ
  pub arg3 : ℕ
  pub arg4 : ℕ
  pub arg5 : ℕ
  pub rip : ℕ

abbrev pub from_regs : ℤ → Args → ℕ → SyscallRegs
from_regs syscall_nr args rip = record {
  syscall_nr = syscall_nr;
  arg0 = args.0;
  arg1 = args.1;
  arg2 = args.2;
  arg3 = args.3;
  arg4 = args.4;
  arg5 = args.5;
  rip = rip;
}

pub data DispatchError : Type 0 where
  mismatch : DispatchError
  engine : Text → DispatchError

unfoldable pub dispatch_error_text : DispatchError → Text
dispatch_error_text mismatch = codes "E201: syscall handler mismatch"
dispatch_error_text (engine msg) = codes "E202: engine error: " ++ msg

-- `trait SyscallHandler`; `handle` returns the context that it leaves.
pub record SyscallHandler (M : Type 0) : Type 0 where
  pub number : ℤ
  pub name : Text
  pub handle : Context M → SyscallRegs → Outcome DispatchError SyscallOutcome × Context M

pub record Dispatch (M : Type 0) : Type 0 where
  pub handlers : List (SyscallHandler M)
  pub trace : Option TraceSink

-- `dedup`: of equal neighbours the first stays.
abbrev pub dedup_after : ℤ → List ℤ → List ℤ
dedup_after a [] = []
dedup_after a (b ∷ bs) = let rest = dedup_after b bs in if eq_ℤ a b then rest else b ∷ rest

abbrev pub dedup : List ℤ → List ℤ
dedup [] = []
dedup (a ∷ rest) = a ∷ dedup_after a rest

abbrev pub trace_outcome :
    Option TraceSink → Buffers → Text → SyscallRegs → SyscallOutcome → Buffers
trace_outcome none bufs name regs outcome = bufs
trace_outcome (some sink) bufs name regs outcome =
    push_record bufs sink name regs.syscall_nr
      (regs.arg0, regs.arg1, regs.arg2, regs.arg3, regs.arg4, regs.arg5) regs.rip outcome

module _ {M : Type 0} where
  -- `handler.map(|h| h.name()).unwrap_or("<unimplemented>")`
  abbrev pub handler_name : Option (SyscallHandler M) → Text
  handler_name none = codes "<unimplemented>"
  handler_name (some h) = h.name

  unfoldable pub register : Dispatch M → SyscallHandler M → Dispatch M
  register d handler = record d {
    handlers = filter (λ h. not (eq_ℤ h.number handler.number)) d.handlers ++ handler ∷ [];
  }

  unfoldable pub set_trace : Dispatch M → TraceSink → Dispatch M
  set_trace d sink = record d { trace = some sink }

  -- `find`, and `get` of the source
  unfoldable pub get : Dispatch M → ℤ → Option (SyscallHandler M)
  get d nr = find (λ h. eq_ℤ h.number nr) d.handlers

  abbrev pub handle_with :
      Option (SyscallHandler M)
      → Context M
      → SyscallRegs
      → Outcome DispatchError SyscallOutcome × Context M
  handle_with (some h) ctx regs = h.handle ctx regs
  handle_with none ctx regs = (ok (SyscallOutcome.return (err enosys)), ctx)

  unfoldable pub dispatch :
      Dispatch M
      → Buffers
      → Context M
      → SyscallRegs
      → Outcome DispatchError SyscallOutcome × Context M × Buffers
  dispatch d bufs ctx regs =
      let handler = get d regs.syscall_nr in
      let (result, ctx') = handle_with handler ctx regs in
      elim result [
        | ok outcome ↦
            (ok outcome, ctx', trace_outcome d.trace bufs (handler_name handler) regs outcome)
        | error e ↦ (error e, ctx', bufs)
        | panic ↦ (panic, ctx', bufs)
      ]

  unfoldable pub implemented : Dispatch M → List ℤ
  implemented d = dedup (sort_by leb_ℤ (map (λ h. h.number) d.handlers))

-- `Dispatch::new`
abbrev pub new_dispatch : (M : Type 0) → Dispatch M
new_dispatch M = record { handlers = []; trace = none }

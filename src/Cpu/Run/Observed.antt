-- ===== src/Cpu/Run/Observed.antt =====
-- What the owner of a CPU observes of a guest under stage 1, as an abstract machine: each syscall has
-- one of four effects on the captured output, the exit reason and the engine error.
use win_vpwn.Base.{
  ℕ, ◌%◌, ℤ, pos, List, [], ◌∷◌, ◌++◌, ◌||◌, Option, none, some, codes, ◌≡◌, refl, ap, ◌∙◌, arith,
  Outcome, ok, error, panic, eq_ℤ, signed64, if◌then◌else◌,
}
use win_vpwn.Trace.{TraceSink}
use win_vpwn.Vkernel.Process.{exit}
use win_vpwn.Vkernel.Guest.{GuestMemError}
use win_vpwn.Syscall.Dispatch.{SyscallRegs, dispatch_error_text, engine}
use win_vpwn.Syscall.Handlers.Stage1.{stage1}
use win_vpwn.Cpu.Engine.{Unicorn, unicorn_guest, guest_read}
use win_vpwn.Cpu.Vcpu.{SharedState}
use win_vpwn.Cpu.Hook.{HookState, syscall_hook, read_regs}
use win_vpwn.Cpu.Hook.Flat.{flat_hook, hook-flat}
use win_vpwn.Cpu.Hook.Effects.{fd}

pub data Effect : Type 0 where
  captures : List ℕ → Effect
  answers : Effect
  ends : ℕ → Effect
  faults : Effect

-- The effect of a `write`, by what reading its buffer gives; `none` is a panic.
abbrev pub write_effect : ℤ → Outcome GuestMemError (List ℕ) → Option Effect
write_effect fd buffer =
    if eq_ℤ fd (pos 1) || eq_ℤ fd (pos 2)
    then elim buffer [ ok bytes ↦ some (captures bytes) | error e ↦ some faults | panic ↦ none ]
    else some answers

-- The effect of a syscall of stage 1.
abbrev pub effect : SyscallRegs → Outcome GuestMemError (List ℕ) → Option Effect
effect r buffer =
    if eq_ℤ (pos 1) r.syscall_nr
    then write_effect (signed64 r.arg0) buffer
    else if eq_ℤ (pos 60) r.syscall_nr || eq_ℤ (pos 231) r.syscall_nr
    then some (ends (r.arg0 % 256))
    else some answers

abbrev pub perform : Effect → SharedState → SharedState
perform (captures bytes) s = record s { output = s.output ++ bytes }
perform answers s = s
perform (ends code) s = record s { exit_reason = some (exit code) }
perform faults s = record s {
  engine_error = some (dispatch_error_text (engine (codes "guest memory read failed")));
}

abbrev pub performs : List Effect → SharedState → SharedState
performs [] s = s
performs (e ∷ es) s = performs es (perform e s)

abbrev pub written : List Effect → List ℕ
written [] = []
written (captures bytes ∷ es) = bytes ++ written es
written (_ ∷ es) = written es

abbrev pub performed : Option Effect → SharedState → Option SharedState
performed none s = none
performed (some e) s = some (perform e s)

module _ (u : Unicorn) (trace : Option TraceSink) where
  -- The owner's state after the hook; `none` is a panic.
  abbrev pub observed : Outcome ⊥ (HookState u) → Option SharedState
  observed (ok h) = some h.shared
  observed (error impossible) = none
  observed panic = none

  abbrev pub effect_at : HookState u → Option Effect
  effect_at h =
      effect (read_regs u h.engine)
        (guest_read u h.engine (read_regs u h.engine).arg1 (read_regs u h.engine).arg2)

  module _ (h : HookState u) where
    flat_refines :
        (nr : ℤ) (buffer : Outcome GuestMemError (List ℕ))
        → (read_regs u h.engine).syscall_nr ≡ nr
        → guest_read u h.engine (read_regs u h.engine).arg1 (read_regs u h.engine).arg2 ≡ buffer
        → observed (flat_hook u trace h) ≡ performed (effect_at h) h.shared
    unfolding flat_hook
    flat_refines nr buffer at read = ground (arith, at, read)

    -- The hook under stage 1 implements the abstract machine: after any syscall the owner's state is
    -- what the syscall's effect makes of it, and the hook panics exactly where there is no effect.
    pub hook_refines :
        observed (syscall_hook u (stage1 (unicorn_guest u) trace) h)
        ≡ performed (effect_at h) h.shared
    hook_refines = ap observed (hook-flat u trace h) ∙ flat_refines _ _ refl refl

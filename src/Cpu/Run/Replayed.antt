-- ===== src/Cpu/Run/Replayed.antt =====
-- What the owner of a CPU observes of a whole run under stage 1: the effects of its syscalls in order.
use win_vpwn.Base.{
  ℕ, List, [], ◌∷◌, ◌++◌, Option, none, some, ◌≡◌, refl, sym, ap, ◌∙◌, arith, append-nil,
  append_assoc,
}
use win_vpwn.Trace.{TraceSink}
use win_vpwn.Syscall.Handlers.Stage1.{stage1}
use win_vpwn.Cpu.Engine.{Unicorn, unicorn_guest}
use win_vpwn.Cpu.Vcpu.{SharedState}
use win_vpwn.Cpu.Hook.{HookState}
use win_vpwn.Cpu.Run.{resumed}
use win_vpwn.Cpu.Run.Steps.{syscall, Reaches, here, next}
use win_vpwn.Cpu.Run.Observed.{
  Effect, captures, answers, ends, faults, perform, performs, performed, written, observed,
  effect_at, hook_refines,
}

abbrev pub at_most_one : Option Effect → List Effect
at_most_one none = []
at_most_one (some e) = e ∷ []

performs-snoc :
    (es : List Effect) (o : Option Effect) (s t : SharedState)
    → some t ≡ performed o (performs es s)
    → t ≡ performs (es ++ at_most_one o) s
performs-snoc [] none s t h = cc
performs-snoc [] (some e) s t h = ground (arith, h)
performs-snoc (d ∷ es) o s t h = performs-snoc es o (perform d s) t h

performs-output :
    (es : List Effect) (s : SharedState) → (performs es s).output ≡ s.output ++ written es
performs-output [] s = sym (append-nil s.output)
performs-output (captures bytes ∷ es) s =
    performs-output es (perform (captures bytes) s) ∙ append_assoc s.output bytes (written es)
performs-output (answers ∷ es) s = performs-output es s
performs-output (ends code ∷ es) s = performs-output es (perform (ends code) s)
performs-output (faults ∷ es) s = performs-output es (perform faults s)

module _ (u : Unicorn) (trace : Option TraceSink) where
  -- The effects of the guest's syscalls, in order.
  pub effects :
      {h : HookState u} {n : ℕ} {h' : HookState u}
      → Reaches u (stage1 (unicorn_guest u) trace) h n h'
      → List Effect
  effects here = []
  effects (next {h'} reached step) =
      effects reached ++ at_most_one (effect_at u trace (resumed u h'))

  replays :
      (h : HookState u) {n : ℕ} {h' : HookState u}
      (r : Reaches u (stage1 (unicorn_guest u) trace) h n h')
      → h'.shared ≡ performs (effects r) h.shared
  unfolding effects
  replays h here = refl
  replays h (next {h'} {h''} reached (syscall at hooked)) =
      let before = replays h reached in
      let step = sym (ap (observed u trace) hooked) ∙ hook_refines u trace (resumed u h') in
      performs-snoc (effects reached) (effect_at u trace (resumed u h')) h.shared h''.shared
        (step ∙ ap (performed (effect_at u trace (resumed u h'))) before)

  -- Along a run under stage 1 the owner's state is what the effects of the guest's syscalls make of
  -- it in order: the captured output is what the writes captured, one after the other.
  pub Reaches_refines :
      (h : HookState u) {n : ℕ} {h' : HookState u}
      (r : Reaches u (stage1 (unicorn_guest u) trace) h n h')
      → (h'.shared ≡ performs (effects r) h.shared)
        × (h'.shared.output ≡ h.shared.output ++ written (effects r))
  Reaches_refines h r =
      let whole = replays h r in
      (whole, ap (λ (s : SharedState). s.output) whole ∙ performs-output (effects r) h.shared)

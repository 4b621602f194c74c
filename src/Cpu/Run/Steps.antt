-- ===== src/Cpu/Run/Steps.antt =====
-- The course of an emulation as a relation: the syscalls that the guest made, one after the other.
use win_vpwn.Base.{
  ℕ, zero, suc, ◌+◌, ◌<◌, List, [], ◌++◌, ◌≡◌, refl, sym, ap, ◌∙◌, arith, Done, Outcome, ok, error,
  panic, append-nil, append_assoc, Outcome-cases, ◌⊎◌, inl, inr,
}
use win_vpwn.Trace.{SyscallOutcome}
use win_vpwn.Vkernel.Capture.{combined}
use win_vpwn.Syscall.Dispatch.{Dispatch, DispatchError, dispatch}
use win_vpwn.Cpu.Engine.{Unicorn, Event, at_syscall, returned}
use win_vpwn.Cpu.Vcpu.{SharedState}
use win_vpwn.Cpu.Hook.{HookState, syscall_hook, settle, read_regs, hook_context}
use win_vpwn.Cpu.Hook.Effects.{extend_output_lem}
use win_vpwn.Cpu.Run.{ended, crashed, emulate, resumed}

module _ (u : Unicorn) (d : Dispatch u.State) where
  -- One syscall of the guest: it runs up to a `syscall` instruction, and the hook returns.
  pub data Step (h h' : HookState u) : Type 0 where
    syscall :
        (u.resume h.engine).0 ≡ at_syscall → syscall_hook u d (resumed u h) ≡ ok h' → Step h h'

  -- `n` syscalls lead from one state to the other.
  pub data Reaches (h : HookState u) : ℕ → HookState u → Type 0 where
    here : Reaches h zero h
    next : {n : ℕ} {h' h'' : HookState u} → Reaches h n h' → Step h' h'' → Reaches h (suc n) h''

  pub emulate-Step :
      (fuel : ℕ) {h h' : HookState u} → Step h h' → emulate u (suc fuel) d h ≡ emulate u fuel d h'
  unfolding emulate
  emulate-Step fuel (syscall at hooked) = rw (at, hooked, emulate)

  -- The emulation follows the guest's syscalls, a unit of fuel for each.
  pub emulate-Reaches :
      {h : HookState u} (fuel k : ℕ) {n : ℕ} {h' : HookState u}
      → Reaches h n h'
      → n + fuel ≡ k
      → emulate u k d h ≡ emulate u fuel d h'
  emulate-Reaches {h} fuel k here e =
      let same : k ≡ fuel = omega arith in ap (λ j. emulate u j d h) same
  emulate-Reaches fuel k (next r step) e =
      emulate-Reaches (suc fuel) k r (omega arith) ∙ emulate-Step fuel step

  settle-output :
      (r : Outcome DispatchError SyscallOutcome) (h h' : HookState u)
      → settle u r h ≡ ok h'
      → h'.shared.output ≡ h.shared.output
  unfolding settle
  settle-output (ok (SyscallOutcome.return ret)) h h' e = ground arith
  settle-output (ok (SyscallOutcome.exit reason)) h h' e = ground arith
  settle-output (error x) h h' e = ground arith
  settle-output panic h h' e = cc

  -- A syscall only appends to the captured output.
  Step-output :
      (h h' : HookState u)
      → Step h h'
      → (bytes : List ℕ) × (h'.shared.output ≡ h.shared.output ++ bytes)
  unfolding syscall_hook
  Step-output h h' (syscall at hooked) =
      let g = resumed u h in
      let io = (dispatch d g.bufs (hook_context u g.engine) (read_regs u g.engine)).1.io in
      (
        combined io,
        settle-output _ _ h' hooked
            ∙ ap (λ (s : SharedState). s.output) (extend_output_lem h.shared (combined io)),
      )

  -- Along an emulation the captured output is only appended to, whatever the handlers.
  pub Reaches-output :
      (h : HookState u) {n : ℕ} {h' : HookState u}
      → Reaches h n h'
      → (bytes : List ℕ) × (h'.shared.output ≡ h.shared.output ++ bytes)
  Reaches-output h here = ([], sym (append-nil _))
  Reaches-output h (next {h'} {h''} r step) =
      let (first, before) = Reaches-output h r in
      let (second, after) = Step-output h' h'' step in
      (
        first ++ second,
        after ∙ ap (λ o. o ++ second) before ∙ append_assoc h.shared.output first second,
      )

  pub Reaches-first :
      {h g : HookState u} {n : ℕ} {h' : HookState u}
      → Step h g
      → Reaches g n h'
      → Reaches h (suc n) h'
  Reaches-first step here = next here step
  Reaches-first step (next r last) = next (Reaches-first step r) last

  pub Event-cases :
      (ev : Event u.UcError)
      → (ev ≡ at_syscall) ⊎ ((r : Outcome u.UcError Done) × (ev ≡ returned r))
  Event-cases at_syscall = inl refl
  Event-cases (returned r) = inr (r, refl)

  pub emulate_returned :
      (fuel : ℕ) (h : HookState u) (r : Outcome u.UcError Done)
      → (u.resume h.engine).0 ≡ returned r
      → emulate u (suc fuel) d h ≡ ended r (resumed u h)
  unfolding emulate
  emulate_returned fuel h r back = rw (back, emulate)

  pub emulate_crashed :
      (fuel : ℕ) (h : HookState u)
      → (u.resume h.engine).0 ≡ at_syscall
      → ((x : ⊥) × (syscall_hook u d (resumed u h) ≡ error x))
        ⊎ (syscall_hook u d (resumed u h) ≡ panic)
      → emulate u (suc fuel) d h ≡ crashed
  unfolding emulate
  emulate_crashed fuel h at (inl (x, e)) = absurd x
  emulate_crashed fuel h at (inr e) = rw (at, e, emulate)

  -- An emulation that ends has gone through the syscalls of the guest, fewer than its fuel, up to a
  -- state from which the engine returned.
  pub emulate-ended :
      (fuel : ℕ) (h e : HookState u) (r : Outcome u.UcError Done)
      → emulate u fuel d h ≡ ended r e
      → (n : ℕ) × (h' : HookState u) × (n < fuel)
        × Reaches h n h'
        × ((u.resume h'.engine).0 ≡ returned r)
        × (e ≡ resumed u h')
  emulate-ended zero h e r eq = unfold emulate in cc eq
  emulate-ended (suc fuel) h e r eq = elim (Event-cases (u.resume h.engine).0) [
    | inr (r', back) ↦
        let ends = emulate_returned fuel h r' back in
        let same : (r' ≡ r) × (resumed u h ≡ e) = ground (arith, ends) in
        (zero, h, omega arith, here, back ∙ ap returned same.0, sym same.1)
    | inl at ↦ elim (Outcome-cases (syscall_hook u d (resumed u h))) [
      | inl (h', hooked) ↦
          let on = emulate-Step fuel (syscall at hooked) in
          let (n, last, less, reached, back, ends) = emulate-ended fuel h' e r (sym on ∙ eq) in
          (suc n, last, omega arith, Reaches-first (syscall at hooked) reached, back, ends)
      | inr failed ↦ cc (sym (emulate_crashed fuel h at failed) ∙ eq)
    ]
  ]

-- ===== src/Cpu/Run/Complete.antt =====
-- `run` against the course of the guest as a relation: what it returns, and when its fuel runs out.
use win_vpwn.Base.{
  ℕ, zero, suc, ◌+◌, ◌-◌, ◌<◌, some, some-injective, subst, ◌≡◌, ◌↔◌, refl, sym, ap, ◌∙◌, inl, inr,
  arith, Done, Outcome, panic, Outcome-cases,
}
use win_vpwn.Trace.{Buffers}
use win_vpwn.Vkernel.Process.{ExitReason}
use win_vpwn.Syscall.Dispatch.{Dispatch}
use win_vpwn.Cpu.Engine.{Unicorn, at_syscall, returned}
use win_vpwn.Cpu.Vcpu.{Vcpu, VcpuError}
use win_vpwn.Cpu.Hook.{HookState, syscall_hook}
use win_vpwn.Cpu.Run.{
  Emulated, ended, crashed, unfinished, emulate, resumed, report, finish, run, begun,
}
use win_vpwn.Cpu.Run.Steps.{
  Reaches, here, syscall, Reaches-first, Event-cases, emulate-Step, emulate-Reaches,
  emulate_returned, emulate_crashed, emulate-ended,
}
use win_vpwn.Cpu.Run.Reports.{run_loaded, run-ended}

module _ (u : Unicorn) (d : Dispatch u.State) where
  -- The guest comes to a syscall at which the hook panics.
  unfoldable pub Crashes : HookState u → Type 0
  Crashes h = ((u.resume h.engine).0 ≡ at_syscall) × (syscall_hook u d (resumed u h) ≡ panic)

  emulate-crashed :
      (fuel : ℕ) (h : HookState u)
      → emulate u fuel d h ≡ crashed
      → (n : ℕ) × (h' : HookState u) × (n < fuel) × Reaches u d h n h' × Crashes h'
  unfolding Crashes
  emulate-crashed zero h eq = unfold emulate in cc eq
  emulate-crashed (suc fuel) h eq = elim (Event-cases u d (u.resume h.engine).0) [
    | inr (r, back) ↦ cc (sym (emulate_returned u d fuel h r back) ∙ eq)
    | inl at ↦ elim (Outcome-cases (syscall_hook u d (resumed u h))) [
      | inl (h', hooked) ↦
          let on = emulate-Step u d fuel (syscall at hooked) in
          let (n, last, less, reached, stuck) = emulate-crashed fuel h' (sym on ∙ eq) in
          (suc n, last, omega arith, Reaches-first u d (syscall at hooked) reached, stuck)
      | inr (inl (x, e)) ↦ absurd x
      | inr (inr panics) ↦ (zero, h, omega arith, here, (at, panics))
    ]
  ]

module _ (u : Unicorn) (v : Vcpu u) (s : u.State) (bufs : Buffers) (timeout_ms : ℕ) where
  -- The state at which `emu_start` sets off.
  abbrev pub start : HookState u
  start = begun u v s bufs timeout_ms

  -- The guest makes `n` syscalls, and then the engine returns or a hook panics: what is returned is
  -- the report of that state, or the panic.
  pub data Outcomes (n : ℕ) : Outcome VcpuError ExitReason → Vcpu u → Buffers → Type 0 where
    reports :
        {h : HookState u} (r : Outcome u.UcError Done)
        → Reaches u v.hook start n h
        → (u.resume h.engine).0 ≡ returned r
        → Outcomes n
            (report u r (resumed u h))
            (record v { uc = some (u.resume h.engine).1; shared = h.shared })
            h.bufs
    crashes :
        {h : HookState u}
        → Reaches u v.hook start n h
        → Crashes u v.hook h
        → Outcomes n panic v bufs

  Outcomes-run :
      (fuel n : ℕ) (result : Outcome VcpuError ExitReason) (v' : Vcpu u) (bufs' : Buffers)
      → v.uc ≡ some s
      → n < fuel
      → Outcomes n result v' bufs'
      → run u fuel timeout_ms v bufs ≡ some (result, v', bufs')
  unfolding finish Crashes
  Outcomes-run fuel n result v' bufs' loaded less (reports {h} r reached back) =
      run-ended u v s bufs timeout_ms fuel r loaded reached back less
  Outcomes-run fuel n result v' bufs' loaded less (crashes {h} reached (at, panics)) =
      let left : n + suc (fuel - n - 1) ≡ fuel = omega arith in
      run_loaded u v s bufs timeout_ms fuel loaded
      ∙ ap (finish u v bufs) (
          emulate-Reaches u v.hook (suc (fuel - n - 1)) fuel reached left
          ∙ emulate_crashed u v.hook (fuel - n - 1) h at (inr panics))

  finish-Outcomes :
      (fuel : ℕ) (result : Outcome VcpuError ExitReason) (v' : Vcpu u) (bufs' : Buffers)
      (end : Emulated u)
      → emulate u fuel v.hook start ≡ end
      → finish u v bufs end ≡ some (result, v', bufs')
      → (n : ℕ) × (n < fuel) × Outcomes n result v' bufs'
  unfolding finish
  finish-Outcomes fuel result v' bufs' (ended r last) went done =
      let (n, h, less, reached, back, same) = emulate-ended u v.hook fuel start last r went in
      (
        n,
        less,
        subst (λ t. Outcomes n t.0 t.1 t.2)
            (some-injective (ap (λ l. finish u v bufs (ended r l)) (sym same) ∙ done))
            (reports r reached back),
      )
  finish-Outcomes fuel result v' bufs' crashed went done =
      let (n, h, less, reached, stuck) = emulate-crashed u v.hook fuel start went in
      (n, less, subst (λ t. Outcomes n t.0 t.1 t.2) (some-injective done) (crashes reached stuck))
  finish-Outcomes fuel result v' bufs' unfinished went done = cc

  -- A run of a CPU with an engine returns exactly what the guest's course gives within the fuel: the
  -- report of the state in which the engine returned, or the panic of a hook.
  pub run_iff :
      (fuel : ℕ) (result : Outcome VcpuError ExitReason) (v' : Vcpu u) (bufs' : Buffers)
      → v.uc ≡ some s
      → (run u fuel timeout_ms v bufs ≡ some (result, v', bufs'))
        ↔ ((n : ℕ) × (n < fuel) × Outcomes n result v' bufs')
  run_iff fuel result v' bufs' loaded = (
    λ ran.
        finish-Outcomes fuel result v' bufs' _ refl
          (sym (run_loaded u v s bufs timeout_ms fuel loaded) ∙ ran),
    λ (n, less, course). Outcomes-run fuel n result v' bufs' loaded less course,
  )

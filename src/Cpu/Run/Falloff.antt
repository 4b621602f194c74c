-- ===== src/Cpu/Run/Falloff.antt =====
-- When `run` reports that the guest fell off its image.
use win_vpwn.Base.{
  ℕ, ◌<◌, List, [], ◌∷◌, Option, Option-cases, none, some, some-injective, Bool-cases, ◌≡◌, ◌↔◌,
  ◌⊎◌, refl, sym, ap, subst, ◌∙◌, inl, inr, arith, Done, Outcome, ok, error, panic,
}
use win_vpwn.Trace.{Buffers, TraceSink}
use win_vpwn.Vkernel.Process.{ExitReason, falloff}
use win_vpwn.Syscall.Handlers.Stage1.{stage1}
use win_vpwn.Cpu.Engine.{Unicorn, returned, unicorn_guest}
use win_vpwn.Cpu.Vcpu.{Vcpu, VcpuError, SharedState}
use win_vpwn.Cpu.Hook.{HookState, or_zero}
use win_vpwn.Cpu.Run.{resumed, report, report_shared, is_falloff, run, begun}
use win_vpwn.Cpu.Run.AccessFaults.{NamesFault, is_falloff_iff}
use win_vpwn.Cpu.Run.Steps.{Reaches}
use win_vpwn.Cpu.Run.Reports.{result}
use win_vpwn.Cpu.Run.Observed.{Effect, captures, answers, ends, faults, perform, performs}
use win_vpwn.Cpu.Run.Replayed.{effects, Reaches_refines}
use win_vpwn.Cpu.Run.Complete.{Outcomes, reports, crashes, run_iff}

-- No effect of a syscall is a fall off the image.
performs-falloff :
    (es : List Effect) (s : SharedState) (rip : ℕ)
    → (performs es s).exit_reason ≡ some (falloff rip)
    → s.exit_reason ≡ some (falloff rip)
performs-falloff [] s rip h = h
performs-falloff (captures bytes ∷ es) s rip h =
    performs-falloff es (perform (captures bytes) s) rip h
performs-falloff (answers ∷ es) s rip h = performs-falloff es s rip h
performs-falloff (ends code ∷ es) s rip h = cc (performs-falloff es (perform (ends code) s) rip h)
performs-falloff (faults ∷ es) s rip h = performs-falloff es (perform faults s) rip h

module _ (u : Unicorn) where
  -- The engine stopped with an access fault, with RIP there.
  unfoldable pub FellOff : Outcome u.UcError Done → HookState u → ℕ → Type 0
  FellOff r h rip =
      (e : u.UcError) × (r ≡ error e)
      × NamesFault (u.error_text e)
      × (rip ≡ or_zero (u.reg_read h.engine u.rip))

  report_shared-falloff :
      (s : SharedState) (rip : ℕ)
      → report_shared u s ≡ ok (falloff rip)
      → s.exit_reason ≡ some (falloff rip)
  report_shared-falloff s rip h = ground arith

  report-falloff :
      (r : Outcome u.UcError Done) (h : HookState u) (rip : ℕ)
      → report u r h ≡ ok (falloff rip)
      → (h.shared.exit_reason ≡ some (falloff rip)) ⊎ FellOff r h rip
  unfolding report FellOff
  report-falloff (ok done) h rip e = inl (report_shared-falloff h.shared rip e)
  report-falloff panic h rip e = cc
  report-falloff (error x) h rip e = elim (Bool-cases (is_falloff (u.error_text x))) [
    | inl off ↦ inr (x, refl, (is_falloff_iff (u.error_text x)).0 off, ground (arith, rw off at e))
    | inr other ↦ cc (rw other at e)
  ]

  pub FellOff-report :
      (r : Outcome u.UcError Done) (h : HookState u) (rip : ℕ)
      → FellOff r h rip
      → report u r h ≡ ok (falloff rip)
  unfolding report FellOff
  FellOff-report r h rip (e, failed, named, at) =
      let off = (is_falloff_iff (u.error_text e)).1 named in rw (failed, report, off, at) refl

  module _ (trace : Option TraceSink) (v : Vcpu u) (s : u.State) (bufs : Buffers) (timeout_ms : ℕ)
      (loaded : v.uc ≡ some s) (stage : v.hook ≡ stage1 (unicorn_guest u) trace)
      (before : v.shared.exit_reason ≡ none) where
    no_falloff :
        {n : ℕ} {h : HookState u} (rip : ℕ)
        → Reaches u v.hook (begun u v s bufs timeout_ms) n h
        → h.shared.exit_reason ≡ some (falloff rip)
        → ⊥
    no_falloff {n} {h} rip reached after =
        let reached' = subst (λ d. Reaches u d (begun u v s bufs timeout_ms) n h) stage reached in
        let (same, _) = Reaches_refines u trace (begun u v s bufs timeout_ms) reached' in
        let first =
          performs-falloff (effects u trace reached') v.shared rip
            (sym (ap (λ (t : SharedState). t.exit_reason) same) ∙ after) in
        cc (sym before ∙ first)

    pub Outcomes-FellOff :
        (n rip : ℕ) (outcome : Outcome VcpuError ExitReason) (v' : Vcpu u) (bufs' : Buffers)
        → Outcomes u v s bufs timeout_ms n outcome v' bufs'
        → outcome ≡ ok (falloff rip)
        → (h : HookState u) × (r : Outcome u.UcError Done) × Reaches u v.hook
            (begun u v s bufs timeout_ms)
            n
            h
          × ((u.resume h.engine).0 ≡ returned r)
          × FellOff r (resumed u h) rip
          × (v'.shared ≡ h.shared)
    Outcomes-FellOff n rip outcome v' bufs' (reports {h} r reached back) e =
        elim (report-falloff r (resumed u h) rip e) [
          | inl stale ↦ absurd (no_falloff rip reached stale)
          | inr fell ↦ (h, r, reached, back, fell, refl)
        ]
    Outcomes-FellOff n rip outcome v' bufs' (crashes reached stuck) e = cc

    -- Of a CPU under stage 1 that has no exit reason yet, `run` reports a fall off the image exactly
    -- when the guest, after some number of syscalls below the fuel, stops with an error of the engine
    -- whose text names a read or a fetch that memory permissions forbid, or a read, a fetch or a write of unmapped memory, and the address is RIP then.
    pub run-falloff_iff :
        (fuel rip : ℕ)
        → (result u v s bufs timeout_ms (run u fuel timeout_ms v bufs) ≡ some (ok (falloff rip)))
          ↔ ((n : ℕ) × (h : HookState u) × (e : u.UcError) × (n < fuel)
              × Reaches u v.hook (begun u v s bufs timeout_ms) n h
              × ((u.resume h.engine).0 ≡ returned (error e))
              × NamesFault (u.error_text e)
              × (rip ≡ or_zero (u.reg_read (resumed u h).engine u.rip)))
    unfolding FellOff
    run-falloff_iff fuel rip = (
      λ ran. elim (Option-cases (run u fuel timeout_ms v bufs)) [
        | inl none_back ↦ cc (rw none_back at ran)
        | inr ((outcome, v', bufs'), back) ↦
            let (n, less, course) =
              (run_iff u v s bufs timeout_ms fuel outcome v' bufs' loaded).0 back in
            let same : outcome ≡ ok (falloff rip) = some-injective (rw back at ran) in
            let (h, r, reached, stops, fell, _) =
              Outcomes-FellOff n rip outcome v' bufs' course same in
            (n, h, fell.0, less, reached, stops ∙ ap returned fell.1, fell.2, fell.3)
      ],
      λ (n, h, e, less, reached, stops, off, at).
          let course = reports (error e) reached stops in
          let ran = (run_iff u v s bufs timeout_ms fuel _ _ _ loaded).1 (n, less, course) in
          ap (result u v s bufs timeout_ms) ran
          ∙ ap some (FellOff-report (error e) (resumed u h) rip (e, refl, off, at)),
    )

-- ===== src/Cpu/Run/Reports.antt =====
-- What `run` returns: the reasons for which a guest ended, and what the CPU holds then.
use mathlib.Core.Option.{map}
use win_vpwn.Base.{
  none, panic, ℕ, suc, ◌+◌, ◌-◌, ◌<◌, ◌%◌, List, Option, some, ◌≡◌, ◌⊎◌, refl, ap, ◌∙◌, arith, Done,
  Outcome, ok, pos,
}
use win_vpwn.Trace.{Buffers, TraceSink}
use win_vpwn.Vkernel.Process.{ExitReason, exit}
use win_vpwn.Syscall.Handlers.Stage1.{stage1}
use win_vpwn.Cpu.Engine.{Unicorn, at_syscall, returned, unicorn_guest}
use win_vpwn.Cpu.Vcpu.{Vcpu, VcpuError}
use win_vpwn.Cpu.Hook.{HookState, syscall_hook, read_regs}
use win_vpwn.Cpu.Hook.Effects.{hook-exit}
use win_vpwn.Cpu.Run.{emulate, resumed, report, finish, run, begun, Ran}
use win_vpwn.Cpu.Run.Steps.{Step, syscall, Reaches, here, next, emulate-Reaches, emulate_returned}

module _ (u : Unicorn) (v : Vcpu u) (bufs : Buffers) (timeout_ms : ℕ) where
  pub run_gone : (fuel : ℕ) → v.uc ≡ none → run u fuel timeout_ms v bufs ≡ some (panic, v, bufs)
  unfolding run
  run_gone fuel gone =
      ap {B = Ran u}
        (λ (o : Option u.State). elim o [
          | none ↦ some (panic, v, bufs)
          | some s ↦ finish u v bufs (emulate u fuel v.hook (begun u v s bufs timeout_ms))
        ])
        gone

module _ (u : Unicorn) (v : Vcpu u) (s : u.State) (bufs : Buffers) (timeout_ms : ℕ) where
  pub run_loaded :
      (fuel : ℕ)
      → v.uc ≡ some s
      → run u fuel timeout_ms v bufs
        ≡ finish u v bufs (emulate u fuel v.hook (begun u v s bufs timeout_ms))
  unfolding run
  run_loaded fuel loaded =
      ap {B = Ran u}
        (λ (o : Option u.State). elim o [
          | none ↦ some (panic, v, bufs)
          | some s ↦ finish u v bufs (emulate u fuel v.hook (begun u v s bufs timeout_ms))
        ])
        loaded

  abbrev pub result : Ran u → Option (Outcome VcpuError ExitReason)
  result = map (λ ran. ran.0)

  abbrev pub output_after : Ran u → Option (List ℕ)
  output_after = map (λ ran. ran.1.shared.output)

  -- With a unit of fuel for each syscall of the guest and one more, a run of a guest that comes to
  -- an end returns the report of the state in which it ended.
  pub run-ended :
      {n : ℕ} {h : HookState u} (fuel : ℕ) (r : Outcome u.UcError Done)
      → v.uc ≡ some s
      → Reaches u v.hook (begun u v s bufs timeout_ms) n h
      → (u.resume h.engine).0 ≡ returned r
      → n < fuel
      → run u fuel timeout_ms v bufs
        ≡ some (
          report u r (resumed u h),
          record v { uc = some (u.resume h.engine).1; shared = h.shared },
          h.bufs,
        )
  unfolding finish
  run-ended {n} {h} fuel r loaded reached back enough =
      let left : n + suc (fuel - n - 1) ≡ fuel = omega arith in
      let ends =
        emulate-Reaches u v.hook (suc (fuel - n - 1)) fuel reached left
        ∙ emulate_returned u v.hook (fuel - n - 1) h r back in
      run_loaded fuel loaded ∙ ap (finish u v bufs) ends

  -- A guest under stage 1 whose syscall number `n`, counted from 0, is `exit` or `exit_group` ends
  -- its run there when the engine can be stopped: `run` returns the low byte of its argument, and
  -- the captured output is what it was before that syscall.
  pub run-exit :
      {n : ℕ} {h : HookState u} (fuel : ℕ) (trace : Option TraceSink)
      → v.uc ≡ some s
      → v.hook ≡ stage1 (unicorn_guest u) trace
      → Reaches u v.hook (begun u v s bufs timeout_ms) n h
      → (u.resume h.engine).0 ≡ at_syscall
      → ((read_regs u (resumed u h).engine).syscall_nr ≡ pos 60)
        ⊎ ((read_regs u (resumed u h).engine).syscall_nr ≡ pos 231)
      → (u.emu_stop (resumed u h).engine).0 ≡ ok tt
      → suc n < fuel
      → (result (run u fuel timeout_ms v bufs)
          ≡ some (ok (exit ((read_regs u (resumed u h).engine).arg0 % 256))))
        × (output_after (run u fuel timeout_ms v bufs) ≡ some h.shared.output)
  unfolding report
  run-exit {n} {h} fuel trace loaded stage reached at nr stops enough =
      let step : Step u v.hook h _ =
        syscall at
          (ap (λ d. syscall_hook u d (resumed u h)) stage ∙ hook-exit u trace (resumed u h) nr) in
      let back = u.resume-emu_stop (resumed u h).engine stops in
      let ran = run-ended fuel (ok tt) loaded (next reached step) back enough in
      (ap result ran, ap output_after ran)

  -- The exit reason of an earlier run is not reset: a run in which the guest makes no syscall and
  -- the engine returns without an error reports the earlier reason again.
  pub run-stale :
      (fuel : ℕ) (reason : ExitReason)
      → v.uc ≡ some s
      → v.shared.exit_reason ≡ some reason
      → (u.resume (begun u v s bufs timeout_ms).engine).0 ≡ returned (ok tt)
      → 0 < fuel
      → result (run u fuel timeout_ms v bufs) ≡ some (ok reason)
  unfolding report
  run-stale fuel reason loaded stale back enough =
      let ran = run-ended fuel (ok tt) loaded here back enough in ap result ran ∙ rw stale refl

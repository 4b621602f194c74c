-- ===== src/Cpu/Run/Refined.antt =====
-- `run` under stage 1 does what the description of a whole run says, and nothing else.
use win_vpwn.Base.{
  ℕ, ◌<◌, Bool-cases, Option-cases, Option, some, ◌≡◌, ◌↔◌, inl, inr, refl, sym, subst, Done,
  Outcome, ok, error, panic,
}
use win_vpwn.Trace.{TraceSink, Buffers}
use win_vpwn.Vkernel.Process.{ExitReason}
use win_vpwn.Syscall.Handlers.Stage1.{stage1}
use win_vpwn.Cpu.Engine.{Unicorn, unicorn_guest}
use win_vpwn.Cpu.Vcpu.{Vcpu, VcpuError}
use win_vpwn.Cpu.Hook.{HookState, syscall_hook}
use win_vpwn.Cpu.Run.{run, begun, resumed, report, is_falloff}
use win_vpwn.Cpu.Run.AccessFaults.{is_falloff_iff}
use win_vpwn.Cpu.Run.Steps.{Reaches, here, next, syscall}
use win_vpwn.Cpu.Run.Complete.{Outcomes, reports, crashes, run_iff, Crashes}
use win_vpwn.Cpu.Run.Ideal.{
  Verdict, exits, fails, stops, falls, breaks, dies, Rows, no_row, one_more, Runs, ends, panics,
  set_off,
}
use win_vpwn.Cpu.Run.Rows.{row-ok, row-panic}

module _ (u : Unicorn) where
  Verdict-report :
      (h : HookState u) {r : Outcome u.UcError Done} {result : Outcome VcpuError ExitReason}
      → Verdict u h.shared h.engine r result
      → report u r h ≡ result
  unfolding report
  Verdict-report h (exits e) = rw e refl
  Verdict-report h (fails e f) = rw (e, f) refl
  Verdict-report h (stops e f) = rw (e, f) refl
  Verdict-report h (falls x named) = rw ((is_falloff_iff (u.error_text x)).1 named) refl
  Verdict-report h (breaks x unnamed) = elim (Bool-cases (is_falloff (u.error_text x))) [
    | inl off ↦ absurd (unnamed ((is_falloff_iff (u.error_text x)).0 off))
    | inr other ↦ rw other refl
  ]
  Verdict-report h dies = refl

  of_report :
      (h : HookState u) {r : Outcome u.UcError Done} {result : Outcome VcpuError ExitReason}
      → Verdict u h.shared h.engine r result
      → Verdict u h.shared h.engine r (report u r h)
  of_report h {r} said = subst (Verdict u h.shared h.engine r) (sym (Verdict-report h said)) said

  report-Verdict :
      (r : Outcome u.UcError Done) (h : HookState u) → Verdict u h.shared h.engine r (report u r h)
  report-Verdict (ok done) h = elim (Option-cases h.shared.exit_reason) [
    | inr (reason, e) ↦ of_report h (exits e)
    | inl e ↦ elim (Option-cases h.shared.engine_error) [
      | inr (msg, f) ↦ of_report h (fails e f)
      | inl f ↦ of_report h (stops e f)
    ]
  ]
  report-Verdict (error x) h = elim (Bool-cases (is_falloff (u.error_text x))) [
    | inl off ↦ of_report h (falls x ((is_falloff_iff (u.error_text x)).0 off))
    | inr other ↦
        of_report h (breaks x λ named. cc ((is_falloff_iff (u.error_text x)).1 named, other))
  ]
  report-Verdict panic h = of_report h dies

  module _ (trace : Option TraceSink) where
    Reaches-Rows :
        (h : HookState u) {n : ℕ} {h' : HookState u}
        → Reaches u (stage1 (unicorn_guest u) trace) h n h'
        → Rows u trace h n h'
    Reaches-Rows h here = no_row
    Reaches-Rows h (next {h'} {h''} reached (syscall at hooked)) =
        one_more (Reaches-Rows h reached) at ((row-ok u trace (resumed u h') h'').0 hooked)

    Rows-Reaches :
        (h : HookState u) {n : ℕ} {h' : HookState u}
        → Rows u trace h n h'
        → Reaches u (stage1 (unicorn_guest u) trace) h n h'
    Rows-Reaches h no_row = here
    Rows-Reaches h (one_more {n} {g} {g'} rows at there) =
        next (Rows-Reaches h rows) (syscall at ((row-ok u trace (resumed u g) g').1 there))

    module _ (v : Vcpu u) (s : u.State) (bufs : Buffers) (timeout_ms : ℕ)
        (stage : v.hook ≡ stage1 (unicorn_guest u) trace) where
      staged :
          {n : ℕ} {h : HookState u}
          → Reaches u v.hook (begun u v s bufs timeout_ms) n h
          → Rows u trace (set_off u trace v s bufs timeout_ms) n h
      staged {n} {h} reached =
          Reaches-Rows _ (subst (λ d. Reaches u d (begun u v s bufs timeout_ms) n h) stage reached)

      unstaged :
          {n : ℕ} {h : HookState u}
          → Rows u trace (set_off u trace v s bufs timeout_ms) n h
          → Reaches u v.hook (begun u v s bufs timeout_ms) n h
      unstaged {n} {h} rows =
          subst (λ d. Reaches u d (begun u v s bufs timeout_ms) n h) (sym stage)
            (Rows-Reaches _ rows)

      Outcomes-Runs :
          (n : ℕ) (result : Outcome VcpuError ExitReason) (v' : Vcpu u) (bufs' : Buffers)
          → Outcomes u v s bufs timeout_ms n result v' bufs'
          → Runs u trace v s bufs timeout_ms n result v' bufs'
      unfolding Crashes
      Outcomes-Runs n result v' bufs' (reports {h} r reached back) =
          ends (staged reached) back (report-Verdict r (resumed u h))
      Outcomes-Runs n result v' bufs' (crashes {h} reached (at, stuck)) =
          panics (staged reached) at (
            (row-panic u trace (resumed u h)).0
              (subst (λ d. syscall_hook u d (resumed u h) ≡ panic) stage stuck))

      Runs-Outcomes :
          (n : ℕ) (result : Outcome VcpuError ExitReason) (v' : Vcpu u) (bufs' : Buffers)
          → Runs u trace v s bufs timeout_ms n result v' bufs'
          → Outcomes u v s bufs timeout_ms n result v' bufs'
      unfolding Crashes
      Runs-Outcomes n result v' bufs' (ends {h} {r} rows back said) =
          subst
            (λ res.
              Outcomes u v s bufs timeout_ms n res
                (record v { uc = some (u.resume h.engine).1; shared = h.shared }) h.bufs)
            (Verdict-report (resumed u h) said) (reports r (unstaged rows) back)
      Runs-Outcomes n result v' bufs' (panics {h} rows at stuck) = crashes (unstaged rows) (
        at,
        subst (λ d. syscall_hook u d (resumed u h) ≡ panic) (sym stage)
            ((row-panic u trace (resumed u h)).1 stuck),
      )

      -- A run of a CPU with an engine and the handlers of stage 1 returns exactly what the
      -- description of a run gives with fewer syscalls than the fuel. It sets off at RIP without
      -- bounds; each syscall is a row of a table on the registers, read one by one; when the
      -- engine returns, the result is the exit reason, else the fault, else a stop, or for an
      -- error of the engine a fall off the image or an execution error, and the CPU and the trace
      -- are those of the end; a row without a state, or a panic of the engine, is a panic.
      pub run-Runs_iff :
          (fuel : ℕ) (result : Outcome VcpuError ExitReason) (v' : Vcpu u) (bufs' : Buffers)
          → v.uc ≡ some s
          → (run u fuel timeout_ms v bufs ≡ some (result, v', bufs'))
            ↔ ((n : ℕ) × (n < fuel) × Runs u trace v s bufs timeout_ms n result v' bufs')
      run-Runs_iff fuel result v' bufs' loaded = (
        λ ran.
            let (n, less, course) =
              (run_iff u v s bufs timeout_ms fuel result v' bufs' loaded).0 ran in
            (n, less, Outcomes-Runs n result v' bufs' course),
        λ (n, less, runs).
            (run_iff u v s bufs timeout_ms fuel result v' bufs' loaded).1
              (n, less, Runs-Outcomes n result v' bufs' runs),
      )

-- ===== src/Python/Fallen.antt =====
-- When `run_elf` reports that the guest fell off its image.
use mathlib.Core.Option.{map as map_option}
use win_vpwn.Base.{
  ℕ, ◌<◌, List, Option-cases, none, some, some-injective, codes, ◌≡◌, ◌↔◌, refl, sym, ap, subst,
  ◌∙◌, Outcome, ok, error, panic, inl, inr,
}
use win_vpwn.Trace.{Buffers, TraceSink, TraceRecord, drain}
use win_vpwn.Vkernel.Process.{ExitReason, exit, falloff, stopped}
use win_vpwn.Syscall.Dispatch.{set_trace}
use win_vpwn.Syscall.Handlers.Stage1.{stage1}
use win_vpwn.Elf.Format.{Goblin}
use win_vpwn.Cpu.Engine.{Unicorn, returned, unicorn_guest}
use win_vpwn.Cpu.Vcpu.{Vcpu, VcpuError, SharedState, output}
use win_vpwn.Cpu.Hook.{HookState, or_zero}
use win_vpwn.Cpu.Run.{resumed, run, begun}
use win_vpwn.Cpu.Run.AccessFaults.{NamesFault}
use win_vpwn.Cpu.Run.Steps.{Reaches}
use win_vpwn.Cpu.Run.Complete.{reports, run_iff}
use win_vpwn.Cpu.Run.Falloff.{Outcomes-FellOff, FellOff, FellOff-report}
use win_vpwn.Python.{RunResult, run_elf, run_booted, collect, run_result, boot}
use win_vpwn.Python.Boot.{boot-hook}

-- The dict of a guest that fell off its image.
abbrev pub fell_off : ℕ → List ℕ → List TraceRecord → RunResult
fell_off rip out records = record {
  exit = codes "falloff";
  code = none;
  rip = some rip;
  output = out;
  trace = records;
}

module _ (u : Unicorn) (goblin : Goblin) (sink : TraceSink) where
  collect-falloff :
      (rip : ℕ) (out : List ℕ) (records : List TraceRecord) (outcome : Outcome VcpuError ExitReason)
      (v : Vcpu u) (bufs : Buffers)
      → collect u goblin sink (outcome, v, bufs) ≡ ok (fell_off rip out records)
      → (outcome ≡ ok (falloff rip)) × (v.shared.output ≡ out)
  unfolding collect run_result output
  collect-falloff rip out records (ok (exit code)) v bufs h = cc
  collect-falloff rip out records (ok (falloff at)) v bufs h = (cc, cc)
  collect-falloff rip out records (ok stopped) v bufs h = cc
  collect-falloff rip out records (error e) v bufs h = cc
  collect-falloff rip out records panic v bufs h = cc

  module _ (fuel timeout_ms : ℕ) (bufs : Buffers) (image : List ℕ) (v : Vcpu u) (s : u.State)
      (booted : boot u goblin image sink ≡ ok v) (loaded : v.uc ≡ some s) where
    pub stage : v.hook ≡ stage1 (unicorn_guest u) (some sink)
    unfolding set_trace
    stage = (boot-hook u goblin image sink v booted).0

    before : v.shared.exit_reason ≡ none
    before = ap (λ (t : SharedState). t.exit_reason) (boot-hook u goblin image sink v booted).1

    pub run_elf-booted :
        run_elf u goblin fuel sink bufs image timeout_ms
        ≡ map_option (collect u goblin sink) (run u fuel timeout_ms v bufs)
    unfolding run_elf run_booted
    run_elf-booted = ap (λ b. run_booted u goblin fuel timeout_ms sink bufs b) booted

    -- Of an image that `run_elf` has set up, the dict reports a fall off the image exactly when the
    -- guest, after some number of syscalls of stage 1 below the fuel, stops with an error of the
    -- engine whose text names a read or a fetch that memory permissions forbid, or a read, a fetch or a write of unmapped memory: the dict has RIP as it is then, and
    -- the output captured before.
    pub run_elf-falloff_iff :
        (rip : ℕ) (out : List ℕ)
        → ((records : List TraceRecord) × (run_elf u goblin fuel sink bufs image timeout_ms
              ≡ some (ok (fell_off rip out records))))
          ↔ ((n : ℕ) × (h : HookState u) × (e : u.UcError) × (n < fuel)
              × Reaches u (stage1 (unicorn_guest u) (some sink)) (begun u v s bufs timeout_ms) n h
              × ((u.resume h.engine).0 ≡ returned (error e))
              × NamesFault (u.error_text e)
              × (rip ≡ or_zero (u.reg_read (resumed u h).engine u.rip))
              × (out ≡ h.shared.output))
    unfolding FellOff collect run_result output drain
    run_elf-falloff_iff rip out = (
      λ (records, ran). elim (Option-cases (run u fuel timeout_ms v bufs)) [
        | inl none_back ↦
            cc
              (sym (ap (map_option (collect u goblin sink)) none_back) ∙ (sym run_elf-booted ∙ ran))
        | inr ((outcome, v', bufs'), back) ↦
            let (n, less, course) =
              (run_iff u v s bufs timeout_ms fuel outcome v' bufs' loaded).0 back in
            let collected =
              some-injective
                (sym (ap (map_option (collect u goblin sink)) back) ∙ sym run_elf-booted ∙ ran) in
            let (same, kept) = collect-falloff rip out records outcome v' bufs' collected in
            let (h, r, reached, stops, fell, shared) =
              Outcomes-FellOff u (some sink) v s bufs timeout_ms loaded stage before n rip outcome
                v' bufs' course same in
            (
              n,
              h,
              fell.0,
              less,
              subst (λ d. Reaches u d (begun u v s bufs timeout_ms) n h) stage reached,
              stops ∙ ap returned fell.1,
              fell.2,
              fell.3,
              sym kept ∙ ap (λ (t : SharedState). t.output) shared,
            )
      ],
      λ (n, h, e, less, reached, stops, off, at, kept).
          let reached' =
            subst (λ d. Reaches u d (begun u v s bufs timeout_ms) n h) (sym stage) reached in
          let course = reports (error e) reached' stops in
          let ran = (run_iff u v s bufs timeout_ms fuel _ _ _ loaded).1 (n, less, course) in
          let report = FellOff-report u (error e) (resumed u h) rip (e, refl, off, at) in
          (
            h.bufs sink,
            run_elf-booted ∙ ap (map_option (collect u goblin sink)) ran ∙ rw (report, kept) refl,
          ),
    )

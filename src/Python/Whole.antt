-- ===== src/Python/Whole.antt =====
-- What `run_elf` returns for a whole run: from the image, through the guest's syscalls, to the dict.
use mathlib.Core.Option.{map as map_option}
use win_vpwn.Base.{
  ℕ, suc, ◌<◌, ◌%◌, List, none, some, some-injective, codes, ◌++◌, ◌≡◌, refl, sym, ap, ◌∙◌, ◌⊎◌,
  subst, ok, pos,
}
use win_vpwn.Trace.{Buffers, TraceSink, TraceRecord, drain}
use win_vpwn.Vkernel.Process.{exit}
use win_vpwn.Syscall.Dispatch.{set_trace}
use win_vpwn.Syscall.Handlers.Stage1.{stage1}
use win_vpwn.Elf.Format.{Goblin}
use win_vpwn.Cpu.Engine.{Unicorn, at_syscall, unicorn_guest}
use win_vpwn.Cpu.Vcpu.{Vcpu, SharedState, output}
use win_vpwn.Cpu.Hook.{HookState, read_regs}
use win_vpwn.Cpu.Run.{resumed, run, begun, Ran}
use win_vpwn.Cpu.Run.Steps.{Reaches}
use win_vpwn.Cpu.Run.Reports.{run-exit}
use win_vpwn.Cpu.Run.Observed.{written}
use win_vpwn.Cpu.Run.Replayed.{effects, Reaches_refines}
use win_vpwn.Python.{RunResult, run_elf, run_booted, collect, run_result, boot}
use win_vpwn.Python.Boot.{boot-hook}

-- The dict of a guest that ended with a code.
abbrev pub exited_with : ℕ → List ℕ → List TraceRecord → RunResult
exited_with code out records = record {
  exit = codes "exit";
  code = some code;
  rip = none;
  output = out;
  trace = records;
}

module _ (u : Unicorn) (goblin : Goblin) (sink : TraceSink) where
  collect-exit :
      (code : ℕ) (out : List ℕ) (ran : Ran u)
      → map_option (λ r. r.0) ran ≡ some (ok (exit code))
      → map_option (λ r. r.1.shared.output) ran ≡ some out
      → (records : List TraceRecord) × (map_option (collect u goblin sink) ran
          ≡ some (ok (exited_with code out records)))
  collect-exit code out none ended wrote = cc
  collect-exit code out (some (reason, v', bufs')) ended wrote =
      let same : reason ≡ ok (exit code) = some-injective ended in
      let kept : output u v' ≡ out = unfold output in some-injective wrote in
      (bufs' sink, unfold collect run_result drain in rw (same, kept) refl)

  module _ (fuel timeout_ms : ℕ) (bufs : Buffers) (image : List ℕ) where
    -- A guest that the setup started, that after `n` syscalls of stage 1 makes an `exit` or
    -- `exit_group`, ends `run_elf` when the engine can be stopped and the fuel is more than `n + 1`:
    -- the dict has the low byte of the argument as the code, and as the output exactly what the
    -- writes among the `n` syscalls captured, in order.
    pub run_elf-exit :
        (v : Vcpu u) (s : u.State) {n : ℕ} {h : HookState u}
        (r : Reaches u (stage1 (unicorn_guest u) (some sink)) (begun u v s bufs timeout_ms) n h)
        → boot u goblin image sink ≡ ok v
        → v.uc ≡ some s
        → (u.resume h.engine).0 ≡ at_syscall
        → ((read_regs u (resumed u h).engine).syscall_nr ≡ pos 60)
          ⊎ ((read_regs u (resumed u h).engine).syscall_nr ≡ pos 231)
        → (u.emu_stop (resumed u h).engine).0 ≡ ok tt
        → suc n < fuel
        → (records : List TraceRecord) × (run_elf u goblin fuel sink bufs image timeout_ms
            ≡ some (
                ok (
                  exited_with
                    ((read_regs u (resumed u h).engine).arg0 % 256)
                    (written (effects u (some sink) r))
                    records)))
    unfolding run_elf run_booted
    run_elf-exit v s {n} {h} r booted loaded at nr stops enough =
        let (hook, shared) = boot-hook u goblin image sink v booted in
        let stage : v.hook ≡ stage1 (unicorn_guest u) (some sink) = unfold set_trace in hook in
        let r' = subst (λ d. Reaches u d (begun u v s bufs timeout_ms) n h) (sym stage) r in
        let (ended, wrote) =
          run-exit u v s bufs timeout_ms fuel (some sink) loaded stage r' at nr stops enough in
        let out =
          (Reaches_refines u (some sink) (begun u v s bufs timeout_ms) r).1
          ∙ ap (λ (w : SharedState). w.output ++ written (effects u (some sink) r)) shared in
        let (records, end) =
          collect-exit _ _ (run u fuel timeout_ms v bufs) ended (wrote ∙ ap some out) in
        (records, ap (λ b. run_booted u goblin fuel timeout_ms sink bufs b) booted ∙ end)

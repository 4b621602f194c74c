-- ===== src/Python/Logged.antt =====
-- The trace in the dict of a guest that exits.
use mathlib.Core.Option.{map as map_option}
use win_vpwn.Base.{
  ℕ, suc, ◌<◌, ◌%◌, List, [], ◌++◌, map, Option, some, ◌≡◌, refl, sym, ap, subst, ◌∙◌, ◌⊎◌, Outcome,
  ok, Text, pos,
}
use win_vpwn.Trace.{SyscallOutcome, Buffers, TraceSink, TraceRecord, drain}
use win_vpwn.Trace.Histories.{unnumbered}
use win_vpwn.Vkernel.Process.{exit}
use win_vpwn.Syscall.Handlers.Stage1.{stage1}
use win_vpwn.Elf.Format.{Goblin}
use win_vpwn.Cpu.Engine.{Unicorn, at_syscall, unicorn_guest}
use win_vpwn.Cpu.Vcpu.{Vcpu}
use win_vpwn.Cpu.Hook.{HookState, read_regs}
use win_vpwn.Cpu.Hook.Effects.{hook-exit, regs, traced, exit_name}
use win_vpwn.Cpu.Run.{resumed, begun, report}
use win_vpwn.Cpu.Run.Steps.{Reaches, syscall, next}
use win_vpwn.Cpu.Run.Reports.{run-ended}
use win_vpwn.Cpu.Run.Observed.{written}
use win_vpwn.Cpu.Run.Replayed.{effects}
use win_vpwn.Cpu.Run.Recorded.{recorded, lines, entry_at, Reaches-recorded}
use win_vpwn.Python.{RunResult, run_elf, collect, run_result, boot}
use win_vpwn.Python.Fallen.{stage, run_elf-booted}
use win_vpwn.Python.Whole.{exited_with, run_elf-exit}

abbrev trace_of : Option (Outcome Text RunResult) → List TraceRecord
trace_of (some (ok dict)) = dict.trace
trace_of _ = []

-- What the hook leaves at an `exit` or `exit_group`.
abbrev after_exit : (u : Unicorn) → TraceSink → HookState u → HookState u
after_exit u sink h =
    let reason = exit ((regs u (some sink) h).arg0 % 256) in
    record {
      engine = (u.emu_stop h.engine).1;
      shared = record h.shared { exit_reason = some reason };
      bufs = traced u (some sink) h (exit_name u (some sink) h) (SyscallOutcome.exit reason);
    }

module _ (u : Unicorn) (goblin : Goblin) (sink : TraceSink) where
  -- A guest that the setup started, that after `n` syscalls of stage 1 makes an `exit` or
  -- `exit_group`, ends `run_elf` when the engine can be stopped, the fuel is more than `n + 1` and the
  -- sink is empty at the start: the dict has the low byte of the argument as the code, as the output
  -- exactly what the writes among the `n` syscalls captured, in order, and as the trace, numbers
  -- aside, exactly the records of the `n` syscalls and of the last, in order.
  pub run_elf-exit_recorded :
      (fuel timeout_ms : ℕ) (bufs : Buffers) (image : List ℕ) (v : Vcpu u) (s : u.State) {n : ℕ}
      {h : HookState u}
      (r : Reaches u (stage1 (unicorn_guest u) (some sink)) (begun u v s bufs timeout_ms) n h)
      → bufs sink ≡ []
      → boot u goblin image sink ≡ ok v
      → v.uc ≡ some s
      → (u.resume h.engine).0 ≡ at_syscall
      → ((read_regs u (resumed u h).engine).syscall_nr ≡ pos 60)
        ⊎ ((read_regs u (resumed u h).engine).syscall_nr ≡ pos 231)
      → (u.emu_stop (resumed u h).engine).0 ≡ ok tt
      → suc n < fuel
      → (records : List TraceRecord) × (run_elf u goblin fuel sink bufs image timeout_ms
          ≡ some (
              ok (
                exited_with
                  ((read_regs u (resumed u h).engine).arg0 % 256)
                  (written (effects u (some sink) r))
                  records)))
        × (map unnumbered records
            ≡ recorded u sink r
              ++ lines (read_regs u (resumed u h).engine) (entry_at u (resumed u h)))
  unfolding collect run_result report drain recorded
  run_elf-exit_recorded fuel timeout_ms bufs image v s {n} {h} r empty booted loaded at nr stops
        enough =
      let (records, whole) =
        run_elf-exit u goblin sink fuel timeout_ms bufs image v s r booted loaded at nr stops
          enough in
      let all = next r (syscall at (hook-exit u (some sink) (resumed u h) nr)) in
      let hook = stage u goblin sink fuel timeout_ms bufs image v s booted loaded in
      let all' =
        subst
          (λ d. Reaches u d (begun u v s bufs timeout_ms) (suc n) (after_exit u sink (resumed u h)))
          (sym hook) all in
      let back = u.resume-emu_stop (resumed u h).engine stops in
      let ran = run-ended u v s bufs timeout_ms fuel (ok tt) loaded all' back enough in
      let booted_run = run_elf-booted u goblin sink fuel timeout_ms bufs image v s booted loaded in
      let same =
        ap trace_of (sym whole ∙ booted_run ∙ ap (map_option (collect u goblin sink)) ran) in
      (
        records,
        whole,
        ap (map unnumbered) same
            ∙ Reaches-recorded u sink (begun u v s bufs timeout_ms) all
            ∙ rw empty refl,
      )

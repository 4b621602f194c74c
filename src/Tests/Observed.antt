-- ===== src/Tests/Observed.antt =====
-- What the owner of the test machine observes of its syscalls and of its run.
use win_vpwn.Trace.Histories.{unnumbered}
use win_vpwn.Cpu.Run.Recorded.{recorded, Reaches-recorded}
use win_vpwn.Base.{map, ℕ, suc, ◌<◌, ◌%◌, pos, ◌⊎◌, ◌++◌, some, ◌≡◌, refl, ok, arith}
use win_vpwn.Vkernel.Process.{exit}
use win_vpwn.Cpu.Engine.{at_syscall}
use win_vpwn.Cpu.Hook.{HookState, syscall_hook, read_regs}
use win_vpwn.Cpu.Run.{run, resumed, report}
use win_vpwn.Cpu.Run.Steps.{Reaches}
use win_vpwn.Cpu.Run.Reports.{run-ended}
use win_vpwn.Cpu.Run.Exited.{run-exit_only}
use win_vpwn.Cpu.Run.Observed.{observed, performed, effect_at, performs, written, hook_refines}
use win_vpwn.Cpu.Run.Replayed.{effects, Reaches_refines}
use win_vpwn.Tests.Guest.{unicorn, engine, no_records, cpu, start, at_write, table, after_write}
use win_vpwn.Tests.Runs.{wrote, exited, after_exit}

hook_refines_example :
    observed unicorn (some 0) (syscall_hook unicorn table at_write)
    ≡ performed (effect_at unicorn (some 0) at_write) at_write.shared
hook_refines_example = hook_refines unicorn (some 0) at_write

Reaches_refines_example :
    (after_write.shared ≡ performs (effects unicorn (some 0) wrote) start.shared)
    × (after_write.shared.output ≡ start.shared.output ++ written (effects unicorn (some 0) wrote))
Reaches_refines_example = Reaches_refines unicorn (some 0) start wrote

-- The code is 0x12a modulo 256.
ran_to_42 :
    run unicorn 3 0 cpu no_records
    ≡ some (
      ok (exit 42),
      record cpu { uc = some (unicorn.resume after_exit.engine).1; shared = after_exit.shared },
      after_exit.bufs,
    )
unfolding report read_regs
ran_to_42 = run-ended unicorn cpu engine no_records 0 3 (ok tt) refl exited refl (omega arith)

run-exit_only_example :
    (m : ℕ) × (h : HookState unicorn) × (suc m < 3)
    × Reaches unicorn table start m h
    × ((unicorn.resume h.engine).0 ≡ at_syscall)
    × (((read_regs unicorn (resumed unicorn h).engine).syscall_nr ≡ pos 60)
        ⊎ ((read_regs unicorn (resumed unicorn h).engine).syscall_nr ≡ pos 231))
    × (42 ≡ (read_regs unicorn (resumed unicorn h).engine).arg0 % 256)
run-exit_only_example =
    run-exit_only unicorn (some 0) cpu no_records 3 0 42 engine _ _ refl refl refl ran_to_42

Reaches-recorded_example :
    map unnumbered (after_exit.bufs 0) ≡ map unnumbered (start.bufs 0) ++ recorded unicorn 0 exited
Reaches-recorded_example = Reaches-recorded unicorn 0 start exited

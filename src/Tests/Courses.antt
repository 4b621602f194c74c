-- ===== src/Tests/Courses.antt =====
-- The course of the guest of the test machine, and the runs that follow it.
use win_vpwn.Base.{ℕ, some, ◌≡◌, ◌↔◌, ◌<◌, refl, ok}
use win_vpwn.Vkernel.Process.{exit}
use win_vpwn.Cpu.Vcpu.{Vcpu}
use win_vpwn.Cpu.Hook.{syscall_hook}
use win_vpwn.Cpu.Hook.Flat.{flat_hook, hook-flat}
use win_vpwn.Cpu.Run.{run}
use win_vpwn.Cpu.Run.Ideal.{Runs}
use win_vpwn.Cpu.Run.Refined.{run-Runs_iff}
use win_vpwn.Tests.Guest.{unicorn, engine, no_records, cpu, at_write, table}
use win_vpwn.Tests.Runs.{after_exit}

hook-flat_example : syscall_hook unicorn table at_write ≡ flat_hook unicorn (some 0) at_write
hook-flat_example = hook-flat unicorn (some 0) at_write

abbrev last_cpu : Vcpu unicorn
last_cpu = record cpu { uc = some (unicorn.resume after_exit.engine).1; shared = after_exit.shared }

run-Runs_iff_example :
    (run unicorn 3 0 cpu no_records ≡ some (ok (exit 42), last_cpu, after_exit.bufs)) ↔ (
      (n : ℕ) × (n < 3)
      × Runs unicorn (some 0) cpu engine no_records 0 n (ok (exit 42)) last_cpu after_exit.bufs)
run-Runs_iff_example =
    run-Runs_iff unicorn (some 0) cpu engine no_records 0 refl 3 (ok (exit 42)) last_cpu
      after_exit.bufs refl

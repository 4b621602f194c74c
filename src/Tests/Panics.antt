-- ===== src/Tests/Panics.antt =====
-- A guest of the test machine that asks to write 2^63 bytes.
use win_vpwn.Base.{
  ℕ, ◌^◌, pos, List, [], ◌∷◌, true, false, ◌||◌, none, some, ◌≡◌, refl, panic, eq_ℤ, isize_max, ◌<◌,
  arith,
}
use win_vpwn.Memory.{empty_map}
use win_vpwn.Trace.{Buffers}
use win_vpwn.Syscall.Handlers.Stage1.{stage1}
use win_vpwn.Cpu.Engine.{Unicorn, unicorn_guest}
use win_vpwn.Cpu.Vcpu.{Vcpu, new_shared}
use win_vpwn.Cpu.Hook.{HookState, read_regs}
use win_vpwn.Cpu.Hook.Effects.{regs, fd}
use win_vpwn.Cpu.Run.{run, begun, resumed}
use win_vpwn.Cpu.Run.Steps.{here}
use win_vpwn.Cpu.Run.Panics.{run-write_huge}
use win_vpwn.Tests.Machine.{Machine, machine}

abbrev huge_write : List (ℕ × ℕ × ℕ × ℕ)
huge_write = (1, 1, 0x2000, 2 ^ 63) ∷ []

abbrev unicorn : Unicorn
unicorn = machine huge_write

abbrev engine : Machine
engine = record { regs = λ r. 0; program = huge_write; halted = false }

abbrev no_records : Buffers
no_records sink = []

abbrev cpu : Vcpu unicorn
cpu = record {
  uc = some engine;
  shared = new_shared;
  map = empty_map;
  regions = [];
  hook = stage1 (unicorn_guest unicorn) none;
}

abbrev at_write : HookState unicorn
at_write = resumed unicorn (begun unicorn cpu engine no_records 0)

is_write : (regs unicorn none at_write).syscall_nr ≡ pos 1
unfolding read_regs
is_write = refl

to_stdout :
    (eq_ℤ (fd unicorn none at_write) (pos 1) || eq_ℤ (fd unicorn none at_write) (pos 2)) ≡ true
unfolding read_regs
to_stdout = refl

is_huge : isize_max < (regs unicorn none at_write).arg2
unfolding read_regs
is_huge = omega arith

run-write_huge_example : run unicorn 1 0 cpu no_records ≡ some (panic, cpu, no_records)
run-write_huge_example =
    run-write_huge unicorn none cpu engine no_records 0 1 refl refl here refl is_write to_stdout
      is_huge (omega arith)

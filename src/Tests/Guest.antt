-- ===== src/Tests/Guest.antt =====
-- A guest of the test machine: it writes two bytes and exits with 0x12a.
use win_vpwn.Base.{ℕ, pos, List, [], ◌∷◌, true, false, some, codes, ◌≡◌, refl, ok, eq_ℤ, ◌||◌}
use win_vpwn.Memory.{empty_map}
use win_vpwn.Trace.{SyscallOutcome, Buffers}
use win_vpwn.Vkernel.Guest.{zeroed}
use win_vpwn.Syscall.Dispatch.{Dispatch}
use win_vpwn.Syscall.Handlers.Stage1.{stage1}
use win_vpwn.Cpu.Engine.{Unicorn, unicorn_guest, guest_read}
use win_vpwn.Cpu.Vcpu.{Vcpu, new_shared}
use win_vpwn.Cpu.Hook.{HookState, read_regs}
use win_vpwn.Cpu.Hook.Effects.{traced, regs, fd}
use win_vpwn.Cpu.Run.{begun, resumed}
use win_vpwn.Tests.Machine.{Machine, machine}

abbrev pub calls : List (ℕ × ℕ × ℕ × ℕ)
calls = (1, 1, 0x2000, 2) ∷ (60, 0x12a, 0, 0) ∷ []

abbrev pub unicorn : Unicorn
unicorn = machine calls

abbrev pub engine : Machine
engine = record { regs = λ r. 0; program = calls; halted = false }

abbrev pub no_records : Buffers
no_records sink = []

abbrev pub cpu : Vcpu unicorn
cpu = record {
  uc = some engine;
  shared = new_shared;
  map = empty_map;
  regions = [];
  hook = stage1 (unicorn_guest unicorn) (some 0);
}

abbrev pub start : HookState unicorn
start = begun unicorn cpu engine no_records 0

-- The guest at its first syscall, the `write`.
abbrev pub at_write : HookState unicorn
at_write = resumed unicorn start

abbrev pub table : Dispatch Machine
table = stage1 (unicorn_guest unicorn) (some 0)

abbrev pub after_write : HookState unicorn
after_write = record {
  engine = (unicorn.reg_write at_write.engine 0 2).1;
  shared = record new_shared { output = b'A' ∷ b'A' ∷ [] };
  bufs = traced unicorn (some 0) at_write (codes "write") (SyscallOutcome.return (pos 2));
}

pub nr_at_write : (read_regs unicorn at_write.engine).syscall_nr ≡ pos 1
unfolding read_regs
nr_at_write = refl

pub len_at_write : (read_regs unicorn at_write.engine).arg2 ≡ 2
unfolding read_regs
len_at_write = refl

pub writes_out :
    (eq_ℤ (fd unicorn (some 0) at_write) (pos 1) || eq_ℤ (fd unicorn (some 0) at_write) (pos 2))
    ≡ true
unfolding read_regs
writes_out = refl

pub reads_two :
    guest_read unicorn at_write.engine
      (regs unicorn (some 0) at_write).arg1
      (regs unicorn (some 0) at_write).arg2
    ≡ ok (b'A' ∷ b'A' ∷ [])
unfolding read_regs guest_read zeroed
reads_two = refl

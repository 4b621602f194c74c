-- ===== src/Tests/Whole.antt =====
-- `run_elf` of an image on the test machine.
use win_vpwn.Base.{
  pos, true, ◌||◌, eq_ℤ, ◌+◌, ◌-◌, ◌%◌, List, [], ◌∷◌, ◌++◌, map, some, codes, ◌≡◌, ◌↔◌, inl, refl,
  ok, error, arith,
}
use win_vpwn.Memory
use win_vpwn.Trace.{SyscallOutcome, TraceRecord}
use win_vpwn.Vkernel.Guest.{zeroed}
use win_vpwn.Syscall.Dispatch.{register, set_trace}
use win_vpwn.Syscall.Handlers.{register_all}
use win_vpwn.Elf.{
  load_elf, load_parsed, load_segments, pt_loads, claim, read_contents, copy_to_front, file_bytes,
  slice_to,
}
use win_vpwn.Elf.Magic.{BeginsElf, bad_magic}
use win_vpwn.Python.Refused.{run_elf-not_elf_iff}
use win_vpwn.Cpu.Engine.{guest_read}
use win_vpwn.Cpu.Vcpu.{
  Vcpu, new_shared, new_vcpu, map_elf, map_segments, map_segment, engine_present, claim_range,
  call_engine, page_start, pages_size, map_stack, map_memory, setup_initial_state, stack_base,
  stack_size,
}
use win_vpwn.Cpu.Hook.{HookState, read_regs}
use win_vpwn.Cpu.Hook.Effects.{hook-write, traced, regs, fd}
use win_vpwn.Cpu.Run.{begun, resumed}
use win_vpwn.Cpu.Run.Steps.{Reaches, here, next, syscall}
use win_vpwn.Cpu.Run.Observed.{written}
use win_vpwn.Cpu.Run.Replayed.{effects}
use win_vpwn.Python.{boot, run_elf, run_dispatch, parse_elf}
use win_vpwn.Python.Boot.{boot-IsReady}
use win_vpwn.Python.Whole.{exited_with}
use win_vpwn.Python.Logged.{run_elf-exit_recorded}
use win_vpwn.Cpu.Run.Recorded.{recorded, lines, entry_at}
use win_vpwn.Trace.Histories.{unnumbered}
use win_vpwn.Tests.Images.{image, file, loaded, loads}
use win_vpwn.Tests.Machine.{Machine, parser, set_reg}
use win_vpwn.Tests.Guest.{unicorn, engine, no_records, cpu, table}

-- The machine after the setup: the stack pointer and the entry point.
abbrev set_up_engine : Machine
set_up_engine = record engine {
  regs = set_reg (set_reg (λ r. 0) 8 (stack_base + stack_size - 0x20)) 7 0x400000;
}

abbrev ready : Vcpu unicorn
ready = record cpu {
  uc = some set_up_engine;
  map = record {
    regions =
        record { base = 0x400000; size = 0x1000; prot = 5 }
        ∷ record { base = stack_base; size = stack_size; prot = 0 }
        ∷ [];
  };
  regions = (0x400000, 0x1000, 5) ∷ (stack_base, stack_size, 0) ∷ [];
}

boots : boot unicorn (parser file) image 0 ≡ ok ready
unfolding boot load_elf load_parsed load_segments pt_loads claim Memory.insert read_contents zeroed
    copy_to_front new_vcpu register_all register set_trace map_elf engine_present map_segments
    map_segment claim_range call_engine page_start pages_size file_bytes slice_to map_stack
    map_memory setup_initial_state
boots = refl

boot-IsReady_example :
    (ready.hook ≡ run_dispatch unicorn (parser file) 0)
    × (ready.shared ≡ new_shared)
    × ((s : Machine) × (ready.uc ≡ some s)
        × (unicorn.reg_read s unicorn.rip ≡ ok 0x400000)
        × (unicorn.reg_read s unicorn.rsp ≡ ok (stack_base + stack_size - 0x20)))
boot-IsReady_example =
    boot-IsReady unicorn (parser file) image 0 loaded ready loads (omega arith) boots

run_elf-not_elf_iff_example :
    ((run_elf unicorn (parser file) 3 0 no_records (1 ∷ 2 ∷ []) 0 ≡ some (error bad_magic))
      ↔ (¬ BeginsElf (1 ∷ 2 ∷ [])))
    × ((parse_elf (parser file) (1 ∷ 2 ∷ []) ≡ error bad_magic) ↔ (¬ BeginsElf (1 ∷ 2 ∷ [])))
run_elf-not_elf_iff_example =
    run_elf-not_elf_iff (parser file) (1 ∷ 2 ∷ []) unicorn 0 3 0 no_records

abbrev at_entry : HookState unicorn
at_entry = begun unicorn ready set_up_engine no_records 0

-- The guest of the image at its first syscall, the `write`.
abbrev at_first : HookState unicorn
at_first = resumed unicorn at_entry

nr_at_first : (read_regs unicorn at_first.engine).syscall_nr ≡ pos 1
unfolding read_regs
nr_at_first = refl

len_at_first : (read_regs unicorn at_first.engine).arg2 ≡ 2
unfolding read_regs
len_at_first = refl

first_open :
    (eq_ℤ (fd unicorn (some 0) at_first) (pos 1) || eq_ℤ (fd unicorn (some 0) at_first) (pos 2))
    ≡ true
unfolding read_regs
first_open = refl

first_readable :
    guest_read unicorn at_first.engine
      (regs unicorn (some 0) at_first).arg1
      (regs unicorn (some 0) at_first).arg2
    ≡ ok (b'A' ∷ b'A' ∷ [])
unfolding read_regs guest_read zeroed
first_readable = refl

abbrev after_first : HookState unicorn
after_first = record {
  engine = (unicorn.reg_write at_first.engine 0 2).1;
  shared = record new_shared { output = b'A' ∷ b'A' ∷ [] };
  bufs = traced unicorn (some 0) at_first (codes "write") (SyscallOutcome.return (pos 2));
}

wrote_first : Reaches unicorn table at_entry 1 after_first
unfolding read_regs
wrote_first = next here (
    syscall refl (
      hook-write unicorn (some 0) at_first (b'A' ∷ b'A' ∷ []) nr_at_first first_open first_readable
        (omega (arith, len_at_first))))

nr_at_last : (read_regs unicorn (resumed unicorn after_first).engine).syscall_nr ≡ pos 60
unfolding read_regs
nr_at_last = refl

run_elf-exit_recorded_example :
    (records : List TraceRecord) × (run_elf unicorn (parser file) 3 0 no_records image 0
      ≡ some (
          ok (
            exited_with
              ((read_regs unicorn (resumed unicorn after_first).engine).arg0 % 256)
              (written (effects unicorn (some 0) wrote_first))
              records)))
    × (map unnumbered records
        ≡ recorded unicorn 0 wrote_first
          ++ lines
              (read_regs unicorn (resumed unicorn after_first).engine)
              (entry_at unicorn (resumed unicorn after_first)))
run_elf-exit_recorded_example =
    run_elf-exit_recorded unicorn (parser file) 0 3 0 no_records image ready set_up_engine
      wrote_first refl boots refl refl (inl nr_at_last) refl (omega arith)

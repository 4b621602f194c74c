-- ===== src/Tests/Faulting.antt =====
-- A guest that writes from an address where nothing is mapped, and `run_elf` of an image with it.
use win_vpwn.Base.{
  [], ◌∷◌, some, true, false, pos, eq_ℤ, ◌||◌, signed64, ◌≡◌, ◌+◌, ◌-◌, refl, ok, error, arith,
}
use win_vpwn.Memory
use win_vpwn.Vkernel.Guest.{zeroed}
use win_vpwn.Syscall.Dispatch.{register, set_trace}
use win_vpwn.Syscall.Handlers.{register_all}
use win_vpwn.Syscall.Handlers.Stage1.{stage1}
use win_vpwn.Elf.{
  load_elf, load_parsed, load_segments, pt_loads, claim, read_contents, copy_to_front, file_bytes,
  slice_to,
}
use win_vpwn.Cpu.Engine.{Unicorn, unicorn_guest, guest_read}
use win_vpwn.Cpu.Vcpu.{
  Vcpu, new_shared, new_vcpu, map_elf, map_segments, map_segment, engine_present, claim_range,
  call_engine, page_start, pages_size, map_stack, map_memory, setup_initial_state, stack_base,
  stack_size, vcpu_error_text, exec,
}
use win_vpwn.Cpu.Hook.{HookState, read_regs}
use win_vpwn.Cpu.Run.{begun, resumed}
use win_vpwn.Cpu.Run.Steps.{here}
use win_vpwn.Python.{boot, run_elf}
use win_vpwn.Python.Faulted.{read_fault, run_elf-write_unreadable}
use win_vpwn.Tests.Images.{image, file}
use win_vpwn.Tests.Machine.{Machine, machine, parser, set_reg}
use win_vpwn.Tests.Guest.{no_records}

abbrev faulting : Unicorn
faulting = machine ((1, 1, 0x10, 2) ∷ [])

abbrev set_up_engine : Machine
set_up_engine = record {
  regs = set_reg (set_reg (λ r. 0) 8 (stack_base + stack_size - 0x20)) 7 0x400000;
  program = (1, 1, 0x10, 2) ∷ [];
  halted = false;
}

abbrev ready : Vcpu faulting
ready = record {
  uc = some set_up_engine;
  shared = new_shared;
  map = record {
    regions =
        record { base = 0x400000; size = 0x1000; prot = 5 }
        ∷ record { base = stack_base; size = stack_size; prot = 0 }
        ∷ [];
  };
  regions = (0x400000, 0x1000, 5) ∷ (stack_base, stack_size, 0) ∷ [];
  hook = stage1 (unicorn_guest faulting) (some 0);
}

boots : boot faulting (parser file) image 0 ≡ ok ready
unfolding boot load_elf load_parsed load_segments pt_loads claim Memory.insert read_contents zeroed
    copy_to_front new_vcpu register_all register set_trace map_elf engine_present map_segments
    map_segment claim_range call_engine page_start pages_size file_bytes slice_to map_stack
    map_memory setup_initial_state
boots = refl

abbrev at_first : HookState faulting
at_first = resumed faulting (begun faulting ready set_up_engine no_records 0)

nr_at_first : (read_regs faulting at_first.engine).syscall_nr ≡ pos 1
unfolding read_regs
nr_at_first = refl

writes_out :
    (eq_ℤ (signed64 (read_regs faulting at_first.engine).arg0) (pos 1)
      || eq_ℤ (signed64 (read_regs faulting at_first.engine).arg0) (pos 2))
    ≡ true
unfolding read_regs
writes_out = refl

unreadable :
    guest_read faulting at_first.engine
      (read_regs faulting at_first.engine).arg1
      (read_regs faulting at_first.engine).arg2
    ≡ error (record { addr = 0x10; len = 2 })
unfolding read_regs guest_read zeroed
unreadable = refl

run_elf-write_unreadable_example :
    run_elf faulting (parser file) 2 0 no_records image 0
    ≡ some (error (vcpu_error_text (exec read_fault)))
run_elf-write_unreadable_example =
    run_elf-write_unreadable faulting (parser file) 0 2 0 no_records image ready set_up_engine
      (record { addr = 0x10; len = 2 }) here boots refl refl refl nr_at_first writes_out unreadable
      refl (omega arith)

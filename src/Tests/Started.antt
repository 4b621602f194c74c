-- ===== src/Tests/Started.antt =====
-- The image, set up by `run_elf` on the machine with a memory.
use win_vpwn.Base.{ℕ, ◌+◌, ◌-◌, [], ◌∷◌, some, ◌≡◌, refl, ok, replicate, get_elem?}
use win_vpwn.Memory
use win_vpwn.Vkernel.Guest.{zeroed}
use win_vpwn.Syscall.Dispatch.{register, set_trace}
use win_vpwn.Syscall.Handlers.{register_all}
use win_vpwn.Elf.{
  Segment, load_elf, load_parsed, load_segments, pt_loads, claim, read_contents, copy_to_front,
  file_bytes, slice_to,
}
use win_vpwn.Cpu.Vcpu.{
  Vcpu, new_shared, new_vcpu, map_elf, map_segments, map_segment, engine_present, claim_range,
  call_engine, page_start, pages_size, map_stack, map_memory, setup_initial_state, read_guest,
  stack_base, stack_size,
}
use win_vpwn.Python.{boot, run_dispatch}
use win_vpwn.Python.Started.{boot-read_guest}
use win_vpwn.Tests.Board.{Board, blank, board, board_memory, put, clear}
use win_vpwn.Tests.Images.{image, file, loaded, loads}
use win_vpwn.Tests.Loaded.{loaded-AllLow}
use win_vpwn.Tests.Machine.{parser, set_reg}

abbrev frame : ℕ
frame = stack_base + stack_size - 0x20

-- The machine after the setup: the page of the segment, the stack, and the two registers.
abbrev set_up_board : Board
set_up_board = record {
  regs = set_reg (set_reg (λ r. 0) 8 frame) 7 0x400000;
  mem =
      put
        (clear (put (clear blank.mem 0x400000 0x1000) 0x400000 (10 ∷ 20 ∷ 30 ∷ [])) stack_base
          stack_size)
        frame (replicate 0x20 0);
}

abbrev ready : Vcpu board
ready = record {
  uc = some set_up_board;
  shared = new_shared;
  map = record {
    regions =
        record { base = 0x400000; size = 0x1000; prot = 5 }
        ∷ record { base = stack_base; size = stack_size; prot = 0 }
        ∷ [];
  };
  regions = (0x400000, 0x1000, 5) ∷ (stack_base, stack_size, 0) ∷ [];
  hook = run_dispatch board (parser file) 0;
}

boots : boot board (parser file) image 0 ≡ ok ready
unfolding boot load_elf load_parsed load_segments pt_loads claim Memory.insert read_contents zeroed
    copy_to_front new_vcpu register_all register set_trace map_elf engine_present map_segments
    map_segment claim_range call_engine page_start pages_size file_bytes slice_to map_stack
    map_memory setup_initial_state
boots = refl

boot-read_guest_example :
    ((i : ℕ) (seg : Segment)
      → get_elem? loaded.segments i ≡ some seg
      → read_guest board ready seg.vaddr seg.memsz ≡ ok seg.bytes)
    × (read_guest board ready stack_base stack_size ≡ ok (replicate stack_size 0))
boot-read_guest_example =
    boot-read_guest board board_memory (parser file) loaded loaded-AllLow image 0 ready loads boots

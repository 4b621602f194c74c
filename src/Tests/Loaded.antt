-- ===== src/Tests/Loaded.antt =====
-- The image, mapped on the machine with a memory.
use win_vpwn.Base.{ℕ, [], some, ◌≡◌, refl, ok, arith}
use win_vpwn.Memory
use win_vpwn.Memory.{empty_map}
use win_vpwn.Elf.{file_bytes, slice_to}
use win_vpwn.Syscall.Dispatch.{new_dispatch}
use win_vpwn.Cpu.Memory.Loaded.{overlays, map_elf-overlays}
use win_vpwn.Cpu.Vcpu.{
  Vcpu, new_shared, map_elf, map_segments, map_segment, engine_present, claim_range, call_engine,
  page_start, pages_size,
}
use win_vpwn.Cpu.Vcpu.Mapping.{AllLow, IsLow}
use win_vpwn.Tests.Board.{Board, blank, board, board_memory}
use win_vpwn.Tests.Images.{loaded}

abbrev fresh : Vcpu board
fresh = record {
  uc = some blank;
  shared = new_shared;
  map = empty_map;
  regions = [];
  hook = new_dispatch Board;
}

pub loaded-AllLow : AllLow loaded.segments
unfolding AllLow IsLow
loaded-AllLow = ((omega arith, omega arith), tt)

mapped : (map_elf board loaded fresh).0 ≡ ok tt
unfolding map_elf engine_present map_segments map_segment claim_range call_engine page_start
    pages_size Memory.insert file_bytes slice_to
mapped = refl

map_elf-overlays_example :
    (s' : Board) × ((map_elf board loaded fresh).1.uc ≡ some s')
    × ((a : ℕ) → s'.mem a ≡ overlays blank.mem loaded.segments a)
map_elf-overlays_example =
    map_elf-overlays board board_memory loaded fresh blank refl loaded-AllLow mapped

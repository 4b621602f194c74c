-- ===== src/Tests/Maps.antt =====
-- Memory maps and pages: two regions with a gap between them.
use win_vpwn.Base.{
  ℕ, [], ◌∷◌, false, some, ◌≡◌, ◌↔◌, refl, ◌&&◌, ok, error, ◌+◌, ◌-◌, ◌^◌, ◌%◌, ◌≤◌, ◌<◌, arith,
}
use win_vpwn.Memory
use win_vpwn.Memory.{MemoryMap, empty_map, end}
use win_vpwn.Memory.Place.{IsWellFormed, insert-IsWellFormed}
use win_vpwn.Memory.Claims.{claimed, in_range, insert-ok_iff}
use win_vpwn.Memory.Slots.{FitsIn, insert-FitsIn_iff}
use win_vpwn.Memory.Wrap.{insert_at_top}
use win_vpwn.Elf.{Segment, LoadedElf, file_bytes, slice_to}
use win_vpwn.Cpu.Vcpu.{
  Vcpu, new_shared, page_start, pages_size, map_elf, engine_present, map_segments, map_segment,
  claim_range, call_engine,
}
use win_vpwn.Cpu.Vcpu.Pages.{pages_size_lem}
use win_vpwn.Cpu.Vcpu.Mapping.{AllLow, IsLow}
use win_vpwn.Syscall.Dispatch.{new_dispatch}
use win_vpwn.Tests.Machine.{Machine, machine}

abbrev pub two_regions : MemoryMap
two_regions = record {
  regions =
      record { base = 0x1000; size = 0x1000; prot = 5 }
      ∷ record { base = 0x3000; size = 0x1000; prot = 3 }
      ∷ [];
}

two_regions-IsWellFormed : IsWellFormed two_regions
two_regions-IsWellFormed =
    ((omega arith, omega arith), omega arith, ((omega arith, omega arith), tt, tt))

-- The bases come out sorted, and an overlap is refused.
insert_sorts :
    (Memory.insert (Memory.insert empty_map 0x3000 0x1000 3).1 0x1000 0x1000 5).1 ≡ two_regions
unfolding Memory.insert
insert_sorts = refl

insert_overlapping : (Memory.insert two_regions 0x1800 0x100 7).0 ≡ error (record { base = 0x1800 })
unfolding Memory.insert
insert_overlapping = refl

insert_in_gap : (Memory.insert two_regions 0x2000 0x1000 7).0 ≡ ok tt
unfolding Memory.insert
insert_in_gap = refl

insert-ok_iff_example :
    ((Memory.insert two_regions 0x2000 0x1000 7).0 ≡ ok tt)
    ↔ ((a : ℕ) → (in_range 0x2000 0x1000 a && claimed two_regions a) ≡ false)
insert-ok_iff_example =
    insert-ok_iff two_regions 0x2000 0x1000 7 two_regions-IsWellFormed (omega arith) (omega arith)

insert-IsWellFormed_example : IsWellFormed (Memory.insert two_regions 0x2000 0x1000 7).1
insert-IsWellFormed_example =
    insert-IsWellFormed two_regions 0x2000 0x1000 7 two_regions-IsWellFormed (omega arith)

abbrev three_regions : MemoryMap
three_regions = record {
  regions =
      record { base = 0x1000; size = 0x1000; prot = 5 }
      ∷ record { base = 0x2000; size = 0x1000; prot = 7 }
      ∷ record { base = 0x3000; size = 0x1000; prot = 3 }
      ∷ [];
}

insert-FitsIn_iff_example :
    (Memory.insert two_regions 0x2000 0x1000 7 ≡ (ok tt, three_regions))
    ↔ FitsIn
        (record { base = 0x2000; size = 0x1000; prot = 7 })
        two_regions.regions
        three_regions.regions
insert-FitsIn_iff_example =
    insert-FitsIn_iff two_regions three_regions 0x2000 0x1000 7 two_regions-IsWellFormed
      (omega arith) (omega arith)

-- The range covers both regions.
insert_at_top_example : (Memory.insert two_regions 0x1000 (2 ^ 64 - 0x1000) 7).0 ≡ ok tt
insert_at_top_example = insert_at_top two_regions 0x1000 (2 ^ 64 - 0x1000) 7 (omega arith)

-- A segment that begins in the middle of a page and ends in the next one.
abbrev across_pages : Segment
across_pages = record {
  vaddr = 0x401ff0;
  memsz = 0x20;
  filesz = 0x4;
  bytes = 1 ∷ 2 ∷ 3 ∷ 4 ∷ [];
  flags = 5;
  align = 0x1000;
}

pages_of : (page_start across_pages ≡ 0x401000) × (pages_size across_pages ≡ 0x2000)
unfolding page_start pages_size
pages_of = (refl, refl)

pages_size_lem_example :
    (page_start across_pages % 0x1000 ≡ 0)
    × (page_start across_pages ≤ across_pages.vaddr)
    × (across_pages.vaddr < page_start across_pages + 0x1000)
    × (pages_size across_pages % 0x1000 ≡ 0)
    × (across_pages.vaddr + across_pages.memsz ≤ page_start across_pages + pages_size across_pages)
    × (page_start across_pages + pages_size across_pages
        < across_pages.vaddr + across_pages.memsz + 0x1000)
pages_size_lem_example = pages_size_lem across_pages (omega arith) (omega arith)

abbrev pub image : LoadedElf
image = record { entry = 0x401ff0; segments = across_pages ∷ []; is_pie = false }

abbrev pub engine : Machine
engine = record { regs = λ r. 0; program = []; halted = false }

abbrev pub fresh : Vcpu (machine [])
fresh = record {
  uc = some engine;
  shared = new_shared;
  map = empty_map;
  regions = [];
  hook = new_dispatch Machine;
}

pub image-AllLow : AllLow image.segments
unfolding AllLow IsLow
image-AllLow = ((omega arith, omega arith), tt)

mapped : (map_elf (machine []) image fresh).0 ≡ ok tt
unfolding map_elf engine_present map_segments map_segment claim_range call_engine page_start
    pages_size Memory.insert file_bytes slice_to
mapped = refl

-- ===== src/Tests/Reached.antt =====
-- CPUs of the test machine after several calls, and one whose engine maps nothing.
use win_vpwn.Base.{[], some, codes, ◌≡◌, refl, ok, error, arith}
use win_vpwn.Memory
use win_vpwn.Memory.{empty_map}
use win_vpwn.Syscall.Dispatch.{new_dispatch}
use win_vpwn.Cpu.Engine.{Unicorn}
use win_vpwn.Cpu.Vcpu.{
  Vcpu, new_shared, new_vcpu, map_elf, map_stack, map_memory, map_error, from_mmap_error,
  stack_base, stack_size,
}
use win_vpwn.Cpu.Vcpu.Notes.{IsConsistent}
use win_vpwn.Cpu.Vcpu.Reachable.{
  IsReachable, created, elf_mapped, stack_mapped, IsReachable-IsConsistent,
}
use win_vpwn.Cpu.Vcpu.Retry.{map_memory-retry}
use win_vpwn.Tests.Machine.{Machine, machine}
use win_vpwn.Tests.Guest.{no_records}
use win_vpwn.Tests.Maps.{image, fresh, engine, image-AllLow}

made : new_vcpu (machine []) (new_dispatch Machine) ≡ ok fresh
unfolding new_vcpu
made = refl

-- The image is mapped, and then the stack.
abbrev after_calls : Vcpu (machine [])
after_calls = (map_stack (machine []) stack_base stack_size (map_elf (machine []) image fresh).1).1

reached : IsReachable (machine []) (new_dispatch Machine) after_calls no_records
reached =
    stack_mapped stack_base stack_size (omega arith) (elf_mapped image image-AllLow (created made))

IsReachable-IsConsistent_example : IsConsistent (machine []) after_calls
IsReachable-IsConsistent_example =
    IsReachable-IsConsistent (machine []) (new_dispatch Machine) after_calls no_records reached

-- The machine, but every mapping fails.
abbrev no_memory : Unicorn
no_memory = record (machine []) { mem_map = λ s base size prot. (error (codes "NOMEM"), s) }

abbrev bare : Vcpu no_memory
bare = record {
  uc = some engine;
  shared = new_shared;
  map = empty_map;
  regions = [];
  hook = new_dispatch Machine;
}

free_in_bare : (Memory.insert bare.map 0x1000 0x1000 0).0 ≡ ok tt
unfolding Memory.insert
free_in_bare = refl

map_memory-retry_example :
    ((map_memory no_memory 0x1000 0x1000 3 bare).0
      ≡ error (map_error no_memory 0x1000 (codes "NOMEM")))
    × ((map_memory no_memory 0x1000 0x1000 3 (map_memory no_memory 0x1000 0x1000 3 bare).1).0
        ≡ error (from_mmap_error (record { base = 0x1000 })))
map_memory-retry_example =
    map_memory-retry no_memory 0x1000 0x1000 3 3 bare engine (codes "NOMEM") refl tt (omega arith)
      (omega arith) free_in_bare refl

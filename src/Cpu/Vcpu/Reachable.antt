-- ===== src/Cpu/Vcpu/Reachable.antt =====
-- The states of a CPU that calls of its methods reach, in any order.
use win_vpwn.Base.{ℕ, ◌+◌, ◌<◌, ◌^◌, List, some, ◌≡◌, Outcome, ok}
use win_vpwn.Trace.{Buffers}
use win_vpwn.Vkernel.Process.{ExitReason}
use win_vpwn.Syscall.Dispatch.{Dispatch}
use win_vpwn.Elf.{LoadedElf}
use win_vpwn.Cpu.Engine.{Unicorn}
use win_vpwn.Cpu.Vcpu.{
  Vcpu, VcpuError, new_vcpu, map_elf, map_memory, map_stack, write_guest, setup_initial_state,
  set_reg, drop_engine,
}
use win_vpwn.Cpu.Vcpu.Mapping.{AllLow}
use win_vpwn.Cpu.Run.{run}
use win_vpwn.Cpu.Vcpu.Notes.{IsConsistent}
use win_vpwn.Cpu.Vcpu.Consistent.{
  IsQuiet-Keeps, map_elf-IsConsistent, map_memory-IsConsistent, map_stack-IsConsistent,
  drop_engine-IsConsistent, write_guest-IsQuiet, set_reg-IsQuiet, setup_initial_state-IsQuiet,
  new_vcpu-IsConsistent, run-kept,
}

module _ (u : Unicorn) where
  -- What the owner of a CPU can make of it by calls of its methods, whether they succeed or fail,
  -- with ranges below the top of the address space; a run is one that the fuel was enough for.
  pub data IsReachable (d : Dispatch u.State) : Vcpu u → Buffers → Type 0 where
    created : {v : Vcpu u} {bufs : Buffers} → new_vcpu u d ≡ ok v → IsReachable d v bufs
    elf_mapped :
        {v : Vcpu u} {bufs : Buffers} (image : LoadedElf)
        → AllLow image.segments
        → IsReachable d v bufs
        → IsReachable d (map_elf u image v).1 bufs
    memory_mapped :
        {v : Vcpu u} {bufs : Buffers} (base size : ℕ) (prot : u.Prot)
        → base + size < 2 ^ 64
        → IsReachable d v bufs
        → IsReachable d (map_memory u base size prot v).1 bufs
    stack_mapped :
        {v : Vcpu u} {bufs : Buffers} (base size : ℕ)
        → base + size < 2 ^ 64
        → IsReachable d v bufs
        → IsReachable d (map_stack u base size v).1 bufs
    guest_written :
        {v : Vcpu u} {bufs : Buffers} (addr : ℕ) (bytes : List ℕ)
        → IsReachable d v bufs
        → IsReachable d (write_guest u addr bytes v).1 bufs
    state_set :
        {v : Vcpu u} {bufs : Buffers} (entry stack_top : ℕ)
        → IsReachable d v bufs
        → IsReachable d (setup_initial_state u entry stack_top v).1 bufs
    reg_set :
        {v : Vcpu u} {bufs : Buffers} (r : u.Reg) (value : ℕ)
        → IsReachable d v bufs
        → IsReachable d (set_reg u r value v).1 bufs
    ran :
        {v v' : Vcpu u} {bufs bufs' : Buffers} {result : Outcome VcpuError ExitReason}
        (fuel timeout_ms : ℕ)
        → run u fuel timeout_ms v bufs ≡ some (result, v', bufs')
        → IsReachable d v bufs
        → IsReachable d v' bufs'
    dropped :
        {v : Vcpu u} {bufs : Buffers} → IsReachable d v bufs → IsReachable d (drop_engine u v) bufs

  -- Whatever calls are made on a new CPU, in whatever order and whether they succeed or fail, with
  -- ranges that end below the top of the address space and images whose segments end two pages below
  -- it: the claimed regions stay sorted, disjoint and below the top, and every address is in at most
  -- one of the noted regions, and in one only if it is claimed.
  pub IsReachable-IsConsistent :
      (d : Dispatch u.State) (v : Vcpu u) (bufs : Buffers) → IsReachable d v bufs → IsConsistent u v
  IsReachable-IsConsistent d v bufs (created made) = new_vcpu-IsConsistent u d v made
  IsReachable-IsConsistent d v bufs (elf_mapped {v = v0} image low before) =
      map_elf-IsConsistent u image low v0 (IsReachable-IsConsistent d v0 bufs before)
  IsReachable-IsConsistent d v bufs (memory_mapped {v = v0} base size prot fits before) =
      map_memory-IsConsistent u base size prot fits v0 (IsReachable-IsConsistent d v0 bufs before)
  IsReachable-IsConsistent d v bufs (stack_mapped {v = v0} base size fits before) =
      map_stack-IsConsistent u base size fits v0 (IsReachable-IsConsistent d v0 bufs before)
  IsReachable-IsConsistent d v bufs (guest_written {v = v0} addr bytes before) =
      IsQuiet-Keeps u (write_guest u addr bytes) (write_guest-IsQuiet u addr bytes) v0
        (IsReachable-IsConsistent d v0 bufs before)
  IsReachable-IsConsistent d v bufs (state_set {v = v0} entry stack_top before) =
      IsQuiet-Keeps u (setup_initial_state u entry stack_top)
        (setup_initial_state-IsQuiet u entry stack_top) v0
        (IsReachable-IsConsistent d v0 bufs before)
  IsReachable-IsConsistent d v bufs (reg_set {v = v0} r value before) =
      IsQuiet-Keeps u (set_reg u r value) (set_reg-IsQuiet u r value) v0
        (IsReachable-IsConsistent d v0 bufs before)
  IsReachable-IsConsistent d v bufs
        (ran {v = v0} {bufs = bufs0} {result} fuel timeout_ms done before) =
      let (same_map, same_regions) = run-kept u fuel timeout_ms v0 v bufs0 bufs result done in
      rw (← same_map, ← same_regions) (IsReachable-IsConsistent d v0 bufs0 before)
  IsReachable-IsConsistent d v bufs (dropped {v = v0} before) =
      drop_engine-IsConsistent u v0 (IsReachable-IsConsistent d v0 bufs before)

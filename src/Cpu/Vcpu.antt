-- ===== src/Cpu/Vcpu.antt =====
-- crates/winvpwn-core/src/cpu/unicorn_engine.rs: the virtual CPU, its errors, and the methods that
-- map and access the guest. The syscall hook and `run` are in Cpu/Hook and Cpu/Run.
mod Errors
pub mod Pages
pub mod Mapping
pub mod Claimed
pub mod Notes
pub mod Consistent
pub mod Reachable
pub mod Retry
pub mod Ready
pub mod Entry
unfoldable pub use Errors.*
use Prim.Native.Nat.{bit_and}
use win_vpwn.Base.{
  ℕ, ◌+◌, ◌-◌, ◌*◌, ◌/◌, max, List, [], ◌∷◌, ◌++◌, Option, none, some, Text, codes, Done, Outcome,
  ok, error, panic, map_err, ◌==◌, if◌then◌else◌, add_u64, sub_u64, replicate,
}
use win_vpwn.Base.Exec.{Exec, ◌>>=◌, ◌>>◌, pure, lift, modify}
use win_vpwn.Memory
use win_vpwn.Memory.{MemoryMap, MmapError, empty_map}
use win_vpwn.Vkernel.Guest.{zeroed}
use win_vpwn.Vkernel.Process.{ExitReason}
use win_vpwn.Syscall.Dispatch.{Dispatch}
use win_vpwn.Elf.{Segment, LoadedElf, file_bytes}
use win_vpwn.Cpu.Engine.{Unicorn}

abbrev pub page_size : ℕ
page_size = 0x1000

abbrev pub stack_base : ℕ
stack_base = 0x7fff_fffd_e000

abbrev pub stack_size : ℕ
stack_size = 0x20000

-- `x & !(PAGE_SIZE - 1)`
abbrev pub page_floor : ℕ → ℕ
page_floor x = x / 0x1000 * 0x1000

-- `SharedState`: what the hook and the owner share.
pub record SharedState : Type 0 where
  pub output : List ℕ
  pub exit_reason : Option ExitReason
  pub engine_error : Option Text

abbrev pub new_shared : SharedState
new_shared = record { output = []; exit_reason = none; engine_error = none }

-- The first page of a segment, and the size of its pages, as `map_elf` computes them.
unfoldable pub page_start : Segment → ℕ
page_start seg = page_floor seg.vaddr

unfoldable pub pages_size : Segment → ℕ
pages_size seg =
    let end = max (add_u64 seg.vaddr seg.memsz) (add_u64 seg.vaddr seg.filesz) in
    let page_end = page_floor (sub_u64 (add_u64 end page_size) 1) in
    sub_u64 page_end (page_floor seg.vaddr)

-- `From<MmapError> for VcpuError`
abbrev pub from_mmap_error : MmapError → VcpuError
from_mmap_error e = VcpuError.map e.base (codes "guest address space overlap")

module _ (u : Unicorn) where
  -- `Vcpu`; `hook` is the dispatcher that the closure of the syscall hook holds.
  pub record Vcpu : Type 0 where
    pub uc : Option u.State
    pub shared : SharedState
    pub map : MemoryMap
    pub regions : List (ℕ × ℕ × ℕ)
    pub hook : Dispatch u.State

  abbrev pub Method : Type 0 → Type 0
  Method A = Exec Vcpu VcpuError A

  -- `self.uc.as_mut().expect("engine present")`
  unfoldable pub engine_present : Method Done
  engine_present v = elim v.uc [ none ↦ (panic, v) | some s ↦ (ok tt, v) ]

  -- `self.uc.as_mut().ok_or(VcpuError::NotLoaded)?`
  unfoldable pub engine_loaded : Method Done
  engine_loaded v = elim v.uc [ none ↦ (error VcpuError.not_loaded, v) | some s ↦ (ok tt, v) ]

  abbrev pub set_engine : Vcpu → Outcome VcpuError Done × u.State → Outcome VcpuError Done × Vcpu
  set_engine v (r, s) = (r, record v { uc = some s })

  -- A call on the engine, its error wrapped. The engine is there: it was checked above.
  unfoldable pub call_engine :
      (u.State → Outcome u.UcError Done × u.State) → (u.UcError → VcpuError) → Method Done
  call_engine f wrap v = elim v.uc [
    | none ↦ (panic, v)
    | some s ↦ set_engine v (map_err wrap (f s).0, (f s).1)
  ]

  abbrev pub claimed_by : Vcpu → Outcome MmapError Done × MemoryMap → Outcome VcpuError Done × Vcpu
  claimed_by v (r, m) = (map_err from_mmap_error r, record v { map = m })

  -- `self.map.insert(…)?`
  unfoldable pub claim_range : ℕ → ℕ → ℕ → Method Done
  claim_range base size prot v = claimed_by v (Memory.insert v.map base size prot)

  abbrev pub push_region : ℕ → ℕ → ℕ → Method Done
  push_region base size prot =
      modify (λ v. record v { regions = v.regions ++ (base, size, prot) ∷ [] })

  abbrev pub map_error : ℕ → u.UcError → VcpuError
  map_error base e = VcpuError.map base (u.error_text e)

  abbrev pub reg_error : u.UcError → VcpuError
  reg_error e = VcpuError.reg_op (u.error_text e)

  -- `Vcpu::new`, with `install_syscall_hook`
  unfoldable pub new_vcpu : Dispatch u.State → Outcome VcpuError Vcpu
  new_vcpu dispatch = elim u.create [
    | error e ↦ error (VcpuError.init (u.error_text e))
    | panic ↦ panic
    | ok s ↦ elim (u.add_syscall_hook s).0 [
      | error e ↦ error (VcpuError.init (u.error_text e))
      | panic ↦ panic
      | ok done ↦ ok (record {
        uc = some (u.add_syscall_hook s).1;
        shared = new_shared;
        map = empty_map;
        regions = [];
        hook = dispatch;
      })
    ]
  ]

  -- The `prot` that `map_elf` builds from the segment's flags.
  unfoldable pub segment_prot : ℕ → u.Prot
  segment_prot flags =
      let readable =
        if bit_and flags 0x4 == 0 then u.prot_none else u.prot_or u.prot_none u.prot_read in
      let writable = if bit_and flags 0x2 == 0 then readable else u.prot_or readable u.prot_write in
      if bit_and flags 0x1 == 0 then writable else u.prot_or writable u.prot_exec

  -- One round of `map_elf`.
  unfoldable pub map_segment : Segment → Method Done
  map_segment seg =
      let start = page_start seg in
      let size = pages_size seg in
      do
        claim_range start size seg.flags
        call_engine (λ s. u.mem_map s start size (segment_prot seg.flags)) (map_error start)
        bytes ← lift (file_bytes seg)
        call_engine (λ s. u.mem_write s (add_u64 start (seg.vaddr - start)) bytes) (map_error start)
        push_region start size seg.flags

  unfoldable pub map_segments : List Segment → Method Done
  map_segments [] = pure tt
  map_segments (seg ∷ segs) = map_segment seg >> map_segments segs

  unfoldable pub map_elf : LoadedElf → Method Done
  map_elf image = engine_present >> map_segments image.segments

  unfoldable pub map_memory : ℕ → ℕ → u.Prot → Method Done
  map_memory base size prot = do
    engine_present
    claim_range base size 0
    call_engine (λ s. u.mem_map s base size prot) (map_error base)
    push_region base size 0

  unfoldable pub map_stack : ℕ → ℕ → Method Done
  map_stack base size = map_memory base size (u.prot_or u.prot_read u.prot_write)

  unfoldable pub write_guest : ℕ → List ℕ → Method Done
  write_guest addr bytes = engine_loaded >> call_engine (λ s. u.mem_write s addr bytes) reg_error

  unfoldable pub setup_initial_state : ℕ → ℕ → Method Done
  setup_initial_state entry stack_top =
      let argc_addr = sub_u64 stack_top 0x20 in
      do
        engine_present
        call_engine (λ s. u.mem_write s argc_addr (replicate 0x20 0)) reg_error
        call_engine (λ s. u.reg_write s u.rsp argc_addr) reg_error
        call_engine (λ s. u.reg_write s u.rip entry) reg_error

  unfoldable pub reg : Vcpu → u.Reg → Outcome VcpuError ℕ
  reg v r = elim v.uc [
    | none ↦ error VcpuError.not_loaded
    | some s ↦ map_err reg_error (u.reg_read s r)
  ]

  unfoldable pub set_reg : u.Reg → ℕ → Method Done
  set_reg r value = engine_loaded >> call_engine (λ s. u.reg_write s r value) reg_error

  unfoldable pub read_guest : Vcpu → ℕ → ℕ → Outcome VcpuError (List ℕ)
  read_guest v addr len = elim v.uc [
    | none ↦ error VcpuError.not_loaded
    | some s ↦ elim (zeroed {E = VcpuError} len) [
      | ok buf ↦ map_err reg_error (u.mem_read s addr len)
      | error e ↦ error e
      | panic ↦ panic
    ]
  ]

  unfoldable pub output : Vcpu → List ℕ
  output v = v.shared.output

  unfoldable pub last_exit_reason : Vcpu → Option ExitReason
  last_exit_reason v = v.shared.exit_reason

  -- `Drop for Vcpu`
  unfoldable pub drop_engine : Vcpu → Vcpu
  drop_engine v = record v { uc = none }

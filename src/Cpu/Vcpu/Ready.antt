-- ===== src/Cpu/Vcpu/Ready.antt =====
-- What the methods that set a CPU up leave of its hook, its shared state and its engine.
use win_vpwn.Base.{
  ℕ, ◌-◌, List, [], ◌∷◌, some, Option-cases, ◌≡◌, refl, inl, inr, arith, Done, Outcome,
  Outcome-cases, ok, map_err-ok, add_u64, sub_u64, replicate,
}
use win_vpwn.Base.Exec.{Keeps, >>=-Keeps, ◌>>◌, lift}
use win_vpwn.Memory.{empty_map}
use win_vpwn.Syscall.Dispatch.{Dispatch}
use win_vpwn.Elf.{Segment, LoadedElf, file_bytes}
use win_vpwn.Cpu.Engine.{Unicorn}
use win_vpwn.Cpu.Vcpu.Mapping.{map_pages, write_pages, note_region, fill_pages, place_segment}
use win_vpwn.Cpu.Vcpu.{
  Vcpu, VcpuError, Method, SharedState, page_start, pages_size, call_engine, claim_range,
  push_region, map_segment, map_segments, map_elf, new_vcpu, new_shared, segment_prot, map_error,
  reg_error, engine_present, map_memory, map_stack, setup_initial_state,
}

-- The three calls of `setup_initial_state`.
module _ (u : Unicorn) (entry stack_top : ℕ) where
  abbrev pub argc_addr : ℕ
  argc_addr = sub_u64 stack_top 0x20

  abbrev pub write_frame : Method u Done
  write_frame = call_engine u (λ s. u.mem_write s argc_addr (replicate 0x20 0)) (reg_error u)

  abbrev pub set_rsp : Method u Done
  set_rsp = call_engine u (λ s. u.reg_write s u.rsp argc_addr) (reg_error u)

  abbrev pub set_rip : Method u Done
  set_rip = call_engine u (λ s. u.reg_write s u.rip entry) (reg_error u)

module _ (u : Unicorn) (d : Dispatch u.State) (shared : SharedState) where
  -- The CPU has an engine, this dispatcher and this shared state.
  unfoldable pub IsReady : Vcpu u → Type 0
  IsReady v = (v.hook ≡ d) × (v.shared ≡ shared) × ((s : u.State) × (v.uc ≡ some s))

  call_engine-IsReady :
      (f : u.State → Outcome u.UcError Done × u.State) (wrap : u.UcError → VcpuError)
      → Keeps IsReady (call_engine u f wrap)
  unfolding IsReady call_engine
  call_engine-IsReady f wrap v (hook, same, (s, loaded)) =
      rw (loaded, call_engine) (hook, same, ((f s).1, refl))

  engine_present-IsReady : Keeps IsReady (engine_present u)
  unfolding IsReady engine_present
  engine_present-IsReady v (hook, same, (s, loaded)) =
      rw (loaded, engine_present) (hook, same, (s, loaded))

  claim_range-IsReady : (base size prot : ℕ) → Keeps IsReady (claim_range u base size prot)
  unfolding IsReady claim_range
  claim_range-IsReady base size prot v ready = ready

  push_region-IsReady : (base size prot : ℕ) → Keeps IsReady (push_region u base size prot)
  unfolding IsReady
  push_region-IsReady base size prot v ready = ready

  pub >>-IsReady :
      (m k : Method u Done) → Keeps IsReady m → Keeps IsReady k → Keeps IsReady (m >> k)
  >>-IsReady m k hm hk = >>=-Keeps IsReady m (λ _. k) hm (λ _. hk)

  fill_pages-IsReady : (seg : Segment) → Keeps IsReady (fill_pages u seg)
  fill_pages-IsReady seg =
      >>=-Keeps IsReady (lift {S = Vcpu u} (file_bytes {E = VcpuError} seg))
        (λ bytes. write_pages u seg bytes >> note_region u seg) (λ v ready. ready)
        (λ bytes.
          >>-IsReady (write_pages u seg bytes) (note_region u seg)
            (call_engine-IsReady
              (λ s. u.mem_write s (add_u64 (page_start seg) (seg.vaddr - page_start seg)) bytes)
              (map_error u (page_start seg)))
            (push_region-IsReady (page_start seg) (pages_size seg) seg.flags))

  map_segment-IsReady : (seg : Segment) → Keeps IsReady (map_segment u seg)
  unfolding map_segment
  map_segment-IsReady seg =
      >>-IsReady (claim_range u (page_start seg) (pages_size seg) seg.flags) (place_segment u seg)
        (claim_range-IsReady (page_start seg) (pages_size seg) seg.flags)
        (>>-IsReady (map_pages u seg) (fill_pages u seg)
          (call_engine-IsReady
            (λ s. u.mem_map s (page_start seg) (pages_size seg) (segment_prot u seg.flags))
            (map_error u (page_start seg)))
          (fill_pages-IsReady seg))

  map_segments-IsReady : (segs : List Segment) → Keeps IsReady (map_segments u segs)
  unfolding map_segments
  map_segments-IsReady [] = λ v ready. ready
  map_segments-IsReady (seg ∷ segs) =
      >>-IsReady (map_segment u seg) (map_segments u segs) (map_segment-IsReady seg)
        (map_segments-IsReady segs)

  pub map_elf-IsReady : (image : LoadedElf) → Keeps IsReady (map_elf u image)
  unfolding map_elf
  map_elf-IsReady image =
      >>-IsReady (engine_present u) (map_segments u image.segments) engine_present-IsReady
        (map_segments-IsReady image.segments)

  pub map_stack-IsReady : (base size : ℕ) → Keeps IsReady (map_stack u base size)
  unfolding map_stack map_memory
  map_stack-IsReady base size =
      let map_call =
        call_engine u (λ s. u.mem_map s base size (u.prot_or u.prot_read u.prot_write))
          (map_error u base) in
      >>-IsReady (engine_present u)
        (claim_range u base size 0 >> (map_call >> push_region u base size 0))
        engine_present-IsReady
        (>>-IsReady (claim_range u base size 0) (map_call >> push_region u base size 0)
          (claim_range-IsReady base size 0)
          (>>-IsReady map_call (push_region u base size 0)
            (call_engine-IsReady (λ s. u.mem_map s base size (u.prot_or u.prot_read u.prot_write))
              (map_error u base))
            (push_region-IsReady base size 0)))

  module _ (entry stack_top : ℕ) where
    pub setup_initial_state-IsReady : Keeps IsReady (setup_initial_state u entry stack_top)
    unfolding setup_initial_state
    setup_initial_state-IsReady =
        let frame = write_frame u entry stack_top in
        let rsp = set_rsp u entry stack_top in
        let rip = set_rip u entry stack_top in
        >>-IsReady (engine_present u) (frame >> (rsp >> rip)) engine_present-IsReady (
          >>-IsReady frame (rsp >> rip)
            (call_engine-IsReady (λ s. u.mem_write s (sub_u64 stack_top 0x20) (replicate 0x20 0))
              (reg_error u))
            (>>-IsReady rsp rip
              (call_engine-IsReady (λ s. u.reg_write s u.rsp (sub_u64 stack_top 0x20))
                (reg_error u))
              (call_engine-IsReady (λ s. u.reg_write s u.rip entry) (reg_error u))))

pub call_engine-ok :
    (u : Unicorn) (f : u.State → Outcome u.UcError Done × u.State) (wrap : u.UcError → VcpuError)
    (v : Vcpu u)
    → (call_engine u f wrap v).0 ≡ ok tt
    → (s : u.State) × (v.uc ≡ some s)
      × ((f s).0 ≡ ok tt)
      × ((call_engine u f wrap v).1.uc ≡ some (f s).1)
unfolding call_engine
call_engine-ok u f wrap v done = elim (Option-cases v.uc) [
  | inl gone ↦ cc (rw (gone, call_engine) at done)
  | inr (s, loaded) ↦ (
    s,
    loaded,
    map_err-ok wrap (f s).0 (rw (loaded, call_engine) at done),
    rw (loaded, call_engine) refl,
  )
]

-- A CPU as `Vcpu::new` gives it.
abbrev pub fresh_vcpu : (u : Unicorn) → Dispatch u.State → u.State → Vcpu u
fresh_vcpu u d s = record {
  uc = some s;
  shared = new_shared;
  map = empty_map;
  regions = [];
  hook = d;
}

pub new_vcpu-ok :
    (u : Unicorn) (d : Dispatch u.State) (v : Vcpu u)
    → new_vcpu u d ≡ ok v
    → (s : u.State) × (v ≡ fresh_vcpu u d s)
unfolding new_vcpu
new_vcpu-ok u d v made = elim (Outcome-cases u.create) [
  | inr (inl (e, failed)) ↦ cc (rw (failed, new_vcpu) at made)
  | inr (inr panicked) ↦ cc (rw (panicked, new_vcpu) at made)
  | inl (s, created) ↦ elim (Outcome-cases (u.add_syscall_hook s).0) [
    | inl (done, hooked) ↦ ((u.add_syscall_hook s).1, ground (arith, created, hooked, made))
    | inr (inl (e, failed)) ↦ cc (rw (created, failed, new_vcpu) at made)
    | inr (inr panicked) ↦ cc (rw (created, panicked, new_vcpu) at made)
  ]
]

pub new_vcpu-IsReady :
    (u : Unicorn) (d : Dispatch u.State) (v : Vcpu u)
    → new_vcpu u d ≡ ok v
    → IsReady u d new_shared v
unfolding IsReady
new_vcpu-IsReady u d v made =
    let (s, same) = new_vcpu-ok u d v made in rw same (refl, refl, (s, refl))

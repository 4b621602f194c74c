-- ===== src/Cpu/Vcpu/Consistent.antt =====
-- What the methods of a CPU make of the claimed and the noted regions.
use win_vpwn.Base.{
  ℕ, ◌+◌, ◌-◌, ◌<◌, ◌^◌, List, [], ◌∷◌, some, Option-cases, some-injective, ◌≡◌, inl, inr, refl,
  sym, ap, ◌∙◌, arith, Done, Outcome, ok, add_u64, sub_u64, replicate,
}
use win_vpwn.Base.Exec.{Keeps, >>=-Keeps, ◌>>◌, lift}
use win_vpwn.Trace.{Buffers}
use win_vpwn.Vkernel.Process.{ExitReason}
use win_vpwn.Syscall.Dispatch.{Dispatch}
use win_vpwn.Elf.{Segment, LoadedElf, file_bytes}
use win_vpwn.Cpu.Engine.{Unicorn}
use win_vpwn.Cpu.Vcpu.{
  Vcpu, VcpuError, Method, page_start, pages_size, call_engine, claim_range, push_region, new_vcpu,
  map_segment, map_segments, map_elf, map_memory, map_stack, write_guest, setup_initial_state,
  set_reg, drop_engine, engine_present, engine_loaded, segment_prot, map_error, reg_error,
}
use win_vpwn.Cpu.Vcpu.Mapping.{
  AllLow, IsLow, pages_fit, place_segment, map_pages, fill_pages, write_pages, note_region,
}
use win_vpwn.Cpu.Vcpu.Ready.{write_frame, set_rsp, set_rip, new_vcpu-ok}
use win_vpwn.Cpu.Run.{run, finish, emulate, begun, Emulated, ended, crashed, unfinished}
use win_vpwn.Cpu.Run.Reports.{run_loaded, run_gone}
use win_vpwn.Cpu.Vcpu.Notes.{
  IsConsistent, IsQuiet, Notes, call_engine-IsQuiet, engine_present-IsQuiet, engine_loaded-IsQuiet,
  >>=-IsQuiet, >>=-Notes, claim-IsConsistent,
}

module _ (u : Unicorn) where
  pub IsQuiet-Keeps : {A : Type 0} (m : Method u A) → IsQuiet u m → Keeps (IsConsistent u) m
  unfolding IsQuiet
  IsQuiet-Keeps m quiet v consistent = rw ((quiet v).0, (quiet v).1) consistent

  fill_pages-Notes : (seg : Segment) → Notes u (page_start seg) (pages_size seg) (fill_pages u seg)
  unfolding IsQuiet Notes
  fill_pages-Notes seg =
      >>=-Notes u (page_start seg) (pages_size seg) {A = List ℕ} {B = Done}
        (lift {S = Vcpu u} (file_bytes {E = VcpuError} seg))
        (λ bytes. write_pages u seg bytes >> note_region u seg) (λ v. (refl, refl))
        (λ bytes.
          >>=-Notes u (page_start seg) (pages_size seg) {A = Done} {B = Done}
            (write_pages u seg bytes) (λ _. note_region u seg)
            (call_engine-IsQuiet u
              (λ s. u.mem_write s (add_u64 (page_start seg) (seg.vaddr - page_start seg)) bytes)
              (map_error u (page_start seg)))
            (λ _ v. (refl, inr (seg.flags, refl))))

  map_segment-IsConsistent :
      (seg : Segment) → IsLow seg → Keeps (IsConsistent u) (map_segment u seg)
  unfolding map_segment
  map_segment-IsConsistent seg low =
      claim-IsConsistent u (page_start seg) (pages_size seg) seg.flags (place_segment u seg)
        (pages_fit seg low)
        (>>=-Notes u (page_start seg) (pages_size seg) {A = Done} {B = Done} (map_pages u seg)
          (λ _. fill_pages u seg)
          (call_engine-IsQuiet u
            (λ s. u.mem_map s (page_start seg) (pages_size seg) (segment_prot u seg.flags))
            (map_error u (page_start seg)))
          (λ _. fill_pages-Notes seg))

  map_segments-IsConsistent :
      (segs : List Segment) → AllLow segs → Keeps (IsConsistent u) (map_segments u segs)
  unfolding map_segments AllLow
  map_segments-IsConsistent [] low = λ v consistent. consistent
  map_segments-IsConsistent (seg ∷ segs) low =
      >>=-Keeps (IsConsistent u) (map_segment u seg) (λ _. map_segments u segs)
        (map_segment-IsConsistent seg low.0) (λ _. map_segments-IsConsistent segs low.1)

  pub map_elf-IsConsistent :
      (image : LoadedElf) → AllLow image.segments → Keeps (IsConsistent u) (map_elf u image)
  unfolding map_elf
  map_elf-IsConsistent image low =
      >>=-Keeps (IsConsistent u) (engine_present u) (λ _. map_segments u image.segments)
        (IsQuiet-Keeps (engine_present u) (engine_present-IsQuiet u))
        (λ _. map_segments-IsConsistent image.segments low)

  pub map_memory-IsConsistent :
      (base size : ℕ) (prot : u.Prot)
      → base + size < 2 ^ 64
      → Keeps (IsConsistent u) (map_memory u base size prot)
  unfolding map_memory IsQuiet Notes
  map_memory-IsConsistent base size prot fits =
      let map_call = call_engine u (λ s. u.mem_map s base size prot) (map_error u base) in
      >>=-Keeps (IsConsistent u) (engine_present u)
        (λ _. claim_range u base size 0 >> (map_call >> push_region u base size 0))
        (IsQuiet-Keeps (engine_present u) (engine_present-IsQuiet u))
        (λ _. claim-IsConsistent u base size 0 (map_call >> push_region u base size 0) fits (
          >>=-Notes u base size {A = Done} {B = Done} map_call (λ _. push_region u base size 0)
            (call_engine-IsQuiet u (λ s. u.mem_map s base size prot) (map_error u base))
            (λ _ v. (refl, inr (0, refl)))))

  pub map_stack-IsConsistent :
      (base size : ℕ) → base + size < 2 ^ 64 → Keeps (IsConsistent u) (map_stack u base size)
  unfolding map_stack
  map_stack-IsConsistent base size fits =
      map_memory-IsConsistent base size (u.prot_or u.prot_read u.prot_write) fits

  pub drop_engine-IsConsistent : (v : Vcpu u) → IsConsistent u v → IsConsistent u (drop_engine u v)
  unfolding drop_engine
  drop_engine-IsConsistent v consistent = consistent

  pub write_guest-IsQuiet : (addr : ℕ) (bytes : List ℕ) → IsQuiet u (write_guest u addr bytes)
  unfolding write_guest
  write_guest-IsQuiet addr bytes =
      >>=-IsQuiet u (engine_loaded u)
        (λ _. call_engine u (λ s. u.mem_write s addr bytes) (reg_error u)) (engine_loaded-IsQuiet u)
        (λ _. call_engine-IsQuiet u (λ s. u.mem_write s addr bytes) (reg_error u))

  pub set_reg-IsQuiet : (r : u.Reg) (value : ℕ) → IsQuiet u (set_reg u r value)
  unfolding set_reg
  set_reg-IsQuiet r value =
      >>=-IsQuiet u (engine_loaded u)
        (λ _. call_engine u (λ s. u.reg_write s r value) (reg_error u)) (engine_loaded-IsQuiet u)
        (λ _. call_engine-IsQuiet u (λ s. u.reg_write s r value) (reg_error u))

  pub setup_initial_state-IsQuiet :
      (entry stack_top : ℕ) → IsQuiet u (setup_initial_state u entry stack_top)
  unfolding setup_initial_state
  setup_initial_state-IsQuiet entry stack_top =
      let frame = write_frame u entry stack_top in
      let rsp = set_rsp u entry stack_top in
      let rip = set_rip u entry stack_top in
      >>=-IsQuiet u (engine_present u) (λ _. frame >> (rsp >> rip)) (engine_present-IsQuiet u)
        (λ _.
          >>=-IsQuiet u frame (λ _. rsp >> rip)
            (call_engine-IsQuiet u (λ s. u.mem_write s (sub_u64 stack_top 0x20) (replicate 0x20 0))
              (reg_error u))
            (λ _.
              >>=-IsQuiet u rsp (λ _. rip)
                (call_engine-IsQuiet u (λ s. u.reg_write s u.rsp (sub_u64 stack_top 0x20))
                  (reg_error u))
                (λ _. call_engine-IsQuiet u (λ s. u.reg_write s u.rip entry) (reg_error u))))

  pub new_vcpu-IsConsistent :
      (d : Dispatch u.State) (v : Vcpu u) → new_vcpu u d ≡ ok v → IsConsistent u v
  new_vcpu-IsConsistent d v h =
      let (s, same) = new_vcpu-ok u d v h in rw same (tt, λ a. omega arith)

  finish-kept :
      (v v' : Vcpu u) (bufs bufs' : Buffers) (e : Emulated u)
      (result : Outcome VcpuError ExitReason)
      → finish u v bufs e ≡ some (result, v', bufs')
      → (v.map ≡ v'.map) × (v.regions ≡ v'.regions)
  unfolding finish
  finish-kept v v' bufs bufs' (ended r s) result h =
      let same = some-injective h in (ap (λ t. t.1.map) same, ap (λ t. t.1.regions) same)
  finish-kept v v' bufs bufs' crashed result h =
      let same = some-injective h in (ap (λ t. t.1.map) same, ap (λ t. t.1.regions) same)
  finish-kept v v' bufs bufs' unfinished result h = cc

  pub run-kept :
      (fuel timeout_ms : ℕ) (v v' : Vcpu u) (bufs bufs' : Buffers)
      (result : Outcome VcpuError ExitReason)
      → run u fuel timeout_ms v bufs ≡ some (result, v', bufs')
      → (v.map ≡ v'.map) × (v.regions ≡ v'.regions)
  run-kept fuel timeout_ms v v' bufs bufs' result h = elim (Option-cases v.uc) [
    | inl gone ↦
        let same = some-injective (sym (run_gone u v bufs timeout_ms fuel gone) ∙ h) in
        (ap (λ t. t.1.map) same, ap (λ t. t.1.regions) same)
    | inr (s, loaded) ↦
        finish-kept v v' bufs bufs' (emulate u fuel v.hook (begun u v s bufs timeout_ms)) result
          (sym (run_loaded u v s bufs timeout_ms fuel loaded) ∙ h)
  ]

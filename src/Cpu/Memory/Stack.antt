-- ===== src/Cpu/Memory/Stack.antt =====
-- What `map_stack` and `setup_initial_state` leave in the engine's memory.
use win_vpwn.Base.{
  ℕ, ◌-◌, ◌≤◌, ◌<◌, ◌^◌, Option, some, ◌≡◌, refl, ap, ◌∙◌, arith, ok, Outcome-cases, inl, inr,
  sub_u64, length, length-replicate, replicate, get_elem?, get_elem?-replicate, Bool-cases,
  if◌then◌else◌,
}
use win_vpwn.Base.Exec.{◌>>◌}
use win_vpwn.Memory
use win_vpwn.Memory.Claims.{in_range}
use win_vpwn.Cpu.Engine.{Unicorn}
use win_vpwn.Cpu.Memory.{EngineMemory}
use win_vpwn.Cpu.Memory.Takes.{
  Takes, >>-Takes, engine_present-Takes, claim_range-Takes, push_region-Takes, call_engine-Takes,
}
use win_vpwn.Cpu.Vcpu.{
  Vcpu, map_error, reg_error, engine_present, claim_range, call_engine, push_region, map_memory,
  map_stack, setup_initial_state,
}
use win_vpwn.Cpu.Vcpu.Ready.{write_frame, set_rsp, set_rip}

-- Memory with zeros in a range.
abbrev pub cleared : (ℕ → Option ℕ) → ℕ → ℕ → ℕ → Option ℕ
cleared f base size a = if in_range base size a then some 0 else f a

zeros_in_range :
    (addr a : ℕ) (old : Option ℕ)
    → (if in_range addr 0x20 a then get_elem? (replicate 0x20 0) (a - addr) else old)
      ≡ (if in_range addr 0x20 a then some 0 else old)
zeros_in_range addr a old = elim (Bool-cases (in_range addr 0x20 a)) [
  | inl inside ↦
      let near : a - addr < 0x20 = ground (arith, inside) in
      rw (inside) (get_elem?-replicate 0x20 (a - addr) 0 near)
  | inr outside ↦ rw outside refl
]

module _ (u : Unicorn) (memory : EngineMemory u) where
  map_memory-Takes :
      (base size : ℕ) (prot : u.Prot) (f : ℕ → Option ℕ)
      → Takes u memory (map_memory u base size prot) f (cleared f base size)
  unfolding map_memory
  map_memory-Takes base size prot f =
      let g = cleared f base size in
      let map_call = call_engine u (λ s. u.mem_map s base size prot) (map_error u base) in
      let note = push_region u base size 0 in
      >>-Takes u memory (engine_present u) (claim_range u base size 0 >> (map_call >> note)) f f g
        (engine_present-Takes u memory f)
        (>>-Takes u memory (claim_range u base size 0) (map_call >> note) f f g
          (claim_range-Takes u memory base size 0 f)
          (>>-Takes u memory map_call note f g g
            (call_engine-Takes u memory (λ s. u.mem_map s base size prot) (map_error u base) f g
              (λ s view mapped a.
                memory.byte-mem_map s base size prot a mapped
                ∙ ap (λ o. if in_range base size a then some 0 else o) (view a)))
            (push_region-Takes u memory base size 0 g)))

  pub map_stack-Takes :
      (base size : ℕ) (f : ℕ → Option ℕ)
      → Takes u memory (map_stack u base size) f (cleared f base size)
  unfolding map_stack
  map_stack-Takes base size f = map_memory-Takes base size (u.prot_or u.prot_read u.prot_write) f

  set_reg-Takes :
      (r : u.Reg) (value : ℕ) (f : ℕ → Option ℕ)
      → Takes u memory (call_engine u (λ s. u.reg_write s r value) (reg_error u)) f f
  set_reg-Takes r value f =
      call_engine-Takes u memory (λ s. u.reg_write s r value) (reg_error u) f f
        (λ s view done a. memory.byte-reg_write s r value a done ∙ view a)

  pub setup_initial_state-Takes :
      (entry stack_top : ℕ) (f : ℕ → Option ℕ)
      → 0x20 ≤ stack_top
      → stack_top < 2 ^ 64
      → Takes u memory (setup_initial_state u entry stack_top) f (cleared f (stack_top - 0x20) 0x20)
  unfolding setup_initial_state
  setup_initial_state-Takes entry stack_top f room below =
      let g = cleared f (stack_top - 0x20) 0x20 in
      let frame = write_frame u entry stack_top in
      let rsp = set_rsp u entry stack_top in
      let rip = set_rip u entry stack_top in
      let addr : sub_u64 stack_top 0x20 ≡ stack_top - 0x20 = omega (arith, room, below) in
      let size : length {A = ℕ} (replicate 0x20 0) ≡ 0x20 = length-replicate {A = ℕ} 0x20 0 in
      >>-Takes u memory (engine_present u) (frame >> (rsp >> rip)) f f g
        (engine_present-Takes u memory f)
        (>>-Takes u memory frame (rsp >> rip) f g g
          (call_engine-Takes u memory
            (λ s. u.mem_write s (sub_u64 stack_top 0x20) (replicate 0x20 0)) (reg_error u) f g
            (λ s view wrote a.
              memory.byte-mem_write s _ (replicate 0x20 0) a
                (omega (arith, addr, size, room, below)) wrote
              ∙ rw (addr, view a) (zeros_in_range (stack_top - 0x20) a (f a))))
          (>>-Takes u memory rsp rip g g g (set_reg-Takes u.rsp (sub_u64 stack_top 0x20) g)
            (set_reg-Takes u.rip entry g)))

-- A stack that is mapped has been claimed.
pub map_stack-inserted :
    (u : Unicorn) (base size : ℕ) (v : Vcpu u) (s : u.State)
    → v.uc ≡ some s
    → (map_stack u base size v).0 ≡ ok tt
    → (Memory.insert v.map base size 0).0 ≡ ok tt
unfolding map_stack map_memory engine_present claim_range
map_stack-inserted u base size v s loaded done =
    elim (Outcome-cases (Memory.insert v.map base size 0).0) [
      | inl (_, e) ↦ e
      | inr (inl (x, e)) ↦ cc (rw (loaded, engine_present, e) at done)
      | inr (inr e) ↦ cc (rw (loaded, engine_present, e) at done)
    ]

-- ===== src/Cpu/Vcpu/Retry.antt =====
-- A region that the engine refuses to map stays claimed.
use win_vpwn.Base.{
  ℕ, ◌+◌, ◌≤◌, ◌<◌, ◌^◌, some, inl, inr, ◌≡◌, ◌≢◌, true, Bool-cases, refl, ap, ◌∙◌, arith, any, ok,
  error, ◌==◌,
}
use win_vpwn.Memory
use win_vpwn.Memory.{MemoryMap, MmapError, overlaps}
use win_vpwn.Memory.Place.{IsWellFormed, insert-IsWellFormed}
use win_vpwn.Memory.Claims.{in_range, claimed-insert, insert-free_iff}
use win_vpwn.Cpu.Engine.{Unicorn}
use win_vpwn.Cpu.Vcpu.{
  Vcpu, engine_present, claim_range, call_engine, map_memory, map_error, from_mmap_error,
}

-- A refusal names the base of the range.
insert-base :
    (m : MemoryMap) (base size prot : ℕ)
    → (Memory.insert m base size prot).0 ≢ ok tt
    → (Memory.insert m base size prot).0 ≡ error (record { base = base })
unfolding Memory.insert
insert-base m base size prot h = elim (Bool-cases (size == 0)) [
  | inl empty ↦ absurd (h (rw empty refl))
  | inr filled ↦ elim (Bool-cases (any (λ r. overlaps r base size) m.regions)) [
    | inl taken ↦ rw (filled, taken) refl
    | inr free ↦ absurd (h (rw (filled, free) refl))
  ]
]

-- A range that was accepted is refused the second time.
insert_twice :
    (m : MemoryMap) (base size prot prot' : ℕ)
    → IsWellFormed m
    → base + size < 2 ^ 64
    → 1 ≤ size
    → (Memory.insert m base size prot).0 ≡ ok tt
    → (Memory.insert (Memory.insert m base size prot).1 base size prot').0
      ≡ error (record { base = base })
insert_twice m base size prot prot' w fits filled placed =
    let m' = (Memory.insert m base size prot).1 in
    insert-base m' base size prot' (λ again.
      let inside : in_range base size base ≡ true = ground (arith, filled) in
      let w' = insert-IsWellFormed m base size prot w fits in
      let free = (insert-free_iff m' base size prot' w' fits filled).0 again base inside in
      let taken = claimed-insert m base size prot base fits placed in
      ground (arith, free, taken, inside))

module _ (u : Unicorn) where
  map_memory-failed :
      (base size : ℕ) (prot : u.Prot) (v : Vcpu u) (s : u.State) (e : u.UcError)
      → v.uc ≡ some s
      → (Memory.insert v.map base size 0).0 ≡ ok tt
      → (u.mem_map s base size prot).0 ≡ error e
      → map_memory u base size prot v ≡ (
        error (map_error u base e),
        record v {
          uc = some (u.mem_map s base size prot).1;
          map = (Memory.insert v.map base size 0).1;
        },
      )
  unfolding map_memory engine_present claim_range call_engine
  map_memory-failed base size prot v s e there placed refused =
      ground (arith, there, placed, refused)

  map_memory-refused :
      (base size : ℕ) (prot : u.Prot) (v : Vcpu u) (s : u.State) (x : MmapError)
      → v.uc ≡ some s
      → (Memory.insert v.map base size 0).0 ≡ error x
      → (map_memory u base size prot v).0 ≡ error (from_mmap_error x)
  unfolding map_memory engine_present claim_range
  map_memory-refused base size prot v s x there refused = ground (arith, there, refused)

  -- A call of `map_memory` whose range is accepted, and for which the engine refuses the mapping, does
  -- not give the range back: the next call for that range, whatever the engine would say then, is
  -- refused as an overlap. The map is well-formed, and the range not empty and below the top.
  pub map_memory-retry :
      (base size : ℕ) (prot prot' : u.Prot) (v : Vcpu u) (s : u.State) (e : u.UcError)
      → v.uc ≡ some s
      → IsWellFormed v.map
      → base + size < 2 ^ 64
      → 1 ≤ size
      → (Memory.insert v.map base size 0).0 ≡ ok tt
      → (u.mem_map s base size prot).0 ≡ error e
      → ((map_memory u base size prot v).0 ≡ error (map_error u base e))
        × ((map_memory u base size prot' (map_memory u base size prot v).1).0
            ≡ error (from_mmap_error (record { base = base })))
  map_memory-retry base size prot prot' v s e there w fits filled placed refused =
      let failed = map_memory-failed base size prot v s e there placed refused in
      let again = insert_twice v.map base size 0 0 w fits filled placed in
      (
        ap (λ p. p.0) failed,
        ap (λ p. (map_memory u base size prot' p.1).0) failed
            ∙ map_memory-refused base size prot' _ (u.mem_map s base size prot).1 _ refl again,
      )

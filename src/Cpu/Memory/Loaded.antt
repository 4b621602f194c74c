-- ===== src/Cpu/Memory/Loaded.antt =====
-- What `map_elf` leaves in the engine's memory.
use win_vpwn.Base.{
  ℕ, ◌-◌, ◌≤◌, ◌<◌, List, [], ◌∷◌, Option, some, ◌≡◌, refl, ap, ◌∙◌, arith, ok, length, length-take,
  take, get_elem?, get_elem?-take, add_u64, ltb, Bool-cases, inl, inr, if◌then◌else◌,
}
use win_vpwn.Base.Exec.{◌>>◌}
use win_vpwn.Memory.Claims.{in_range}
use win_vpwn.Elf.{Segment, LoadedElf, file_bytes, slice_to}
use win_vpwn.Cpu.Engine.{Unicorn}
use win_vpwn.Cpu.Memory.{EngineMemory}
use win_vpwn.Cpu.Vcpu.{
  Vcpu, VcpuError, page_start, pages_size, segment_prot, map_segment, map_segments, map_elf,
  claim_range, engine_present, map_error,
}
use win_vpwn.Cpu.Vcpu.Mapping.{
  IsLow, AllLow, in_pages, map_pages, write_pages, note_region, fill_pages, place_segment,
}
use win_vpwn.Cpu.Memory.Takes.{
  Holds, Takes, >>-Takes, lift-Takes, engine_present-Takes, claim_range-Takes, push_region-Takes,
  call_engine-Takes,
}
use win_vpwn.Cpu.Vcpu.Pages.{pages_size_lem}

-- Memory with one more segment: its file part, zeros in the rest of its pages, and around them what
-- was there.
abbrev pub overlay : (ℕ → Option ℕ) → Segment → ℕ → Option ℕ
overlay f seg a =
    if in_range seg.vaddr seg.filesz a
    then get_elem? seg.bytes (a - seg.vaddr)
    else if in_pages seg a
    then some 0
    else f a

-- The segments laid over memory, one after the other.
abbrev pub overlays : (ℕ → Option ℕ) → List Segment → ℕ → Option ℕ
overlays f [] = f
overlays f (seg ∷ segs) = overlays (overlay f seg) segs

file_bytes-ok :
    (seg : Segment) (bytes : List ℕ)
    → file_bytes {E = VcpuError} seg ≡ ok bytes
    → (bytes ≡ take seg.filesz seg.bytes) × (length bytes ≡ seg.filesz)
unfolding file_bytes slice_to
file_bytes-ok seg bytes h = elim (Bool-cases (ltb (length seg.bytes) seg.filesz)) [
  | inl short ↦ cc (rw short at h)
  | inr enough ↦
      let same : bytes ≡ take seg.filesz seg.bytes = ground (arith, rw enough at h) in
      let taken = length-take seg.filesz seg.bytes in
      let fits : seg.filesz ≤ length seg.bytes = ground (arith, enough) in
      (same, rw same (omega (arith, taken, fits)))
]

get_elem?-part :
    (seg : Segment) (a : ℕ) (old : Option ℕ)
    → (if in_range seg.vaddr seg.filesz a
        then get_elem? (take seg.filesz seg.bytes) (a - seg.vaddr)
        else old)
      ≡ (if in_range seg.vaddr seg.filesz a then get_elem? seg.bytes (a - seg.vaddr) else old)
get_elem?-part seg a old = elim (Bool-cases (in_range seg.vaddr seg.filesz a)) [
  | inl inside ↦
      let near : a - seg.vaddr < seg.filesz = ground (arith, inside) in
      rw inside (get_elem?-take seg.filesz seg.bytes (a - seg.vaddr) near)
  | inr outside ↦ rw outside refl
]

module _ (u : Unicorn) (memory : EngineMemory u) where
  map_pages-Takes :
      (seg : Segment) (f : ℕ → Option ℕ)
      → Takes u memory (map_pages u seg) f (λ a. if in_pages seg a then some 0 else f a)
  unfolding in_pages
  map_pages-Takes seg f =
      call_engine-Takes u memory
        (λ t. u.mem_map t (page_start seg) (pages_size seg) (segment_prot u seg.flags))
        (map_error u (page_start seg)) f (λ a. if in_pages seg a then some 0 else f a)
        (λ s view mapped a.
          memory.byte-mem_map s (page_start seg) (pages_size seg) (segment_prot u seg.flags) a
            mapped
          ∙ ap (λ o. if in_pages seg a then some 0 else o) (view a))

  write_pages-Takes :
      (seg : Segment) (bytes : List ℕ) (f : ℕ → Option ℕ)
      → IsLow seg
      → file_bytes {E = VcpuError} seg ≡ ok bytes
      → Takes u memory (write_pages u seg bytes) f (λ a.
        if in_range seg.vaddr seg.filesz a then get_elem? seg.bytes (a - seg.vaddr) else f a)
  unfolding IsLow
  write_pages-Takes seg bytes f low cut =
      let (_, starts, _, _, _, _) = pages_size_lem seg low.0 (omega (arith, low)) in
      let addr : add_u64 (page_start seg) (seg.vaddr - page_start seg) ≡ seg.vaddr =
        omega (arith, low, starts) in
      let (part, size) = file_bytes-ok seg bytes cut in
      call_engine-Takes u memory
        (λ t. u.mem_write t (add_u64 (page_start seg) (seg.vaddr - page_start seg)) bytes)
        (map_error u (page_start seg)) f _
        (λ s view wrote a.
          memory.byte-mem_write s _ bytes a (omega (arith, addr, size, low)) wrote
          ∙ rw (addr, size, part, view a) (get_elem?-part seg a (f a)))

  map_segment-Takes :
      (seg : Segment) (f : ℕ → Option ℕ)
      → IsLow seg
      → Takes u memory (map_segment u seg) f (overlay f seg)
  unfolding map_segment
  map_segment-Takes seg f low =
      let cleared : ℕ → Option ℕ = λ a. if in_pages seg a then some 0 else f a in
      >>-Takes u memory (claim_range u (page_start seg) (pages_size seg) seg.flags)
        (place_segment u seg) f f (overlay f seg)
        (claim_range-Takes u memory (page_start seg) (pages_size seg) seg.flags f)
        (>>-Takes u memory (map_pages u seg) (fill_pages u seg) f cleared (overlay f seg)
          (map_pages-Takes seg f)
          (lift-Takes u memory (file_bytes {E = VcpuError} seg)
            (λ bytes. write_pages u seg bytes >> note_region u seg) cleared (overlay f seg)
            (λ bytes cut.
              >>-Takes u memory (write_pages u seg bytes) (note_region u seg) cleared
                (overlay f seg) (overlay f seg) (write_pages-Takes seg bytes cleared low cut)
                (push_region-Takes u memory (page_start seg) (pages_size seg) seg.flags
                  (overlay f seg)))))

  map_segments-Takes :
      (segs : List Segment) (f : ℕ → Option ℕ)
      → AllLow segs
      → Takes u memory (map_segments u segs) f (overlays f segs)
  unfolding map_segments AllLow
  map_segments-Takes [] f low = unfold Takes in λ v holds done. holds
  map_segments-Takes (seg ∷ segs) f low =
      >>-Takes u memory (map_segment u seg) (map_segments u segs) f (overlay f seg)
        (overlays (overlay f seg) segs) (map_segment-Takes seg f low.0)
        (map_segments-Takes segs (overlay f seg) low.1)

  pub map_elf-Takes :
      (image : LoadedElf) (f : ℕ → Option ℕ)
      → AllLow image.segments
      → Takes u memory (map_elf u image) f (overlays f image.segments)
  unfolding map_elf
  map_elf-Takes image f low =
      >>-Takes u memory (engine_present u) (map_segments u image.segments) f f
        (overlays f image.segments) (engine_present-Takes u memory f)
        (map_segments-Takes image.segments f low)

  -- When `map_elf` succeeds on an image whose segments end two pages below the top of the address
  -- space, the engine's memory is what it was with the segments laid over it, one after the other.
  pub map_elf-overlays :
      (image : LoadedElf) (v : Vcpu u) (s : u.State)
      → v.uc ≡ some s
      → AllLow image.segments
      → (map_elf u image v).0 ≡ ok tt
      → (s' : u.State) × ((map_elf u image v).1.uc ≡ some s')
        × ((a : ℕ) → memory.byte s' a ≡ overlays (memory.byte s) image.segments a)
  unfolding Takes Holds
  map_elf-overlays image v s loaded low done =
      map_elf-Takes image (memory.byte s) low v (s, loaded, λ a. refl) done

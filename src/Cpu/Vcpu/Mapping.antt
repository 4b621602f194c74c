-- ===== src/Cpu/Vcpu/Mapping.antt =====
-- The claimed regions during `map_elf`, and the steps of one of its rounds.
use win_vpwn.Base.{
  ℕ, ◌+◌, ◌-◌, ◌≤◌, ◌<◌, ◌^◌, List, [], ◌∷◌, Bool, some, Option-cases, ◌≡◌, inl, inr, refl, ◌∙◌,
  arith, Done, Outcome, ok, Outcome-cases, add_u64,
}
use win_vpwn.Base.Exec.{>>=-Keeps, ◌>>=◌, ◌>>◌, lift}
use win_vpwn.Memory
use win_vpwn.Memory.{MemoryMap, MmapError}
use win_vpwn.Memory.Place.{IsWellFormed, insert-IsWellFormed}
use win_vpwn.Memory.Claims.{in_range}
use win_vpwn.Elf.{Segment, LoadedElf, file_bytes}
use win_vpwn.Cpu.Engine.{Unicorn}
use win_vpwn.Cpu.Vcpu.{
  Vcpu, VcpuError, Method, page_start, pages_size, call_engine, claim_range, push_region,
  map_segment, map_segments, map_elf, segment_prot, map_error, engine_present,
}
use win_vpwn.Cpu.Vcpu.Pages.{pages_size_lem}

-- The segment's file part is not longer than its memory part, and it ends two pages below the top
-- of the address space.
unfoldable pub IsLow : Segment → Type 0
IsLow seg = (seg.filesz ≤ seg.memsz) × (seg.vaddr + seg.memsz + 0x2000 ≤ 2 ^ 64)

unfoldable pub AllLow : List Segment → Type 0
AllLow [] = Unit
AllLow (seg ∷ segs) = IsLow seg × AllLow segs

-- The address is in a page of a segment.
unfoldable pub in_pages : Segment → ℕ → Bool
in_pages seg = in_range (page_start seg) (pages_size seg)

pub pages_fit : (seg : Segment) → IsLow seg → page_start seg + pages_size seg < 2 ^ 64
unfolding IsLow
pages_fit seg (file_le, fits) =
    let (_, _, _, _, _, less) = pages_size_lem seg file_le (omega arith) in omega arith

module _ (u : Unicorn) where
  -- A step that leaves the claims as they are.
  IsClaimless : {A : Type 0} → Method u A → Type 0
  IsClaimless m = (v : Vcpu u) → (m v).1.map ≡ v.map

  call_engine-IsClaimless :
      (f : u.State → Outcome u.UcError Done × u.State) (wrap : u.UcError → VcpuError)
      → IsClaimless (call_engine u f wrap)
  unfolding IsClaimless call_engine
  call_engine-IsClaimless f wrap v = elim (Option-cases v.uc) [
    | inl e ↦ rw (e, call_engine) refl
    | inr (s, e) ↦ rw (e, call_engine) refl
  ]

  >>=-IsClaimless :
      {A B : Type 0} (m : Method u A) (f : A → Method u B)
      → IsClaimless m
      → ((a : A) → IsClaimless (f a))
      → IsClaimless (m >>= f)
  unfolding IsClaimless
  >>=-IsClaimless m f hm hf v =
      >>=-Keeps (λ w. w.map ≡ v.map) m f (λ w e. hm w ∙ e) (λ a w e. hf a w ∙ e) v refl

  -- A round of `map_elf` from the claim on: the pages are mapped, the file part is written, and the
  -- region is noted.
  abbrev pub map_pages : Segment → Method u Done
  map_pages seg =
      call_engine u (λ s. u.mem_map s (page_start seg) (pages_size seg) (segment_prot u seg.flags))
        (map_error u (page_start seg))

  abbrev pub write_pages : Segment → List ℕ → Method u Done
  write_pages seg bytes =
      call_engine u
        (λ s. u.mem_write s (add_u64 (page_start seg) (seg.vaddr - page_start seg)) bytes)
        (map_error u (page_start seg))

  abbrev pub note_region : Segment → Method u Done
  note_region seg = push_region u (page_start seg) (pages_size seg) seg.flags

  abbrev pub fill_pages : Segment → Method u Done
  fill_pages seg = lift {S = Vcpu u} (file_bytes {E = VcpuError} seg) >>= λ bytes.
      write_pages seg bytes >> note_region seg

  abbrev pub place_segment : Segment → Method u Done
  place_segment seg = map_pages seg >> fill_pages seg

  fill_pages-IsClaimless : (seg : Segment) → IsClaimless (fill_pages seg)
  unfolding IsClaimless
  fill_pages-IsClaimless seg =
      >>=-IsClaimless {A = List ℕ} {B = Done} (lift {S = Vcpu u} (file_bytes {E = VcpuError} seg))
        (λ bytes. write_pages seg bytes >> note_region seg) (λ v. refl)
        (λ bytes.
          >>=-IsClaimless {A = Done} {B = Done} (write_pages seg bytes) (λ _. note_region seg)
            (call_engine-IsClaimless
              (λ s. u.mem_write s (add_u64 (page_start seg) (seg.vaddr - page_start seg)) bytes)
              (map_error u (page_start seg)))
            (λ _ v. refl))

  place_segment-IsClaimless : (seg : Segment) → IsClaimless (place_segment seg)
  place_segment-IsClaimless seg =
      >>=-IsClaimless {A = Done} {B = Done} (map_pages seg) (λ _. fill_pages seg)
        (call_engine-IsClaimless
          (λ s. u.mem_map s (page_start seg) (pages_size seg) (segment_prot u seg.flags))
          (map_error u (page_start seg)))
        (λ _. fill_pages-IsClaimless seg)

  -- After a round the map is the one that the claim left, whatever follows the claim.
  pub map_segment-map :
      (seg : Segment) (v : Vcpu u)
      → (map_segment u seg v).1.map
        ≡ (Memory.insert v.map (page_start seg) (pages_size seg) seg.flags).1
  unfolding map_segment claim_range IsClaimless
  map_segment-map seg v =
      elim (Outcome-cases (Memory.insert v.map (page_start seg) (pages_size seg) seg.flags).0) [
        | inl (done, e) ↦ rw e (place_segment-IsClaimless seg _)
        | inr (inl (x, e)) ↦ rw e refl
        | inr (inr e) ↦ rw e refl
      ]

  pub map_segment-inserted :
      (seg : Segment) (v : Vcpu u)
      → (map_segment u seg v).0 ≡ ok tt
      → (Memory.insert v.map (page_start seg) (pages_size seg) seg.flags).0 ≡ ok tt
  unfolding map_segment claim_range
  map_segment-inserted seg v h =
      elim (Outcome-cases (Memory.insert v.map (page_start seg) (pages_size seg) seg.flags).0) [
        | inl (done, e) ↦ e
        | inr (inl (x, e)) ↦ cc (rw e at h)
        | inr (inr e) ↦ cc (rw e at h)
      ]

  pub map_segment-IsWellFormed :
      (seg : Segment) (v : Vcpu u)
      → IsLow seg
      → IsWellFormed v.map
      → IsWellFormed (map_segment u seg v).1.map
  map_segment-IsWellFormed seg v low w =
      rw (map_segment-map seg v) (insert-IsWellFormed v.map _ _ _ w (pages_fit seg low))

  map_segments-IsWellFormed :
      (segs : List Segment) (v : Vcpu u)
      → AllLow segs
      → IsWellFormed v.map
      → IsWellFormed (map_segments u segs v).1.map
  unfolding map_segments AllLow
  map_segments-IsWellFormed [] v low w = w
  map_segments-IsWellFormed (seg ∷ segs) v low w =
      let w' = map_segment-IsWellFormed seg v low.0 w in
      elim (Outcome-cases (map_segment u seg v).0) [
        | inl (done, e) ↦ rw e (map_segments-IsWellFormed segs _ low.1 w')
        | inr (inl (x, e)) ↦ rw e w'
        | inr (inr e) ↦ rw e w'
      ]

  pub map_elf-segments :
      (image : LoadedElf) (v : Vcpu u) (s : u.State)
      → v.uc ≡ some s
      → map_elf u image v ≡ map_segments u image.segments v
  unfolding map_elf engine_present
  map_elf-segments image v s loaded = rw loaded refl

  -- On every branch, errors included, mapping an image whose segments end two pages below the top of
  -- the address space leaves a map whose regions are sorted, disjoint and below the top.
  pub map_elf-IsWellFormed :
      (image : LoadedElf) (v : Vcpu u) (s : u.State)
      → v.uc ≡ some s
      → AllLow image.segments
      → IsWellFormed v.map
      → IsWellFormed (map_elf u image v).1.map
  map_elf-IsWellFormed image v s loaded low w =
      rw (map_elf-segments image v s loaded) (map_segments-IsWellFormed image.segments v low w)

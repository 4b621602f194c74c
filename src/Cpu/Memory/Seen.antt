-- ===== src/Cpu/Memory/Seen.antt =====
-- What the guest finds where a segment of the image was mapped.
use win_vpwn.Base.{
  ℕ, zero, suc, ◌+◌, ◌-◌, ◌≤◌, ◌<◌, List, [], ◌∷◌, any, Option, some, some-injective, ◌≡◌, refl,
  sym, ap, ◌∙◌, subst, arith, ok, length, replicate, isize_max, get_elem?, get_elem?-append_right,
  get_elem?-replicate, ltb, Bool-cases, inl, inr, true, false,
}
use win_vpwn.Memory.Claims.{in_range}
use win_vpwn.Memory.Place.{IsWellFormed}
use win_vpwn.Vkernel.Guest.{zeroed}
use win_vpwn.Elf.{Segment, LoadedElf, load_elf}
use win_vpwn.Elf.Format.{Goblin, ProgramHeader}
use win_vpwn.Elf.Segments.{IsLoaded, AllLoaded, file_part, length-file_part, load_elf-ok}
use win_vpwn.Elf.Contents.{AllLoaded-at, load_elf-file_bytes}
use win_vpwn.Cpu.Engine.{Unicorn}
use win_vpwn.Cpu.Memory.{EngineMemory}
use win_vpwn.Cpu.Memory.Loaded.{overlay, overlays, map_elf-overlays}
use win_vpwn.Cpu.Vcpu.{Vcpu, map_elf, read_guest}
use win_vpwn.Cpu.Vcpu.Mapping.{IsLow, AllLow, in_pages}
use win_vpwn.Cpu.Vcpu.Claimed.{PagesApart, map_elf-claimed}
use win_vpwn.Cpu.Vcpu.Pages.{pages_size_lem}

-- Past its file part the segment is zero.
unfoldable IsFilled : Segment → Type 0
IsFilled seg = (j : ℕ) → seg.filesz ≤ j → j < seg.memsz → get_elem? seg.bytes j ≡ some 0

pub memory_part-in_pages :
    (seg : Segment) (a : ℕ)
    → IsLow seg
    → in_range seg.vaddr seg.memsz a ≡ true
    → in_pages seg a ≡ true
unfolding IsLow in_pages
memory_part-in_pages seg a low inside =
    let (_, starts, _, _, ends, _) = pages_size_lem seg low.0 (omega (arith, low)) in
    ground (arith, inside, starts, ends)

overlay_outside :
    (f : ℕ → Option ℕ) (seg : Segment) (a : ℕ)
    → IsLow seg
    → in_pages seg a ≡ false
    → overlay f seg a ≡ f a
unfolding IsLow in_pages
overlay_outside f seg a low outside =
    let (_, starts, _, _, ends, _) = pages_size_lem seg low.0 (omega (arith, low)) in
    let file_le = low.0 in
    let past : in_range seg.vaddr seg.filesz a ≡ false =
      ground (arith, outside, starts, ends, file_le) in
    rw (past, outside) refl

overlays_outside :
    (f : ℕ → Option ℕ) (segs : List Segment) (a : ℕ)
    → AllLow segs
    → any (λ s. in_pages s a) segs ≡ false
    → overlays f segs a ≡ f a
unfolding AllLow
overlays_outside f [] a low outside = refl
overlays_outside f (seg ∷ segs) a low outside =
    let here : in_pages seg a ≡ false = ground (arith, outside) in
    let later : any (λ s. in_pages s a) segs ≡ false = ground (arith, outside) in
    overlays_outside (overlay f seg) segs a low.1 later ∙ overlay_outside f seg a low.0 here

overlay_inside :
    (f : ℕ → Option ℕ) (seg : Segment) (j : ℕ)
    → IsLow seg
    → IsFilled seg
    → j < seg.memsz
    → overlay f seg (seg.vaddr + j) ≡ get_elem? seg.bytes j
unfolding IsFilled
overlay_inside f seg j low filled h =
    let offset : seg.vaddr + j - seg.vaddr ≡ j = omega arith in
    let covered = memory_part-in_pages seg (seg.vaddr + j) low (ground (arith, h)) in
    elim (Bool-cases (in_range seg.vaddr seg.filesz (seg.vaddr + j))) [
      | inl inside ↦ rw (inside, offset) refl
      | inr past ↦
          let after : seg.filesz ≤ j = ground (arith, past) in
          rw (past, covered) (sym (filled j after h))
    ]

IsLoaded-IsFilled :
    (image : List ℕ) (phdr : ProgramHeader) (seg : Segment) → IsLoaded image phdr seg → IsFilled seg
unfolding IsFilled
IsLoaded-IsFilled image phdr seg l j past inside =
    let memsz : seg.memsz ≡ phdr.p_memsz = ap (λ (s : Segment). s.memsz) l.header in
    let filesz : seg.filesz ≡ phdr.p_filesz = ap (λ (s : Segment). s.filesz) l.header in
    let part = length-file_part image phdr l.in_image in
    let zeros : List ℕ = replicate (phdr.p_memsz - phdr.p_filesz) 0 in
    ap (λ b. get_elem? b j) l.contents
    ∙ get_elem?-append_right (file_part image phdr) zeros j (omega (arith, part, past, filesz))
    ∙ get_elem?-replicate (phdr.p_memsz - phdr.p_filesz) (j - length (file_part image phdr)) 0
        (omega (arith, part, past, filesz, memsz, inside))

pub overlays_inside :
    (image : List ℕ) (phdrs : List ProgramHeader) (f : ℕ → Option ℕ) (segs : List Segment) (i : ℕ)
    (seg : Segment) (j : ℕ)
    → AllLoaded image phdrs segs
    → AllLow segs
    → PagesApart segs
    → get_elem? segs i ≡ some seg
    → j < seg.memsz
    → overlays f segs (seg.vaddr + j) ≡ get_elem? seg.bytes j
unfolding AllLow PagesApart
overlays_inside image [] f [] i seg j loaded low apart at h = cc
overlays_inside image (phdr ∷ phdrs) f [] i seg j loaded low apart at h = absurd loaded
overlays_inside image [] f (s ∷ segs) i seg j loaded low apart at h = absurd loaded
overlays_inside image (phdr ∷ phdrs) f (s ∷ segs) zero seg j loaded low apart at h =
    let same : s ≡ seg = some-injective at in
    let filled = subst IsFilled same (IsLoaded-IsFilled image phdr s loaded.0) in
    let low' = subst IsLow same low.0 in
    let covered = memory_part-in_pages seg (seg.vaddr + j) low' (ground (arith, h)) in
    let free = apart.0 (seg.vaddr + j) in
    let covered' : in_pages s (seg.vaddr + j) ≡ true =
      ap (λ t. in_pages t (seg.vaddr + j)) same ∙ covered in
    overlays_outside (overlay f s) segs (seg.vaddr + j) low.1 (rw covered' at free)
    ∙ ap (λ t. overlay f t (seg.vaddr + j)) same
    ∙ overlay_inside f seg j low' filled h
overlays_inside image (phdr ∷ phdrs) f (s ∷ segs) (suc i) seg j loaded low apart at h =
    overlays_inside image phdrs (overlay f s) segs i seg j loaded.1 low.1 apart.1 at h

module _ (u : Unicorn) (memory : EngineMemory u) where
  pub read_guest-mem_read :
      (v : Vcpu u) (s : u.State) (addr len : ℕ) (bytes : List ℕ)
      → v.uc ≡ some s
      → len ≤ isize_max
      → u.mem_read s addr len ≡ ok bytes
      → read_guest u v addr len ≡ ok bytes
  unfolding read_guest zeroed
  read_guest-mem_read v s addr len bytes loaded short done =
      let fits : ltb isize_max len ≡ false = ground (arith, short) in
      rw (loaded, read_guest, fits, done) refl

  -- A loaded segment whose bytes stand at its addresses is what `read_guest` returns.
  pub read_guest-segment :
      (goblin : Goblin) (image : List ℕ) (elf : LoadedElf) (v : Vcpu u) (s : u.State) (i : ℕ)
      (seg : Segment)
      → load_elf goblin image ≡ ok elf
      → get_elem? elf.segments i ≡ some seg
      → v.uc ≡ some s
      → ((j : ℕ) → j < seg.memsz → memory.byte s (seg.vaddr + j) ≡ get_elem? seg.bytes j)
      → read_guest u v seg.vaddr seg.memsz ≡ ok seg.bytes
  read_guest-segment goblin image elf v s i seg loads at loaded there =
      let (file, parsed, machine, type, entry, pie, some_seg, all) =
        load_elf-ok goblin image elf loads in
      let (phdr, one) = AllLoaded-at image _ elf.segments i seg all at in
      let (whole, fits, _) = load_elf-file_bytes goblin image elf i seg loads at in
      let memsz : seg.memsz ≡ phdr.p_memsz = ap (λ (s : Segment). s.memsz) one.header in
      let vaddr : seg.vaddr ≡ phdr.p_vaddr = ap (λ (s : Segment). s.vaddr) one.header in
      let in_space = one.in_space in
      let read =
        memory.mem_read-byte s seg.vaddr seg.bytes (omega (arith, whole, memsz, vaddr, in_space))
          (λ j h. there j (omega (arith, h, whole))) in
      read_guest-mem_read v s seg.vaddr seg.memsz seg.bytes loaded
        (omega (arith, memsz, one.allocated)) (sym (ap (u.mem_read s seg.vaddr) whole) ∙ read)

  -- When an image that the loader gave is mapped into an address space that is well-formed, and its
  -- segments end two pages below the top, `read_guest` of any segment's range returns the segment's
  -- bytes: its file part, and zeros.
  pub read_guest-map_elf :
      (goblin : Goblin) (image : List ℕ) (elf : LoadedElf) (v : Vcpu u) (s : u.State) (i : ℕ)
      (seg : Segment)
      → load_elf goblin image ≡ ok elf
      → v.uc ≡ some s
      → IsWellFormed v.map
      → AllLow elf.segments
      → (map_elf u elf v).0 ≡ ok tt
      → get_elem? elf.segments i ≡ some seg
      → read_guest u (map_elf u elf v).1 seg.vaddr seg.memsz ≡ ok seg.bytes
  read_guest-map_elf goblin image elf v s i seg loads loaded well low mapped at =
      let (file, parsed, machine, type, entry, pie, some_seg, all) =
        load_elf-ok goblin image elf loads in
      let (claims, apart) = map_elf-claimed u elf v s loaded low well mapped in
      let (s', final, view) = map_elf-overlays u memory elf v s loaded low mapped in
      read_guest-segment goblin image elf (map_elf u elf v).1 s' i seg loads at final (λ j h.
        view (seg.vaddr + j)
        ∙ overlays_inside image _ (memory.byte s) elf.segments i seg j all low apart at h)

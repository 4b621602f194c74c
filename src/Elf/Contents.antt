-- ===== src/Elf/Contents.antt =====
-- The file part of each segment that `load_elf` returns: `Segment::file_bytes`.
use win_vpwn.Base.{
  ℕ, zero, suc, ◌-◌, ◌≤◌, List, [], ◌∷◌, some, ◌≡◌, ap, ◌∙◌, subst, arith, ok, length,
  length-append, length-replicate, take, replicate, get_elem?, length-take, refl, false, ltb,
}
use win_vpwn.Elf.Format.{Goblin, ProgramHeader}
use win_vpwn.Elf.{Segment, LoadedElf, ElfError, file_bytes, load_elf}
use win_vpwn.Elf.Segments.{IsLoaded, AllLoaded, file_part, length-file_part, load_elf-ok}

-- The segment's bytes are as many as its memory size says, and its file part can be taken.
HasFilePart : Segment → Type 0
HasFilePart seg =
    (length seg.bytes ≡ seg.memsz)
    × (seg.filesz ≤ seg.memsz)
    × ((bytes : List ℕ) × (file_bytes {E = ElfError} seg ≡ ok bytes) × (length bytes ≡ seg.filesz))

IsLoaded-HasFilePart :
    (image : List ℕ) (phdr : ProgramHeader) (seg : Segment)
    → IsLoaded image phdr seg
    → HasFilePart seg
unfolding HasFilePart file_bytes
IsLoaded-HasFilePart image phdr seg l =
    let memsz : seg.memsz ≡ phdr.p_memsz = ap (λ (s : Segment). s.memsz) l.header in
    let filesz : seg.filesz ≡ phdr.p_filesz = ap (λ (s : Segment). s.filesz) l.header in
    let part = length-file_part image phdr l.in_image in
    let zeros : length (replicate {A = ℕ} (phdr.p_memsz - phdr.p_filesz) 0)
        ≡ phdr.p_memsz - phdr.p_filesz =
      length-replicate (phdr.p_memsz - phdr.p_filesz) 0 in
    let whole : length seg.bytes ≡ seg.memsz =
      ap length l.contents
      ∙ length-append (file_part image phdr) (replicate (phdr.p_memsz - phdr.p_filesz) 0)
      ∙ omega (arith, part, zeros, memsz, l.fits) in
    let fits : seg.filesz ≤ seg.memsz = omega (arith, memsz, filesz, l.fits) in
    let enough : ltb (length seg.bytes) seg.filesz ≡ false = ground (arith, whole, fits) in
    let taken = length-take seg.filesz seg.bytes in
    (whole, fits, (take seg.filesz seg.bytes, rw enough refl, omega (arith, taken, whole, fits)))

-- Each segment comes from a header.
pub AllLoaded-at :
    (image : List ℕ) (phdrs : List ProgramHeader) (segs : List Segment) (i : ℕ) (seg : Segment)
    → AllLoaded image phdrs segs
    → get_elem? segs i ≡ some seg
    → (phdr : ProgramHeader) × IsLoaded image phdr seg
AllLoaded-at image [] [] i seg l e = cc
AllLoaded-at image [] (s ∷ segs) i seg l e = absurd l
AllLoaded-at image (phdr ∷ phdrs) [] i seg l e = absurd l
AllLoaded-at image (phdr ∷ phdrs) (s ∷ segs) zero seg l e =
    let same : s ≡ seg = ground (arith, e) in (phdr, subst (λ k. IsLoaded image phdr k) same l.0)
AllLoaded-at image (phdr ∷ phdrs) (s ∷ segs) (suc i) seg l e =
    AllLoaded-at image phdrs segs i seg l.1 e

-- Every segment of a loaded image has as many bytes as its memory size says, and its file part, not
-- longer than that, can be taken without a panic and has the length of its file size.
pub load_elf-file_bytes :
    (goblin : Goblin) (image : List ℕ) (elf : LoadedElf) (i : ℕ) (seg : Segment)
    → load_elf goblin image ≡ ok elf
    → get_elem? elf.segments i ≡ some seg
    → (length seg.bytes ≡ seg.memsz)
      × (seg.filesz ≤ seg.memsz)
      × ((bytes : List ℕ) × (file_bytes {E = ElfError} seg ≡ ok bytes)
          × (length bytes ≡ seg.filesz))
unfolding HasFilePart
load_elf-file_bytes goblin image elf i seg loaded at =
    let (file, parsed, machine, type, entry, pie, some_seg, all) =
      load_elf-ok goblin image elf loaded in
    let (phdr, one) = AllLoaded-at image _ elf.segments i seg all at in
    IsLoaded-HasFilePart image phdr seg one

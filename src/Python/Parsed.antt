-- ===== src/Python/Parsed.antt =====
-- What `parse_elf` returns of an image.
use win_vpwn.Base.{
  ℕ, ◌<◌, ◌^◌, List, [], ◌∷◌, map, false, not, ◌||◌, ◌≡◌, ◌↔◌, refl, sym, ap, ◌∙◌, arith, ok,
  map_err, map_err-ok, >>=-eq-ok, ltb, length, take, eq_text,
}
use win_vpwn.Elf.{LoadedElf, magic, pt_loads, load_elf, elf_error_text}
use win_vpwn.Elf.Format.{Goblin, ElfFile, ProgramHeader}
use win_vpwn.Elf.Accepts.{expected, loaded_from, IsAccepted, load_elf-ok_iff}
use win_vpwn.Python.{SegmentInfo, ElfInfo, segment_info, parse_elf}

-- What is said of a header.
abbrev pub header_info : ProgramHeader → SegmentInfo
header_info phdr = record {
  vaddr = phdr.p_vaddr;
  memsz = phdr.p_memsz;
  filesz = phdr.p_filesz;
  flags = phdr.p_flags;
  align = phdr.p_align;
}

abbrev pub info_from : Goblin → ElfFile → ElfInfo
info_from goblin elf = record {
  entry = elf.entry;
  is_pie = false;
  segments = map header_info (pt_loads goblin elf);
}

map-segment_info :
    (image : List ℕ) (phdrs : List ProgramHeader)
    → map segment_info (map (expected image) phdrs) ≡ map header_info phdrs
map-segment_info image [] = refl
map-segment_info image (phdr ∷ phdrs) =
    ap (λ rest. header_info phdr ∷ rest) (map-segment_info image phdrs)

module _ (goblin : Goblin) (image : List ℕ) where
  info_of : LoadedElf → ElfInfo
  info_of elf = record {
    entry = elf.entry;
    is_pie = elf.is_pie;
    segments = map segment_info elf.segments;
  }

  info_of-loaded_from :
      (elf : ElfFile) → info_of (loaded_from goblin image elf) ≡ info_from goblin elf
  unfolding info_of
  info_of-loaded_from elf =
      ap (λ segs. record { entry = elf.entry; is_pie = false; segments = segs })
        (map-segment_info image (pt_loads goblin elf))

  -- For an image of fewer than 2^64 bytes, `parse_elf` returns a dict exactly if the image begins with
  -- the magic bytes and goblin parses it, in either byte order, as a file that the loader accepts; the dict has the entry
  -- point, says that the file is not position-independent, and has the numbers of each `PT_LOAD`
  -- header, in order.
  pub parse_elf-ok_iff :
      (info : ElfInfo)
      → length image < 2 ^ 64
      → (parse_elf goblin image ≡ ok info) ↔ (
          (elf : ElfFile) × ((ltb (length image) 4 || not (eq_text (take 4 image) magic)) ≡ false)
          × (goblin.parse image ≡ ok elf)
          × (info ≡ info_from goblin elf)
          × IsAccepted goblin image elf)
  unfolding parse_elf info_of
  parse_elf-ok_iff info small = (
    λ parsed.
        let (loaded, loads, made) =
          >>=-eq-ok (map_err elf_error_text (load_elf goblin image)) (λ elf. ok (info_of elf))
            parsed in
        let (elf, good, file, same, accepted) =
          (load_elf-ok_iff goblin image loaded small).0
            (map_err-ok elf_error_text (load_elf goblin image) loads) in
        let told : info_of loaded ≡ info = ground (arith, made) in
        (elf, good, file, sym told ∙ ap info_of same ∙ info_of-loaded_from elf, accepted),
    λ (elf, good, file, same, accepted).
        let loads =
          (load_elf-ok_iff goblin image (loaded_from goblin image elf) small).1
            (elf, good, file, refl, accepted) in
        rw loads (ap ok (info_of-loaded_from elf ∙ sym same)),
  )

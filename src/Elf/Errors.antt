-- ===== src/Elf/Errors.antt =====
-- The errors and the panics of `load_elf`.
use win_vpwn.Base.{
  ℕ, ◌+◌, ◌-◌, ◌^◌, ◌≤◌, ◌<◌, List, [], ◌∷◌, ◌++◌, true, false, not, ◌||◌, ◌≡◌, ◌≢◌, ◌↔◌, ◌⊎◌,
  arith, Outcome, ok, error, panic, length, take, ltb, inl, inr, Bool-cases, eq_text, isize_max,
  sub_u64, length-replicate, ◌>>=◌, map_err, replicate, ==_iff,
}
use win_vpwn.Memory
use win_vpwn.Memory.{Region, MemoryMap, empty_map, contains}
use win_vpwn.Vkernel.Guest.{zeroed}
use win_vpwn.Elf.Format.{Goblin, ElfFile, ProgramHeader}
use win_vpwn.Elf.{
  Segment, ElfError, not_elf, bad_phdr, segment_of, claim, read_contents, copy_to_front, magic,
  load_segments, load_parsed, load_elf, pt_loads,
}
use win_vpwn.Elf.Segments.{length-file_part}

claim-ne_not_elf : (m : MemoryMap) (phdr : ProgramHeader) → claim m phdr ≢ error not_elf
unfolding claim
claim-ne_not_elf m phdr h = ground arith

read_contents-ne_not_elf :
    (image : List ℕ) (phdr : ProgramHeader) → read_contents image phdr ≢ error not_elf
unfolding read_contents zeroed copy_to_front
read_contents-ne_not_elf image phdr h = ground arith

-- An error of a bind is an error of one of its parts.
>>=-error {ℓ κ μ} :
    {E : Type ℓ} {A : Type κ} {B : Type μ} (m : Outcome E A) (f : A → Outcome E B) (e : E)
    → (m >>= f) ≡ error e
    → (m ≡ error e) ⊎ ((a : A) × (f a ≡ error e))
>>=-error (ok a) f e h = inr (a, h)
>>=-error (error x) f e h = inl (ground arith)
>>=-error panic f e h = cc

-- An error of the loop is an error of its first round, or of the rounds after it.
load_segments-error :
    (image : List ℕ) (phdr : ProgramHeader) (phdrs : List ProgramHeader) (m : MemoryMap)
    (before : List Segment) (e : ElfError)
    → load_segments image (phdr ∷ phdrs) m before ≡ error e
    → (claim m phdr ≡ error e)
      ⊎ (read_contents image phdr ≡ error e)
      ⊎ ((m' : MemoryMap) × (bytes : List ℕ) × (load_segments image phdrs m'
              (before ++ segment_of phdr bytes ∷ [])
            ≡ error e))
unfolding load_segments
load_segments-error image phdr phdrs m before e h = elim (>>=-error (claim m phdr) _ e h) [
  | inl refused ↦ inl refused
  | inr (m', rest) ↦ elim (>>=-error (read_contents image phdr) _ e rest) [
    | inl refused ↦ inr (inl refused)
    | inr (bytes, more) ↦ inr (inr (m', bytes, more))
  ]
]

load_segments-ne_not_elf :
    (image : List ℕ) (phdrs : List ProgramHeader) (m : MemoryMap) (before : List Segment)
    → load_segments image phdrs m before ≢ error not_elf
load_segments-ne_not_elf image [] m before h = unfold load_segments in cc h
load_segments-ne_not_elf image (phdr ∷ phdrs) m before h =
    elim (load_segments-error image phdr phdrs m before not_elf h) [
      | inl refused ↦ claim-ne_not_elf m phdr refused
      | inr (inl refused) ↦ read_contents-ne_not_elf image phdr refused
      | inr (inr (m', bytes, more)) ↦ load_segments-ne_not_elf image phdrs m' _ more
    ]

load_parsed-ne_not_elf :
    (goblin : Goblin) (image : List ℕ) (elf : ElfFile)
    → load_parsed goblin image elf ≢ error not_elf
unfolding load_parsed
load_parsed-ne_not_elf goblin image elf h =
    ground (arith, load_segments-ne_not_elf image (pt_loads goblin elf) empty_map [])

-- `NotElf` is the error of exactly the inputs that do not begin with the magic bytes.
pub load_elf-not_elf_iff :
    (goblin : Goblin) (image : List ℕ)
    → (load_elf goblin image ≡ error not_elf)
      ↔ ((ltb (length image) 4 || not (eq_text (take 4 image) magic)) ≡ true)
unfolding load_elf
load_elf-not_elf_iff goblin image = (
  λ h. elim (Bool-cases (ltb (length image) 4 || not (eq_text (take 4 image) magic))) [
    | inl bad ↦ bad
    | inr good ↦ elim (>>=-error (map_err bad_phdr (goblin.parse image)) _ not_elf (rw good at h)) [
      | inl unparsed ↦ ground arith
      | inr (elf, refused) ↦ absurd (load_parsed-ne_not_elf goblin image elf refused)
    ]
  ],
  λ bad. rw bad,
)

-- For an image of fewer than 2^64 bytes, reading the contents of a segment panics exactly if its
-- file part lies in the image, and the segment cannot be allocated or is smaller than its file part.
pub read_contents-panic_iff :
    (image : List ℕ) (phdr : ProgramHeader)
    → length image < 2 ^ 64
    → (read_contents image phdr ≡ panic) ↔ (
        (phdr.p_offset + phdr.p_filesz ≤ length image)
        × ((isize_max < phdr.p_memsz) ⊎ (phdr.p_memsz < phdr.p_filesz)))
unfolding read_contents zeroed copy_to_front
read_contents-panic_iff image phdr small =
    let size : phdr.p_offset + phdr.p_filesz - phdr.p_offset ≡ phdr.p_filesz = omega arith in
    let zeros : length (replicate {A = ℕ} phdr.p_memsz 0) ≡ phdr.p_memsz =
      length-replicate phdr.p_memsz 0 in
    (
      λ h. ground (arith, size, zeros, length-file_part image phdr),
      λ h. ground (arith, size, zeros, length-file_part image phdr),
    )

claim_first :
    (phdr : ProgramHeader)
    → phdr.p_vaddr + phdr.p_memsz < 2 ^ 64
    → (m : MemoryMap) × (claim empty_map phdr ≡ ok m)
unfolding claim Memory.insert
claim_first phdr h = (
  (Memory.insert empty_map phdr.p_vaddr (sub_u64 (phdr.p_vaddr + phdr.p_memsz) phdr.p_vaddr)
      phdr.p_flags).1,
  ground arith,
)

load_segments_first :
    (image : List ℕ) (phdr : ProgramHeader) (phdrs : List ProgramHeader) (m : MemoryMap)
    → claim empty_map phdr ≡ ok m
    → read_contents image phdr ≡ panic
    → load_segments image (phdr ∷ phdrs) empty_map [] ≡ panic
unfolding load_segments
load_segments_first image phdr phdrs m claimed panics = rw (claimed, panics)

-- An image that passes the checks of its header, and whose first loadable segment ends inside the
-- address space and has its file part in the image, but has more bytes in the file than in memory,
-- is not refused with an error: the loader panics.
pub load_elf-panic :
    (goblin : Goblin) (image : List ℕ) (elf : ElfFile) (phdr : ProgramHeader)
    (phdrs : List ProgramHeader)
    → (ltb (length image) 4 || not (eq_text (take 4 image) magic)) ≡ false
    → goblin.parse image ≡ ok elf
    → elf.is_64 ≡ true
    → elf.e_machine ≡ goblin.em_x86_64
    → elf.e_type ≡ goblin.et_exec
    → pt_loads goblin elf ≡ phdr ∷ phdrs
    → phdr.p_vaddr + phdr.p_memsz < 2 ^ 64
    → phdr.p_offset + phdr.p_filesz ≤ length image
    → length image < 2 ^ 64
    → phdr.p_memsz < phdr.p_filesz
    → load_elf goblin image ≡ panic
unfolding load_elf load_parsed
load_elf-panic goblin image elf phdr phdrs m parsed is_64 machine type loads s i small less =
    let (m', claimed) = claim_first phdr s in
    let panics = (read_contents-panic_iff image phdr small).1 (i, inr less) in
    let stops = load_segments_first image phdr phdrs m' claimed panics in
    rw (m, parsed, loads, stops, is_64, (==_iff _ _).1 machine, (==_iff _ _).1 type)

-- ===== src/Elf/Magic.antt =====
-- The images that are not ELF files.
use win_vpwn.Base.{
  ℕ, ◌∷◌, List, [], true, not, ◌||◌, ◌≡◌, ◌≢◌, ◌↔◌, refl, arith, inl, inr, Bool-cases, error, codes,
  Text, length, take, ltb, eq_text, ==_iff,
}
use win_vpwn.Elf.Format.{Goblin}
use win_vpwn.Elf.{
  ElfError, not_elf, unsupported_format, unsupported_machine, unsupported_type, bad_phdr, truncated,
  segment_overlap, elf_error_text, magic, load_elf,
}
use win_vpwn.Elf.Errors.{load_elf-not_elf_iff}

-- The image begins with the byte 0x7f and the letters ELF.
unfoldable pub BeginsElf : List ℕ → Type 0
BeginsElf image = (rest : List ℕ) × (image ≡ 0x7f ∷ b'E' ∷ b'L' ∷ b'F' ∷ rest)

magic-BeginsElf :
    (image : List ℕ)
    → (ltb (length image) 4 || not (eq_text (take 4 image) magic)) ≢ true
    → BeginsElf image
unfolding BeginsElf
magic-BeginsElf [] h = absurd (h refl)
magic-BeginsElf (a ∷ []) h = absurd (h refl)
magic-BeginsElf (a ∷ b ∷ []) h = absurd (h refl)
magic-BeginsElf (a ∷ b ∷ c ∷ []) h = absurd (h refl)
magic-BeginsElf (a ∷ b ∷ c ∷ d ∷ rest) h =
    (rest, ground (arith, ==_iff a 0x7f, ==_iff b b'E', ==_iff c b'L', ==_iff d b'F'))

BeginsElf-magic :
    (image : List ℕ)
    → BeginsElf image
    → (ltb (length image) 4 || not (eq_text (take 4 image) magic)) ≢ true
unfolding BeginsElf
BeginsElf-magic image (rest, same) h = ground (arith, rw same at h)

-- The loader finds an image not to be an ELF file exactly if it does not begin as one.
pub load_elf-not_elf_begins :
    (goblin : Goblin) (image : List ℕ)
    → (load_elf goblin image ≡ error not_elf) ↔ (¬ BeginsElf image)
load_elf-not_elf_begins goblin image = (
  λ h begins. BeginsElf-magic image begins ((load_elf-not_elf_iff goblin image).0 h),
  λ h.
      (load_elf-not_elf_iff goblin image).1
        (elim (Bool-cases (ltb (length image) 4 || not (eq_text (take 4 image) magic))) [
          | inl bad ↦ bad
          | inr good ↦ absurd (h (magic-BeginsElf image λ bad. cc (good, bad)))
        ]),
)

abbrev pub bad_magic : Text
bad_magic = codes "E001: not an ELF file (bad magic)"

-- No other error of the loader has its text.
pub elf_error_text-bad_magic : (e : ElfError) → elf_error_text e ≡ bad_magic → e ≡ not_elf
unfolding elf_error_text
elf_error_text-bad_magic not_elf h = refl
elf_error_text-bad_magic (unsupported_format what) h = absurd (ground (arith, h))
elf_error_text-bad_magic unsupported_machine h = absurd (ground (arith, h))
elf_error_text-bad_magic (unsupported_type found) h = absurd (ground (arith, h))
elf_error_text-bad_magic (bad_phdr reason) h = absurd (ground (arith, h))
elf_error_text-bad_magic (truncated reason) h = absurd (ground (arith, h))
elf_error_text-bad_magic (segment_overlap vaddr other) h = absurd (ground (arith, h))

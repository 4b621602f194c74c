-- ===== src/Tests/Images.antt =====
-- Images: eight bytes that begin with the magic number, and the files that the parser gives.
use win_vpwn.Base.{
  ℕ, List, [], ◌∷◌, true, false, not, ◌||◌, ◌≡◌, ◌↔◌, refl, ok, error, panic, take, arith, ltb,
  eq_text, length, isize_max, if◌then◌else◌,
}
use win_vpwn.Memory
use win_vpwn.Vkernel.Guest.{InMemGuest, zeroed, read}
use win_vpwn.Vkernel.Guest.Laid.{IsLaid}
use win_vpwn.Vkernel.Guest.Reads.{peeks, read-peeks}
use win_vpwn.Elf.{
  Segment, LoadedElf, segment_overlap, magic, load_elf, load_parsed, load_segments, pt_loads, claim,
  read_contents, copy_to_front, overlapped_base,
}
use win_vpwn.Elf.Accepts.{IsLoadable, loaded_from, IsAccepted, load_elf-ok_iff}
use win_vpwn.Elf.Format.{ProgramHeader, ElfFile}
use win_vpwn.Elf.Errors.{load_elf-panic}
use win_vpwn.Elf.Overlaps.{load_elf-overlap_below}
use win_vpwn.Python.{ElfInfo, parse_elf}
use win_vpwn.Python.Parsed.{info_from, parse_elf-ok_iff}
use win_vpwn.Tests.Machine.{parser}

abbrev pub image : List ℕ
image = 0x7f ∷ b'E' ∷ b'L' ∷ b'F' ∷ 10 ∷ 20 ∷ 30 ∷ 40 ∷ []

abbrev pub header : ProgramHeader
header = record {
  p_type = 1;
  p_flags = 5;
  p_offset = 4;
  p_vaddr = 0x400000;
  p_filesz = 3;
  p_memsz = 5;
  p_align = 0x1000;
}

abbrev pub note : ProgramHeader
note = record header { p_type = 4 }

abbrev pub file : ElfFile
file = record {
  is_64 = true;
  little_endian = true;
  e_machine = 62;
  e_type = 2;
  entry = 0x400000;
  program_headers = note ∷ header ∷ [];
}

-- The only segment of the image: the file's bytes 4 to 6, and two zeros.
abbrev pub first : Segment
first = record {
  vaddr = 0x400000;
  memsz = 5;
  filesz = 3;
  bytes = 10 ∷ 20 ∷ 30 ∷ 0 ∷ 0 ∷ [];
  flags = 5;
  align = 0x1000;
}

abbrev pub loaded : LoadedElf
loaded = record { entry = 0x400000; segments = first ∷ []; is_pie = false }

pub loads : load_elf (parser file) image ≡ ok loaded
unfolding load_elf load_parsed load_segments pt_loads claim Memory.insert read_contents zeroed
    copy_to_front
loads = refl

-- More bytes in the file than in memory.
abbrev shrunk : ProgramHeader
shrunk = record header { p_memsz = 2 }

abbrev shrunk_file : ElfFile
shrunk_file = record file { program_headers = shrunk ∷ [] }

pt_loads-shrunk : pt_loads (parser shrunk_file) shrunk_file ≡ shrunk ∷ []
unfolding pt_loads
pt_loads-shrunk = refl

load_elf-panic_example : load_elf (parser shrunk_file) image ≡ panic
load_elf-panic_example =
    load_elf-panic (parser shrunk_file) image shrunk_file shrunk [] refl refl refl refl refl
      pt_loads-shrunk (omega arith) (omega arith) (omega arith) (omega arith)

-- A second header that begins inside the first segment.
abbrev overlapping_file : ElfFile
overlapping_file = record file {
  program_headers = header ∷ record header { p_vaddr = 0x400002 } ∷ [];
}

refuses_overlap :
    load_elf (parser overlapping_file) image ≡ error (segment_overlap 0x400002 0x400000)
unfolding load_elf load_parsed load_segments pt_loads claim Memory.insert read_contents zeroed
    copy_to_front overlapped_base
refuses_overlap = refl

-- A second header that begins below the first segment, and ends in it.
abbrev low : ProgramHeader
low = record header { p_vaddr = 0x3ffffe }

abbrev low_file : ElfFile
low_file = record file { program_headers = header ∷ low ∷ [] }

pt_loads-low : pt_loads (parser low_file) low_file ≡ header ∷ low ∷ []
unfolding pt_loads
pt_loads-low = refl

header-IsLoadable : IsLoadable image header
unfolding IsLoadable
header-IsLoadable = (omega arith, omega arith, omega arith, omega arith)

load_elf-overlap_below_example :
    load_elf (parser low_file) image ≡ error (segment_overlap 0x3ffffe 0)
load_elf-overlap_below_example =
    load_elf-overlap_below (parser low_file) image low_file header low [] refl refl refl refl refl
      pt_loads-low (omega arith) header-IsLoadable (omega arith) (omega arith) (omega arith)
      (omega arith)

-- Two regions that meet.
abbrev pub guest : InMemGuest
guest = record { bytes = (0x1000, 1 ∷ 2 ∷ 3 ∷ []) ∷ (0x1003, 4 ∷ 5 ∷ []) ∷ [] }

pub guest-IsLaid : IsLaid guest
guest-IsLaid = (omega arith, omega arith, (omega arith, tt, tt))

read-peeks_example : read guest 0x1001 3 ≡ (if ltb isize_max 3 then panic else peeks guest 0x1001 3)
read-peeks_example = read-peeks guest 0x1001 3 guest-IsLaid

-- The same file in the other byte order.
abbrev big_endian_file : ElfFile
big_endian_file = record file { little_endian = false }

load_elf-ok_iff_example : (load_elf (parser big_endian_file) image ≡ ok loaded) ↔ (
    (elf : ElfFile) × ((ltb (length image) 4 || not (eq_text (take 4 image) magic)) ≡ false)
    × ((parser big_endian_file).parse image ≡ ok elf)
    × (loaded ≡ loaded_from (parser big_endian_file) image elf)
    × IsAccepted (parser big_endian_file) image elf)
load_elf-ok_iff_example = load_elf-ok_iff (parser big_endian_file) image loaded (omega arith)

-- The dict of the image.
abbrev info : ElfInfo
info = record {
  entry = 0x400000;
  is_pie = false;
  segments = record { vaddr = 0x400000; memsz = 5; filesz = 3; flags = 5; align = 0x1000 } ∷ [];
}

parses : parse_elf (parser big_endian_file) image ≡ ok info
unfolding parse_elf load_elf load_parsed load_segments pt_loads claim Memory.insert read_contents
    zeroed copy_to_front
parses = refl

parse_elf-ok_iff_example : (parse_elf (parser big_endian_file) image ≡ ok info) ↔ (
    (elf : ElfFile) × ((ltb (length image) 4 || not (eq_text (take 4 image) magic)) ≡ false)
    × ((parser big_endian_file).parse image ≡ ok elf)
    × (info ≡ info_from (parser big_endian_file) elf)
    × IsAccepted (parser big_endian_file) image elf)
parse_elf-ok_iff_example = parse_elf-ok_iff (parser big_endian_file) image info (omega arith)

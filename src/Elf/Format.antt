-- ===== src/Elf/Format.antt =====
-- The goblin crate, which elf/loader.rs parses an image with: a parameter of the model. Its types
-- have the fields that the loader reads, and its constants their values in the ELF specification.
use win_vpwn.Base.{ℕ, List, Bool, Text, Outcome, ◌≡◌}

pub record ProgramHeader : Type 0 where
  pub p_type : ℕ
  pub p_flags : ℕ
  pub p_offset : ℕ
  pub p_vaddr : ℕ
  pub p_filesz : ℕ
  pub p_memsz : ℕ
  pub p_align : ℕ

-- `goblin::elf::Elf`, with the two fields of its header, and the byte order that it was parsed in,
-- which the loader does not look at.
pub record ElfFile : Type 0 where
  pub is_64 : Bool
  pub little_endian : Bool
  pub e_machine : ℕ
  pub e_type : ℕ
  pub entry : ℕ
  pub program_headers : List ProgramHeader

-- `parse` fails with the text of its error.
pub record Goblin : Type 0 where
  pub parse : List ℕ → Outcome Text ElfFile
  pub em_x86_64 : ℕ
  pub et_exec : ℕ
  pub et_dyn : ℕ
  pub pt_load : ℕ
  pub pf_x : ℕ
  pub pf_w : ℕ
  pub pf_r : ℕ
  pub em_x86_64_value : em_x86_64 ≡ 62
  pub et_exec_value : et_exec ≡ 2
  pub et_dyn_value : et_dyn ≡ 3
  pub pt_load_value : pt_load ≡ 1
  pub pf_x_value : pf_x ≡ 1
  pub pf_w_value : pf_w ≡ 2
  pub pf_r_value : pf_r ≡ 4

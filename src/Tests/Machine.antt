-- ===== src/Tests/Machine.antt =====
-- A guest machine for the tests: the engine runs a list of syscalls, each the registers RAX, RDI,
-- RSI and RDX; every byte of its memory is `A`, but nothing is mapped below 4096. With it, a parser
-- that gives the same file for every image.
use win_vpwn.Base.{
  ℕ, ◌+◌, List, [], ◌∷◌, Bool, true, false, Text, codes, ◌≡◌, refl, Outcome, ok, error, length,
  replicate, length-replicate, ltb, ◌==◌, if◌then◌else◌, arith,
}
use win_vpwn.Elf.Format.{Goblin, ElfFile}
use win_vpwn.Cpu.Engine.{Unicorn, Event, at_syscall, returned}

pub record Machine : Type 0 where
  pub regs : ℕ → ℕ
  pub program : List (ℕ × ℕ × ℕ × ℕ)
  pub halted : Bool

abbrev pub set_reg : (ℕ → ℕ) → ℕ → ℕ → ℕ → ℕ
set_reg regs r v other = if other == r then v else regs other

abbrev pub write_reg : Machine → ℕ → ℕ → Machine
write_reg s r v = record s { regs = set_reg s.regs r v }

abbrev pub read_bytes : Machine → ℕ → ℕ → Outcome Text (List ℕ)
read_bytes s addr len =
    if ltb addr 4096 then error (codes "READ_UNMAPPED") else ok (replicate len b'A')

-- RAX, RDI, RSI and RDX are the registers 0 to 3.
abbrev pub load_regs : (ℕ → ℕ) → ℕ × ℕ × ℕ × ℕ → ℕ → ℕ
load_regs regs (a, b, c, d) = set_reg (set_reg (set_reg (set_reg regs 0 a) 1 b) 2 c) 3 d

abbrev pub step_program : Machine → List (ℕ × ℕ × ℕ × ℕ) → Event Text × Machine
step_program s [] = (returned (ok tt), s)
step_program s (call ∷ rest) =
    if s.halted
    then (returned (ok tt), s)
    else (at_syscall, record s { regs = load_regs s.regs call; program = rest })

abbrev pub resume_machine : Machine → Event Text × Machine
resume_machine s = step_program s s.program

pub step_program-halted :
    (s : Machine) (calls : List (ℕ × ℕ × ℕ × ℕ))
    → s.halted ≡ true
    → (step_program s calls).0 ≡ returned (ok tt)
step_program-halted s [] h = refl
step_program-halted s (call ∷ rest) h = ground (arith, h)

pub read_bytes-length :
    (s : Machine) (addr len : ℕ) (bytes : List ℕ)
    → read_bytes s addr len ≡ ok bytes
    → length bytes ≡ len
read_bytes-length s addr len bytes h = ground (arith, length-replicate {A = ℕ} len b'A')

pub read-write_reg :
    (s : Machine) (r v : ℕ) → ◌≡◌ {A = Outcome Text ℕ} (ok ((write_reg s r v).regs r)) (ok v)
read-write_reg s r v = ground arith

abbrev pub machine : List (ℕ × ℕ × ℕ × ℕ) → Unicorn
machine calls = record {
  State = Machine;
  UcError = Text;
  error_text = λ e. e;
  Reg = ℕ;
  rax = 0;
  rdi = 1;
  rsi = 2;
  rdx = 3;
  r10 = 4;
  r8 = 5;
  r9 = 6;
  rip = 7;
  rsp = 8;
  Prot = ℕ;
  prot_none = 0;
  prot_read = 1;
  prot_write = 2;
  prot_exec = 4;
  prot_or = ◌+◌;
  create = ok (record { regs = λ r. 0; program = calls; halted = false });
  add_syscall_hook = λ s. (ok tt, s);
  reg_read = λ s r. ok (s.regs r);
  reg_write = λ s r v. (ok tt, write_reg s r v);
  mem_read = read_bytes;
  mem_write = λ s addr bytes. (ok tt, s);
  mem_map = λ s base size prot. (ok tt, s);
  emu_stop = λ s. (ok tt, record s { halted = true });
  emu_begin = λ s begin until timeout count. write_reg s 7 begin;
  resume = resume_machine;
  mem_read_length = read_bytes-length;
  reg_read-reg_write = λ s r v fits written. read-write_reg s r v;
  rsp-reg_write_rip = λ s v written. refl;
  resume-emu_stop = λ s stopped. step_program-halted (record s { halted = true }) s.program refl;
}

abbrev pub parser : ElfFile → Goblin
parser file = record {
  parse = λ image. ok file;
  em_x86_64 = 62;
  et_exec = 2;
  et_dyn = 3;
  pt_load = 1;
  pf_x = 1;
  pf_w = 2;
  pf_r = 4;
  em_x86_64_value = refl;
  et_exec_value = refl;
  et_dyn_value = refl;
  pt_load_value = refl;
  pf_x_value = refl;
  pf_w_value = refl;
  pf_r_value = refl;
}

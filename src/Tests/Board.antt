-- ===== src/Tests/Board.antt =====
-- A machine with a memory, for the tests of what the guest finds there: nothing runs on it, and a
-- write maps what it writes.
use win_vpwn.Base.{
  ℕ, zero, suc, ◌+◌, ◌-◌, ◌<◌, List, [], ◌∷◌, Option, Option-cases, none, some, Text, codes, ◌≡◌,
  refl, sym, ap, ◌∙◌, Outcome, ok, error, panic, length, inl, inr, get_elem?, if◌then◌else◌, arith,
}
use win_vpwn.Memory.Claims.{in_range}
use win_vpwn.Cpu.Engine.{Unicorn, returned}
use win_vpwn.Cpu.Memory.{EngineMemory}
use win_vpwn.Tests.Machine.{set_reg}

pub record Board : Type 0 where
  pub regs : ℕ → ℕ
  pub mem : ℕ → Option ℕ

abbrev pub put_first : ℕ → Outcome Text (List ℕ) → Outcome Text (List ℕ)
put_first b (ok bytes) = ok (b ∷ bytes)
put_first b (error e) = error e
put_first b panic = panic

-- The bytes at `len` addresses from `addr` on.
abbrev pub gather : (ℕ → Option ℕ) → ℕ → ℕ → Outcome Text (List ℕ)
gather mem addr zero = ok []
gather mem addr (suc n) = elim (mem addr) [
  | none ↦ error (codes "READ_UNMAPPED")
  | some b ↦ put_first b (gather mem (suc addr) n)
]

put_first-length :
    (b n : ℕ) (r : Outcome Text (List ℕ)) (bytes : List ℕ)
    → put_first b r ≡ ok bytes
    → ((rest : List ℕ) → r ≡ ok rest → length rest ≡ n)
    → length bytes ≡ suc n
put_first-length b n (ok rest) bytes e each =
    let tail = each rest refl in
    let same : b ∷ rest ≡ bytes = ground (arith, e) in sym (ap length same) ∙ omega (arith, tail)
put_first-length b n (error x) bytes e each = cc
put_first-length b n panic bytes e each = cc

pub gather-length :
    (mem : ℕ → Option ℕ) (addr len : ℕ) (bytes : List ℕ)
    → gather mem addr len ≡ ok bytes
    → length bytes ≡ len
gather-length mem addr zero bytes e = ground (arith, e)
gather-length mem addr (suc n) bytes e = elim (Option-cases (mem addr)) [
  | inl gone ↦ cc (rw (gone, gather) at e)
  | inr (b, held) ↦
      put_first-length b n (gather mem (suc addr) n) bytes (rw (held, gather) at e)
        (gather-length mem (suc addr) n)
]

pub gather-bytes :
    (mem : ℕ → Option ℕ) (addr : ℕ) (bytes : List ℕ)
    → ((i : ℕ) → i < length bytes → mem (addr + i) ≡ get_elem? bytes i)
    → gather mem addr (length bytes) ≡ ok bytes
gather-bytes mem addr [] each = refl
gather-bytes mem addr (b ∷ bytes) each =
    let here : addr + 0 ≡ addr = omega arith in
    let first : mem addr ≡ some b = ap mem (sym here) ∙ each 0 (omega arith) in
    let rest = gather-bytes mem (suc addr) bytes (λ i h.
      let next : suc addr + i ≡ addr + suc i = omega arith in
      ap mem next ∙ each (suc i) (omega (arith, h))) in
    rw (first, rest) refl

abbrev pub put : (ℕ → Option ℕ) → ℕ → List ℕ → ℕ → Option ℕ
put mem addr bytes a = if in_range addr (length bytes) a then get_elem? bytes (a - addr) else mem a

abbrev pub clear : (ℕ → Option ℕ) → ℕ → ℕ → ℕ → Option ℕ
clear mem base size a = if in_range base size a then some 0 else mem a

abbrev pub blank : Board
blank = record { regs = λ r. 0; mem = λ a. none }

pub read-set_reg :
    (regs : ℕ → ℕ) (r v : ℕ) → ◌≡◌ {A = Outcome Text ℕ} (ok (set_reg regs r v r)) (ok v)
read-set_reg regs r v = ground arith

abbrev pub board : Unicorn
board = record {
  State = Board;
  UcError = Text;
  error_text = λ e. e;
  Reg = ℕ;
  rax = 0;
  rdi = 1;
  rsi = 2;
  rdx = 3;
  r10 = 4;
  r8 = 5;
  r9 = 6;
  rip = 7;
  rsp = 8;
  Prot = ℕ;
  prot_none = 0;
  prot_read = 1;
  prot_write = 2;
  prot_exec = 4;
  prot_or = ◌+◌;
  create = ok blank;
  add_syscall_hook = λ s. (ok tt, s);
  reg_read = λ s r. ok (s.regs r);
  reg_write = λ s r v. (ok tt, record s { regs = set_reg s.regs r v });
  mem_read = λ s addr len. gather s.mem addr len;
  mem_write = λ s addr bytes. (ok tt, record s { mem = put s.mem addr bytes });
  mem_map = λ s base size prot. (ok tt, record s { mem = clear s.mem base size });
  emu_stop = λ s. (ok tt, s);
  emu_begin = λ s begin until timeout count. s;
  resume = λ s. (returned (ok tt), s);
  mem_read_length = λ s addr len bytes e. gather-length s.mem addr len bytes e;
  reg_read-reg_write = λ s r v fits written. read-set_reg s.regs r v;
  rsp-reg_write_rip = λ s v written. refl;
  resume-emu_stop = λ s stopped. refl;
}

abbrev pub board_memory : EngineMemory board
board_memory = record {
  byte = λ s. s.mem;
  byte-mem_map = λ s base size prot a done. refl;
  byte-mem_write = λ s addr bytes a fits done. refl;
  byte-reg_write = λ s r v a done. refl;
  mem_read-byte = λ s addr bytes fits each. gather-bytes s.mem addr bytes each;
}

-- ===== src/Cpu/Engine.antt =====
-- The unicorn-engine crate, which cpu/unicorn_engine.rs runs a guest with: a parameter of the model,
-- with what the code relies on. The guest-memory backend of vkernel/mem.rs stands on it.
use win_vpwn.Base.{ℕ, ◌<◌, ◌^◌, List, ◌≡◌, Text, Outcome, ok, Done, length, map_err, ◌>>=◌, arith}
use win_vpwn.Vkernel.Guest.{GuestMemError, GuestMemory, zeroed}

-- What ends a stretch of emulation: the guest is at a `syscall` instruction and the hook is called,
-- or `emu_start` returns.
pub data Event (UcError : Type 0) : Type 0 where
  at_syscall : Event UcError
  returned : Outcome UcError Done → Event UcError

pub record Unicorn : Type 1 where
  pub State : Type 0
  pub UcError : Type 0
  -- `to_string` of a `uc_error`
  pub error_text : UcError → Text
  -- `RegisterX86`, with the registers that the source names
  pub Reg : Type 0
  pub rax : Reg
  pub rdi : Reg
  pub rsi : Reg
  pub rdx : Reg
  pub r10 : Reg
  pub r8 : Reg
  pub r9 : Reg
  pub rip : Reg
  pub rsp : Reg
  -- `Prot`
  pub Prot : Type 0
  pub prot_none : Prot
  pub prot_read : Prot
  pub prot_write : Prot
  pub prot_exec : Prot
  pub prot_or : Prot → Prot → Prot
  -- `Unicorn::new(Arch::X86, Mode::MODE_64)`
  pub create : Outcome UcError State
  -- `add_insn_sys_hook(X86Insn::SYSCALL, 1, 0, …)`
  pub add_syscall_hook : State → Outcome UcError Done × State
  pub reg_read : State → Reg → Outcome UcError ℕ
  pub reg_write : State → Reg → ℕ → Outcome UcError Done × State
  pub mem_read : State → ℕ → ℕ → Outcome UcError (List ℕ)
  pub mem_write : State → ℕ → List ℕ → Outcome UcError Done × State
  pub mem_map : State → ℕ → ℕ → Prot → Outcome UcError Done × State
  pub emu_stop : State → Outcome UcError Done × State
  -- `emu_start(begin, until, timeout, count)`: the engine as it sets off, and from there on the
  -- stretches up to each event
  pub emu_begin : State → ℕ → ℕ → ℕ → ℕ → State
  pub resume : State → Event UcError × State
  -- a read fills the buffer that it is given
  pub mem_read_length :
      (s : State) (addr len : ℕ) (bytes : List ℕ)
      → mem_read s addr len ≡ ok bytes
      → length bytes ≡ len
  -- a register holds what was written to it
  pub reg_read-reg_write :
      (s : State) (r : Reg) (v : ℕ)
      → v < 2 ^ 64
      → (reg_write s r v).0 ≡ ok tt
      → reg_read (reg_write s r v).1 r ≡ ok v
  -- RSP keeps its value when RIP is written
  pub rsp-reg_write_rip :
      (s : State) (v : ℕ)
      → (reg_write s rip v).0 ≡ ok tt
      → reg_read (reg_write s rip v).1 rsp ≡ reg_read s rsp
  -- a stop makes `emu_start` return without an error
  pub resume-emu_stop :
      (s : State) → (emu_stop s).0 ≡ ok tt → (resume (emu_stop s).1).0 ≡ returned (ok tt)

module _ (u : Unicorn) where
  -- `map_uc_error`
  abbrev pub map_uc_error : u.UcError → ℕ → ℕ → GuestMemError
  map_uc_error e addr len = record { addr = addr; len = len }

  unfoldable pub guest_read : u.State → ℕ → ℕ → Outcome GuestMemError (List ℕ)
  guest_read s addr len =
      zeroed len >>= λ buf. map_err (λ e. map_uc_error e addr len) (u.mem_read s addr len)

  unfoldable pub guest_write : u.State → ℕ → List ℕ → Outcome GuestMemError Done × u.State
  guest_write s addr bytes =
      let (r, s') = u.mem_write s addr bytes in
      (map_err (λ e. map_uc_error e addr (length bytes)) r, s')

  -- Guest regions are mapped by the emulator's owner, not by handlers.
  unfoldable pub guest_map_anon : u.State → ℕ → ℕ → ℕ → Outcome GuestMemError Done × u.State
  guest_map_anon s base len prot = (ok tt, s)

  pub guest_read-length :
      (s : u.State) (addr len : ℕ) (bytes : List ℕ)
      → guest_read s addr len ≡ ok bytes
      → length bytes ≡ len
  unfolding guest_read zeroed
  guest_read-length s addr len bytes h = u.mem_read_length s addr len bytes (ground arith)

  -- `UnicornGuest`
  abbrev pub unicorn_guest : GuestMemory u.State
  unicorn_guest = record {
    read = guest_read;
    write = guest_write;
    map_anon = guest_map_anon;
    read_length = guest_read-length;
  }

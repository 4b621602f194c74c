-- ===== src/Cpu/Memory.antt =====
-- The engine's memory as a byte at each address, and what of it the code relies on.
pub mod Takes
pub mod Loaded
pub mod Seen
pub mod Stack
use win_vpwn.Base.{
  ℕ, ◌+◌, ◌-◌, ◌≤◌, ◌<◌, ◌^◌, List, Option, some, ◌≡◌, ok, length, get_elem?, if◌then◌else◌,
}
use win_vpwn.Memory.Claims.{in_range}
use win_vpwn.Cpu.Engine.{Unicorn}

pub record EngineMemory (u : Unicorn) : Type 0 where
  -- the byte at an address, where memory is mapped
  pub byte : u.State → ℕ → Option ℕ
  -- new memory is zero, and the rest stays as it is
  pub byte-mem_map :
      (s : u.State) (base size : ℕ) (prot : u.Prot) (a : ℕ)
      → (u.mem_map s base size prot).0 ≡ ok tt
      → byte (u.mem_map s base size prot).1 a ≡ (if in_range base size a then some 0 else byte s a)
  -- a write puts its bytes at its addresses, and leaves the others
  pub byte-mem_write :
      (s : u.State) (addr : ℕ) (bytes : List ℕ) (a : ℕ)
      → addr + length bytes ≤ 2 ^ 64
      → (u.mem_write s addr bytes).0 ≡ ok tt
      → byte (u.mem_write s addr bytes).1 a
        ≡ (if in_range addr (length bytes) a then get_elem? bytes (a - addr) else byte s a)
  -- registers are not memory
  pub byte-reg_write :
      (s : u.State) (r : u.Reg) (v a : ℕ)
      → (u.reg_write s r v).0 ≡ ok tt
      → byte (u.reg_write s r v).1 a ≡ byte s a
  -- a read of mapped memory succeeds, with the bytes at its addresses
  pub mem_read-byte :
      (s : u.State) (addr : ℕ) (bytes : List ℕ)
      → addr + length bytes ≤ 2 ^ 64
      → ((i : ℕ) → i < length bytes → byte s (addr + i) ≡ get_elem? bytes i)
      → u.mem_read s addr (length bytes) ≡ ok bytes

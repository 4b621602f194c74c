-- ===== src/Vkernel/Guest.antt =====
-- crates/winvpwn-core/src/vkernel/mem.rs: the interface to guest memory, and its in-memory backend.
-- The Unicorn backend is in Cpu/Engine.
pub mod Laid
pub mod Reads
pub mod Writes
pub mod Pokes
pub mod Lookups
pub mod Patches
pub mod Stores
pub mod Backend
use win_vpwn.Base.{
  ℕ, zero, suc, ◌+◌, ◌-◌, List, [], ◌∷◌, ◌++◌, Option, none, some, ◌≡◌, true, false, Text, codes,
  to_hex, to_decimal, Done, Outcome, ok, error, panic, length, take, drop, replicate, min, ltb,
  ◌==◌, if◌then◌else◌, add_u64, isize_max,
}
use win_vpwn.Base.BTree
use win_vpwn.Base.BTree.{BTreeMap, u64_key}

pub record GuestMemError : Type 0 where
  pub addr : ℕ
  pub len : ℕ

pub guest_mem_error_text : GuestMemError → Text
guest_mem_error_text e =
    codes "E401: guest memory access failed at 0x"
    ++ (to_hex e.addr ++ (codes " (" ++ (to_decimal e.len ++ codes " bytes)")))

-- `vec![0u8; len]` and `Vec::with_capacity(len)` panic above `isize::MAX` bytes.
unfoldable pub zeroed {ℓ} : {E : Type ℓ} → ℕ → Outcome E (List ℕ)
zeroed len = if ltb isize_max len then panic else ok (replicate len 0)

-- `trait GuestMemory`: a backend's operations, and what a handler relies on: a read that
-- succeeds returns as many bytes as it was asked for.
pub record GuestMemory (M : Type 0) : Type 0 where
  pub read : M → ℕ → ℕ → Outcome GuestMemError (List ℕ)
  pub write : M → ℕ → List ℕ → Outcome GuestMemError Done × M
  pub map_anon : M → ℕ → ℕ → ℕ → Outcome GuestMemError Done × M
  pub read_length :
      (m : M) (addr len : ℕ) (bytes : List ℕ) → read m addr len ≡ ok bytes → length bytes ≡ len

pub record InMemGuest : Type 0 where
  pub bytes : BTreeMap ℕ (List ℕ)

-- `InMemGuest::new`
abbrev pub empty_guest : InMemGuest
empty_guest = record { bytes = [] }

-- The filter of `region`: the entry at or below `addr`, if it reaches `addr`.
abbrev pub reaching : ℕ → Option (ℕ × List ℕ) → Option (ℕ × List ℕ)
reaching addr none = none
reaching addr (some (base, bytes)) =
    if ltb (addr - base) (length bytes) then some (base, bytes) else none

-- `region` and `region_mut` make the same lookup.
unfoldable pub region : InMemGuest → ℕ → Option (ℕ × List ℕ)
region m addr = reaching addr (BTree.last_le m.bytes addr)

unfoldable pub map_anon : InMemGuest → ℕ → ℕ → ℕ → Outcome GuestMemError Done × InMemGuest
map_anon m base len prot = elim (BTree.get m.bytes base) [
  | some bytes ↦ (error (record { addr = base; len = len }), m)
  | none ↦ elim (zeroed {E = GuestMemError} len) [
    | ok bytes ↦ (ok tt, record { bytes = BTree.insert m.bytes base bytes })
    | error e ↦ (error e, m)
    | panic ↦ (panic, m)
  ]
]

-- The loop of `read`, from `cursor` with `remaining` bytes to go. Each round takes a byte at least
-- (the region reaches the cursor), so as many rounds as bytes are enough: without fuel nothing
-- remains, and the loop's test fails.
pub read_loop : ℕ → InMemGuest → ℕ → ℕ → List ℕ → Outcome GuestMemError (List ℕ)
read_loop zero m remaining cursor out = ok out
read_loop (suc fuel) m remaining cursor out = elim (remaining == 0) [
  | true ↦ ok out
  | false ↦ elim (region m cursor) [
    | none ↦ error (record { addr = cursor; len = remaining })
    | some (base, bytes) ↦
        let offset = cursor - base in
        let taken = min remaining (length bytes - offset) in
        read_loop fuel m (remaining - taken) (add_u64 cursor taken)
          (out ++ take taken (drop offset bytes))
  ]
]

unfoldable pub read : InMemGuest → ℕ → ℕ → Outcome GuestMemError (List ℕ)
unfolding read_loop
read m addr len = if ltb isize_max len then panic else read_loop len m len addr []

-- `bytes[offset..offset + chunk.len()].copy_from_slice(chunk)`
abbrev pub splice : List ℕ → ℕ → List ℕ → List ℕ
splice bytes offset chunk = take offset bytes ++ (chunk ++ drop (offset + length chunk) bytes)

-- The loop of `write`, where `rest` is `data[idx..]`; on fuel as `read_loop`.
pub write_loop : ℕ → InMemGuest → ℕ → List ℕ → Outcome GuestMemError Done × InMemGuest
write_loop zero m cursor rest = (ok tt, m)
write_loop (suc fuel) m cursor rest = elim (length rest == 0) [
  | true ↦ (ok tt, m)
  | false ↦ elim (region m cursor) [
    | none ↦ (error (record { addr = cursor; len = length rest }), m)
    | some (base, bytes) ↦
        let offset = cursor - base in
        let taken = min (length rest) (length bytes - offset) in
        let m' : InMemGuest = record {
          bytes = BTree.insert m.bytes base (splice bytes offset (take taken rest));
        } in
        write_loop fuel m' (add_u64 cursor taken) (drop taken rest)
  ]
]

unfoldable pub write : InMemGuest → ℕ → List ℕ → Outcome GuestMemError Done × InMemGuest
unfolding write_loop
write m addr bytes = write_loop (length bytes) m addr bytes

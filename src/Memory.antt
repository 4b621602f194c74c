-- ===== src/Memory.antt =====
-- crates/winvpwn-core/src/memory/mmap.rs: the claimed regions of the guest's address space.
-- `&mut self` is the map in and out; the error leaves it as it is. The proofs are in the children.
pub mod Place
pub mod Claims
pub mod Wrap
pub mod Order
pub mod Slots
use win_vpwn.Base.{
  ℕ, List, [], ◌∷◌, ◌++◌, Bool, ◌&&◌, Text, codes, to_hex, Done, Outcome, ok, error, any, sort_by,
  ltb, leb, ◌==◌, if◌then◌else◌, add_u64,
}

pub record MmapError : Type 0 where
  pub base : ℕ

pub mmap_error_text : MmapError → Text
mmap_error_text e = codes "E101: cannot map region at 0x" ++ (to_hex e.base ++ codes ": overlap")

pub record Region : Type 0 where
  pub base : ℕ
  pub size : ℕ
  pub prot : ℕ

-- `Region::end`: the sum of two `u64`
abbrev pub end : Region → ℕ
end r = add_u64 r.base r.size

abbrev pub contains : Region → ℕ → Bool
contains r addr = leb r.base addr && ltb addr (end r)

abbrev pub overlaps : Region → ℕ → ℕ → Bool
overlaps r base size = ltb r.base (add_u64 base size) && ltb base (end r)

pub record MemoryMap : Type 0 where
  pub regions : List Region

-- `MemoryMap::new`
abbrev pub empty_map : MemoryMap
empty_map = record { regions = [] }

-- the key of `sort_by_key(|r| r.base)`
abbrev pub base_le : Region → Region → Bool
base_le r s = leb r.base s.base

unfoldable pub insert : MemoryMap → ℕ → ℕ → ℕ → Outcome MmapError Done × MemoryMap
insert m base size prot =
    if size == 0
    then (ok tt, m)
    else if any (λ r. overlaps r base size) m.regions
    then (error (record { base = base }), m)
    else (
      ok tt,
      record {
        regions =
            sort_by base_le (m.regions ++ record { base = base; size = size; prot = prot } ∷ []);
      },
    )

-- ===== src/Vkernel/Guest/Writes.antt =====
-- The regions before and after `write` of `InMemGuest`.
use win_vpwn.Base.{
  ℕ, zero, suc, ◌+◌, ◌-◌, ◌≤◌, min, max, List, [], ◌∷◌, ◌++◌, Bool-cases, some, Option-cases, ◌≡◌,
  refl, ap, ◌∙◌, inl, inr, arith, length, length-append, length-take, length-drop, take, drop, ◌==◌,
  add_u64,
}
use win_vpwn.Base.BTree
use win_vpwn.Base.BTree.{u64_key}
use win_vpwn.Vkernel.Guest.{InMemGuest, region, splice, write, write_loop}
use win_vpwn.Vkernel.Guest.Laid.{Regions, BeginsFrom, IsLaidFrom, IsLaid, region_bounds}

-- The regions, without their bytes.
abbrev pub shape : Regions → List (ℕ × ℕ)
shape [] = []
shape ((base, bytes) ∷ m) = (base, length bytes) ∷ shape m

-- What the lookup finds does not begin before the first region.
pub last_le-from :
    (n a base : ℕ) (bytes : List ℕ) (m : Regions)
    → BeginsFrom n m
    → IsLaidFrom m
    → BTree.last_le m a ≡ some (base, bytes)
    → n ≤ base
last_le-from n a base bytes [] s l e = cc
last_le-from n a base bytes ((j, v) ∷ m) s l e = elim (Option-cases (BTree.last_le m a)) [
  | inl last ↦ ground (arith, last)
  | inr (found, later) ↦
      let up = last_le-from (j + max 1 (length v)) a base bytes m l.1 l.2 (ground (arith, later)) in
      omega (arith, up, s)
]

insert-shape :
    (m : Regions) (a base : ℕ) (bytes new : List ℕ)
    → IsLaidFrom m
    → BTree.last_le m a ≡ some (base, bytes)
    → length new ≡ length bytes
    → shape (BTree.insert m base new) ≡ shape m
insert-shape [] a base bytes new l e same = cc
insert-shape ((j, v) ∷ m) a base bytes new l e same = elim (Option-cases (BTree.last_le m a)) [
  | inl last ↦
      let here : (j ≡ base) × (v ≡ bytes) = ground (arith, last) in
      let len : length new ≡ length v = omega (arith, same, ap length here.1) in
      ground (arith, here.0, len)
  | inr (found, later) ↦
      let e' : BTree.last_le m a ≡ some (base, bytes) = ground (arith, later) in
      let up = last_le-from (j + max 1 (length v)) a base bytes m l.1 l.2 e' in
      let rest = insert-shape m a base bytes new l.2 e' same in ground (arith, up, rest)
]

BeginsFrom-shape : (n : ℕ) (m m' : Regions) → shape m' ≡ shape m → BeginsFrom n m → BeginsFrom n m'
BeginsFrom-shape n m [] e s = tt
BeginsFrom-shape n [] ((j', v') ∷ m') e s = cc
BeginsFrom-shape n ((j, v) ∷ m) ((j', v') ∷ m') e s = ground arith

pub IsLaidFrom-shape : (m m' : Regions) → shape m' ≡ shape m → IsLaidFrom m → IsLaidFrom m'
IsLaidFrom-shape m [] e l = tt
IsLaidFrom-shape [] ((j', v') ∷ m') e l = cc
IsLaidFrom-shape ((j, v) ∷ m) ((j', v') ∷ m') e l =
    let heads : (j' ≡ j) × (length v' ≡ length v) × (shape m' ≡ shape m) = ground arith in
    (
      omega (arith, heads.0, heads.1, l.0),
      ground (arith, BeginsFrom-shape (j + max 1 (length v)) m m' heads.2 l.1, heads.0, heads.1),
      IsLaidFrom-shape m m' heads.2 l.2,
    )

pub length-splice :
    (bytes : List ℕ) (offset : ℕ) (chunk : List ℕ)
    → offset + length chunk ≤ length bytes
    → length (splice bytes offset chunk) ≡ length bytes
length-splice bytes offset chunk fits = omega (
  arith,
  length-append (take offset bytes) (chunk ++ drop (offset + length chunk) bytes),
  length-append chunk (drop (offset + length chunk) bytes),
  length-take offset bytes,
  length-drop (offset + length chunk) bytes,
)

pub region-shape :
    (m : InMemGuest) (cursor base : ℕ) (bytes chunk : List ℕ)
    → IsLaid m
    → region m cursor ≡ some (base, bytes)
    → length chunk ≤ length bytes - (cursor - base)
    → shape (BTree.insert m.bytes base (splice bytes (cursor - base) chunk)) ≡ shape m.bytes
unfolding region
region-shape m cursor base bytes chunk l found fits =
    let e : BTree.last_le m.bytes cursor ≡ some (base, bytes) = ground (arith, found) in
    let bounds = region_bounds m cursor base bytes l found in
    insert-shape m.bytes cursor base bytes _ l e
      (length-splice bytes (cursor - base) chunk (omega (arith, bounds, fits)))

write_loop-shape :
    (fuel : ℕ) (m : InMemGuest) (cursor : ℕ) (rest : List ℕ)
    → IsLaid m
    → shape (write_loop fuel m cursor rest).1.bytes ≡ shape m.bytes
unfolding write_loop
write_loop-shape zero m cursor rest l = refl
write_loop-shape (suc fuel) m cursor rest l = elim (Bool-cases (length rest == 0)) [
  | inl finished ↦ rw (finished, write_loop) refl
  | inr more ↦ elim (Option-cases (region m cursor)) [
    | inl unmapped ↦ rw (more, unmapped, write_loop) refl
    | inr ((base, bytes), found) ↦
        let offset = cursor - base in
        let taken = min (length rest) (length bytes - offset) in
        let new = splice bytes offset (take taken rest) in
        let m' : InMemGuest = record { bytes = BTree.insert m.bytes base new } in
        let same : shape m'.bytes ≡ shape m.bytes =
          region-shape m cursor base bytes (take taken rest) l found
            (omega (arith, length-take taken rest)) in
        rw (more, found, write_loop)
          (write_loop-shape fuel m' (add_u64 cursor taken) (drop taken rest)
              (IsLaidFrom-shape m.bytes m'.bytes same l)
            ∙ same)
  ]
]

-- Over in-memory regions that do not cover each other a write changes bytes only: on every branch,
-- errors included, the regions begin where they began and have the lengths that they had.
pub write-shape :
    (m : InMemGuest) (addr : ℕ) (bytes : List ℕ)
    → IsLaid m
    → shape (write m addr bytes).1.bytes ≡ shape m.bytes
unfolding write
write-shape m addr bytes l = write_loop-shape (length bytes) m addr bytes l

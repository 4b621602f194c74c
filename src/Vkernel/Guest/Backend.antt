-- ===== src/Vkernel/Guest/Backend.antt =====
-- `GuestMemory for InMemGuest`: the in-memory backend as the interface that handlers use.
use win_vpwn.Base.{
  ℕ, suc, zero, ◌+◌, ◌-◌, ◌≤◌, ◌<◌, min, List, [], ◌++◌, Bool-cases, Option, none, some,
  Option-cases, ◌≡◌, sym, ◌∙◌, inl, inr, arith, length, length-append, length-take, length-drop,
  take, drop, ok, ltb, isize_max, add_u64,
}
use win_vpwn.Base.BTree
use win_vpwn.Base.BTree.{u64_key}
use win_vpwn.Vkernel.Guest.{
  GuestMemory, InMemGuest, region, reaching, read, read_loop, write, map_anon,
}
use win_vpwn.Vkernel.Guest.Reads.{read_loop_found, read_loop_unmapped}

reaching_lem :
    (a base : ℕ) (bytes : List ℕ) (o : Option (ℕ × List ℕ))
    → reaching a o ≡ some (base, bytes)
    → a - base < length bytes
reaching_lem a base bytes none e = cc
reaching_lem a base bytes (some (base', bytes')) e =
    elim (Bool-cases (ltb (a - base') (length bytes'))) [
      | inl inside ↦ ground (arith, inside)
      | inr past ↦ absurd (ground (arith, past))
    ]

region_reaches :
    (m : InMemGuest) (a base : ℕ) (bytes : List ℕ)
    → region m a ≡ some (base, bytes)
    → a - base < length bytes
unfolding region
region_reaches m a base bytes e = reaching_lem a base bytes (BTree.last_le m.bytes a) e

read_loop-length :
    (fuel : ℕ) (m : InMemGuest) (remaining cursor : ℕ) (out bytes : List ℕ)
    → remaining ≤ fuel
    → read_loop fuel m remaining cursor out ≡ ok bytes
    → length bytes ≡ length out + remaining
unfolding read_loop
read_loop-length zero m zero cursor out bytes enough e = ground (arith, e)
read_loop-length zero m (suc n) cursor out bytes enough e = absurd (omega (arith, enough))
read_loop-length (suc fuel) m zero cursor out bytes enough e = ground (arith, e)
read_loop-length (suc fuel) m (suc n) cursor out bytes enough e =
    elim (Option-cases (region m cursor)) [
      | inl unmapped ↦ cc (sym (read_loop_unmapped fuel m n cursor out unmapped) ∙ e)
      | inr ((base, held), found) ↦
          let taken = min (suc n) (length held - (cursor - base)) in
          let reaches = region_reaches m cursor base held found in
          let later =
            read_loop-length fuel m (suc n - taken) (add_u64 cursor taken)
              (out ++ take taken (drop (cursor - base) held)) bytes (omega (arith, reaches, enough))
              (sym (read_loop_found fuel m n cursor out base held found) ∙ e) in
          omega (
            arith,
            later,
            length-append out (take taken (drop (cursor - base) held)),
            length-take taken (drop (cursor - base) held),
            length-drop (cursor - base) held,
            reaches,
          )
    ]

pub read-length :
    (m : InMemGuest) (addr len : ℕ) (bytes : List ℕ)
    → read m addr len ≡ ok bytes
    → length bytes ≡ len
unfolding read
read-length m addr len bytes e = elim (Bool-cases (ltb isize_max len)) [
  | inl huge ↦ cc (rw huge at e)
  | inr fits ↦
      let whole = read_loop-length len m len addr [] bytes (omega arith) (rw fits at e) in
      omega (arith, whole)
]

abbrev pub in_mem_guest : GuestMemory InMemGuest
in_mem_guest = record { read = read; write = write; map_anon = map_anon; read_length = read-length }

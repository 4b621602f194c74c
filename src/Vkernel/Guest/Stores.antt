-- ===== src/Vkernel/Guest/Stores.antt =====
-- `write` of `InMemGuest` against the write byte by byte, and reads after it.
use win_vpwn.Base.{
  ℕ, suc, zero, ◌+◌, ◌-◌, ◌≤◌, ◌<◌, ◌^◌, min, List, [], ◌∷◌, ◌++◌, false, none, some, Option-cases,
  ◌≡◌, refl, sym, ap, ap₂, ◌∙◌, inl, inr, arith, length, length-take, length-drop, take, drop,
  get_elem?, get_elem?-lt, ltb, Done, Outcome, ok, error, add_u64, sub_u64, isize_max,
}
use win_vpwn.Base.BTree
use win_vpwn.Base.BTree.{u64_key}
use win_vpwn.Vkernel.Guest.{InMemGuest, GuestMemError, region, splice, read, write, write_loop}
use win_vpwn.Vkernel.Guest.Laid.{IsLaid, peek, region_same, region_bounds}
use win_vpwn.Vkernel.Guest.Reads.{peeks, peeks_found, prepend, read-peeks, peek-region}
use win_vpwn.Vkernel.Guest.Writes.{shape, region-shape, IsLaidFrom-shape, write-shape}
use win_vpwn.Vkernel.Guest.Pokes.{
  Bytes, pokes, pokes_unmapped, pokes-patch, pokes-inside, pokes-after, IsMapped,
}
use win_vpwn.Vkernel.Guest.Patches.{peek-renewed}

drop_after_take {ℓ} : {A : Type ℓ} (n : ℕ) (xs : List A) → take n xs ++ drop n xs ≡ xs
drop_after_take zero xs = refl
drop_after_take (suc n) [] = refl
drop_after_take (suc n) (x ∷ xs) = ap (λ ys. x ∷ ys) (drop_after_take n xs)

-- A result with the memory seen as a function.
abbrev pub seen : Outcome GuestMemError Done × InMemGuest → Outcome GuestMemError Done × Bytes
seen (r, m) = (r, peek m)

region-IsMapped :
    (m : InMemGuest) (c base : ℕ) (bytes : List ℕ) (n : ℕ)
    → IsLaid m
    → region m c ≡ some (base, bytes)
    → c + n ≤ base + length bytes
    → IsMapped (peek m) c n
region-IsMapped m c base bytes n l found fits a from upto =
    let bounds = region_bounds m c base bytes l found in
    let here = region_same m c a base bytes l found from (omega (arith, upto, fits)) in
    let (b, e) = get_elem?-lt bytes (a - base) (omega (arith, upto, fits, from, bounds)) in
    (b, peek-region m a base bytes here ∙ e)

peek_unmapped : (m : InMemGuest) (a : ℕ) → region m a ≡ none → peek m a ≡ none
unfolding peek
peek_unmapped m a e = rw (e, peek) refl

region_last :
    (m : InMemGuest) (a base : ℕ) (bytes : List ℕ)
    → region m a ≡ some (base, bytes)
    → BTree.last_le m.bytes a ≡ some (base, bytes)
unfolding region
region_last m a base bytes e = ground (arith, e)

write_loop_unmapped :
    (fuel : ℕ) (m : InMemGuest) (cursor b : ℕ) (bs : List ℕ)
    → region m cursor ≡ none
    → write_loop (suc fuel) m cursor (b ∷ bs)
      ≡ (error (record { addr = cursor; len = suc (length bs) }), m)
unfolding write_loop
write_loop_unmapped fuel m cursor b bs e = ground (arith, e)

-- One round of the loop, which takes a chunk.
write_loop_found :
    (fuel : ℕ) (m : InMemGuest) (cursor b : ℕ) (bs : List ℕ) (base : ℕ) (bytes : List ℕ)
    → region m cursor ≡ some (base, bytes)
    → let taken = min (suc (length bs)) (length bytes - (cursor - base)) in
      write_loop (suc fuel) m cursor (b ∷ bs)
      ≡ write_loop fuel
          (record {
            bytes = BTree.insert m.bytes base (splice bytes (cursor - base) (take taken (b ∷ bs)));
          })
          (add_u64 cursor taken)
          (drop taken (b ∷ bs))
unfolding write_loop
write_loop_found fuel m cursor b bs base bytes e = ground (arith, e)

write_loop-pokes :
    (fuel : ℕ) (m : InMemGuest) (cursor : ℕ) (rest : List ℕ)
    → IsLaid m
    → length rest ≤ fuel
    → seen (write_loop fuel m cursor rest) ≡ pokes (peek m) cursor rest
write_loop-pokes zero m cursor [] l enough = unfold write_loop pokes in refl
write_loop-pokes zero m cursor (b ∷ bs) l enough = absurd (omega (arith, enough))
write_loop-pokes (suc fuel) m cursor [] l enough = unfold write_loop pokes in refl
write_loop-pokes (suc fuel) m cursor (b ∷ bs) l enough = elim (Option-cases (region m cursor)) [
  | inl unmapped ↦
      ap seen (write_loop_unmapped fuel m cursor b bs unmapped)
      ∙ sym (pokes_unmapped (peek m) cursor b bs (peek_unmapped m cursor unmapped))
  | inr ((base, bytes), found) ↦
      let rest = b ∷ bs in
      let offset = cursor - base in
      let taken = min (length rest) (length bytes - offset) in
      let chunk = take taken rest in
      let m' : InMemGuest = record {
        bytes = BTree.insert m.bytes base (splice bytes offset chunk);
      } in
      let bounds = region_bounds m cursor base bytes l found in
      let size : length chunk ≡ taken = omega (arith, length-take taken rest) in
      let same : shape m'.bytes ≡ shape m.bytes =
        region-shape m cursor base bytes chunk l found (omega (arith, size)) in
      let later =
        write_loop-pokes fuel m' (add_u64 cursor taken) (drop taken rest)
          (IsLaidFrom-shape m.bytes m'.bytes same l)
          (omega (arith, length-drop taken rest, enough, bounds)) in
      let whole = drop_after_take taken rest in
      let mapped =
        region-IsMapped m cursor base bytes (length chunk) l found (omega (arith, size, bounds)) in
      let spec =
        pokes-patch (peek m) cursor chunk (drop taken rest) mapped (omega (arith, size, bounds))
          (omega (arith, bounds)) in
      let put =
        peek-renewed m cursor base bytes chunk l (region_last m cursor base bytes found) bounds.0
          (omega (arith, size, bounds)) bounds.1 in
      ap seen (write_loop_found fuel m cursor b bs base bytes found)
      ∙ later
      ∙ ap₂ (λ f n. pokes f (add_u64 cursor n) (drop taken rest)) put (sym size)
      ∙ sym spec
      ∙ ap (pokes (peek m) cursor) whole
]

-- Over in-memory regions that do not cover each other, `write` is the write byte by byte on memory
-- seen as a function: the same result, and on every branch, errors included, the same bytes.
pub write-pokes :
    (m : InMemGuest) (addr : ℕ) (bytes : List ℕ)
    → IsLaid m
    → seen (write m addr bytes) ≡ pokes (peek m) addr bytes
unfolding write
write-pokes m addr bytes l = write_loop-pokes (length bytes) m addr bytes l (omega arith)

peeks_known :
    (m : InMemGuest) (addr : ℕ) (bytes : List ℕ)
    → addr < 2 ^ 64
    → ((i : ℕ) → i < length bytes → peek m (add_u64 addr i) ≡ get_elem? bytes i)
    → peeks m addr (length bytes) ≡ ok bytes
peeks_known m addr [] small known = unfold peeks in refl
peeks_known m addr (b ∷ bs) small known =
    let here : add_u64 addr 0 ≡ addr = omega (arith, small) in
    let first : peek m addr ≡ some b = ap (peek m) (sym here) ∙ known 0 (omega arith) in
    peeks_found m addr (length bs) b first
    ∙ ap (prepend (b ∷ [])) (
        peeks_known m (add_u64 addr 1) bs (omega arith) (λ i h.
          let next : add_u64 (add_u64 addr 1) i ≡ add_u64 addr (suc i) = omega (arith, small) in
          ap (peek m) next ∙ known (suc i) (omega (arith, h))))

write-IsLaid :
    (m : InMemGuest) (addr : ℕ) (bytes : List ℕ) → IsLaid m → IsLaid (write m addr bytes).1
write-IsLaid m addr bytes l = IsLaidFrom-shape m.bytes _ (write-shape m addr bytes l) l

-- Over in-memory regions that do not cover each other, what a write that succeeds has written is
-- what a read of the same range then returns.
pub read-write :
    (m : InMemGuest) (addr : ℕ) (bytes : List ℕ)
    → IsLaid m
    → addr < 2 ^ 64
    → length bytes ≤ isize_max
    → (write m addr bytes).0 ≡ ok tt
    → read (write m addr bytes).1 addr (length bytes) ≡ ok bytes
read-write m addr bytes l small short done =
    let spec = write-pokes m addr bytes l in
    let done' : (pokes (peek m) addr bytes).0 ≡ ok tt = ap (λ p. p.0) (sym spec) ∙ done in
    let m' = (write m addr bytes).1 in
    let fits : ltb isize_max (length bytes) ≡ false = ground (arith, short) in
    read-peeks m' addr (length bytes) (write-IsLaid m addr bytes l)
    ∙ rw fits (
        peeks_known m' addr bytes small (λ i h.
          ap (λ p. p.1 (add_u64 addr i)) spec
          ∙ pokes-inside (peek m) addr bytes i small (omega (arith, short)) h done'))

-- Over in-memory regions that do not cover each other, a write leaves every byte outside its range
-- as it was, whether it succeeds or not.
pub peek-write :
    (m : InMemGuest) (addr : ℕ) (bytes : List ℕ) (a : ℕ)
    → IsLaid m
    → addr < 2 ^ 64
    → a < 2 ^ 64
    → length bytes ≤ sub_u64 a addr
    → peek (write m addr bytes).1 a ≡ peek m a
peek-write m addr bytes a l small here far =
    ap (λ p. p.1 a) (write-pokes m addr bytes l) ∙ pokes-after (peek m) addr bytes a small here far

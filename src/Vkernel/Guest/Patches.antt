-- ===== src/Vkernel/Guest/Patches.antt =====
-- One round of the loop of `write`: a chunk put into a region, seen byte by byte.
use win_vpwn.Base.{
  ℕ, ◌+◌, ◌-◌, ◌≤◌, ◌<◌, List, ◌++◌, Bool-cases, ◌&&◌, some, ◌≡◌, refl, sym, ap, ◌∙◌, ◌⊎◌, inl, inr,
  arith, length, length-take, take, drop, get_elem?, get_elem?-take, get_elem?-past,
  get_elem?-append_left, get_elem?-append_right, get_elem?-drop, leb, ltb,
}
use win_vpwn.Base.BTree
use win_vpwn.Base.BTree.{u64_key}
use win_vpwn.Vkernel.Guest.{InMemGuest, region, splice}
use win_vpwn.Vkernel.Guest.Laid.{IsLaid, peek, last_le_same, last_le_bounds}
use win_vpwn.Vkernel.Guest.Pokes.{patch}
use win_vpwn.Vkernel.Guest.Lookups.{Renewed, last_le-insert}

module _ (bytes chunk : List ℕ) (offset i : ℕ) (fits : offset + length chunk ≤ length bytes) where
  front_length : length (take offset bytes) ≡ offset
  front_length = length-take offset bytes ∙ omega (arith, fits)

  splice_front : i < offset → get_elem? (splice bytes offset chunk) i ≡ get_elem? bytes i
  splice_front h =
      get_elem?-append_left (take offset bytes) _ i (omega (arith, front_length, h))
      ∙ get_elem?-take offset bytes i h

  splice_past :
      offset ≤ i
      → get_elem? (splice bytes offset chunk) i
        ≡ get_elem? (chunk ++ drop (offset + length chunk) bytes) (i - offset)
  splice_past h =
      get_elem?-append_right (take offset bytes) _ i (omega (arith, front_length, h))
      ∙ ap (λ n. get_elem? (chunk ++ drop (offset + length chunk) bytes) (i - n)) front_length

  splice_chunk :
      offset ≤ i
      → i < offset + length chunk
      → get_elem? (splice bytes offset chunk) i ≡ get_elem? chunk (i - offset)
  splice_chunk h below =
      splice_past h ∙ get_elem?-append_left chunk _ (i - offset) (omega (arith, h, below))

  splice_back :
      offset + length chunk ≤ i → get_elem? (splice bytes offset chunk) i ≡ get_elem? bytes i
  splice_back h =
      let rest : offset + length chunk + (i - offset - length chunk) ≡ i = omega (arith, h) in
      splice_past (omega (arith, h))
      ∙ get_elem?-append_right chunk _ (i - offset) (omega (arith, h))
      ∙ get_elem?-drop (offset + length chunk) bytes (i - offset - length chunk)
      ∙ ap (get_elem? bytes) rest

peek_found :
    (m : InMemGuest) (a base : ℕ) (bytes : List ℕ)
    → BTree.last_le m.bytes a ≡ some (base, bytes)
    → peek m a ≡ get_elem? bytes (a - base)
unfolding peek region
peek_found m a base bytes e =
    rw (e, peek)
      (elim (Bool-cases (ltb (a - base) (length bytes))) [
        | inl reached ↦ rw reached refl
        | inr past ↦ rw past (sym (get_elem?-past bytes (a - base) (ground (arith, past))))
      ])

peek_same :
    (m m' : InMemGuest) (a : ℕ)
    → BTree.last_le m'.bytes a ≡ BTree.last_le m.bytes a
    → peek m' a ≡ peek m a
unfolding peek region
peek_same m m' a same = rw (same, peek) refl

module _ (m : InMemGuest) (c base : ℕ) (bytes chunk : List ℕ) (l : IsLaid m)
    (found : BTree.last_le m.bytes c ≡ some (base, bytes)) (below : base ≤ c)
    (fits : c + length chunk ≤ base + length bytes) (inside : c < base + length bytes) where
  abbrev pub renewed : InMemGuest
  renewed = record { bytes = BTree.insert m.bytes base (splice bytes (c - base) chunk) }

  room : c - base + length chunk ≤ length bytes
  room = omega (arith, fits, below)

  peek_in : (a : ℕ) → c ≤ a → a < c + length chunk → peek renewed a ≡ get_elem? chunk (a - c)
  unfolding Renewed
  peek_in a from upto =
      let old = last_le_same m.bytes c a base bytes l found from (omega (arith, upto, fits)) in
      elim (last_le-insert c base bytes (splice bytes (c - base) chunk) m.bytes a l found) [
        | inl (same, apart) ↦ absurd (apart bytes old)
        | inr (_, anew) ↦
            let i : a - base - (c - base) ≡ a - c = omega (arith, below, from) in
            peek_found renewed a base _ anew
            ∙ splice_chunk bytes chunk (c - base) (a - base) room (omega (arith, below, from))
                (omega (arith, below, from, upto))
            ∙ ap (get_elem? chunk) i
      ]

  peek_out : (a : ℕ) → (a < c) ⊎ (c + length chunk ≤ a) → peek renewed a ≡ peek m a
  unfolding Renewed
  peek_out a side =
      elim (last_le-insert c base bytes (splice bytes (c - base) chunk) m.bytes a l found) [
        | inl (same, apart) ↦ peek_same m renewed a same
        | inr (old, anew) ↦
            let (from, _) = last_le_bounds m.bytes a base bytes l old in
            peek_found renewed a base _ anew
            ∙ elim side [
              | inl before ↦
                  splice_front bytes chunk (c - base) (a - base) room
                    (omega (arith, before, from, below))
              | inr after ↦
                  splice_back bytes chunk (c - base) (a - base) room
                    (omega (arith, after, from, below))
            ]
            ∙ sym (peek_found m a base bytes old)
      ]

  -- The memory after the chunk is put in, as a function.
  pub peek-renewed : peek renewed ≡ patch (peek m) c chunk
  peek-renewed = λ i a. at a i
    where
      at : (a : ℕ) → peek renewed a ≡ patch (peek m) c chunk a
      at a = elim (Bool-cases (leb c a && ltb a (c + length chunk))) [
        | inl within ↦ rw within (peek_in a (ground (arith, within)) (ground (arith, within)))
        | inr outside ↦ rw outside (peek_out a (ground (arith, outside)))
      ]

-- ===== src/Syscall/Dispatch/Table.antt =====
-- The table of handlers: registration, lookup, and the list of implemented numbers.
use win_vpwn.Base.{
  ℤ, List, [], ◌∷◌, ◌++◌, Bool, true, false, not, ◌||◌, Option, none, some, ◌≡◌, refl, ◌∙◌, arith,
  eq_ℤ, eq_ℤ_iff, leb_ℤ, ltb_ℤ, if◌then◌else◌, filter, find, sort_by, insert_by, map, any,
  any-sort_by, Bool-cases, inl, inr, subst, sym,
}
use win_vpwn.Syscall.Dispatch.{
  SyscallHandler, Dispatch, register, get, implemented, dedup, dedup_after,
}

module _ {M : Type 0} where
  find-filter :
      (hs : List (SyscallHandler M)) (h : SyscallHandler M) (nr : ℤ)
      → find (λ g. eq_ℤ g.number nr) (filter (λ g. not (eq_ℤ g.number h.number)) hs ++ h ∷ [])
        ≡ (if eq_ℤ h.number nr then some h else find (λ g. eq_ℤ g.number nr) hs)
  find-filter [] h nr = refl
  find-filter (g ∷ hs) h nr = ground (
    arith,
    find-filter hs h nr,
    eq_ℤ_iff g.number h.number,
    eq_ℤ_iff g.number nr,
    eq_ℤ_iff h.number nr,
  )

  -- After a registration the number has the new handler, and every other number the one it had.
  pub get-register :
      (d : Dispatch M) (h : SyscallHandler M) (nr : ℤ)
      → get (register d h) nr ≡ (if eq_ℤ h.number nr then some h else get d nr)
  unfolding get register
  get-register d h nr = find-filter d.handlers h nr

-- Every number is above `a`, and so on along the list.
abbrev pub IsAscendingFrom : ℤ → List ℤ → Type 0
IsAscendingFrom a [] = Unit
IsAscendingFrom a (b ∷ bs) = (ltb_ℤ a b ≡ true) × IsAscendingFrom b bs

abbrev pub IsAscending : List ℤ → Type 0
IsAscending [] = Unit
IsAscending (a ∷ rest) = IsAscendingFrom a rest

abbrev IsSortedFrom : ℤ → List ℤ → Type 0
IsSortedFrom a [] = Unit
IsSortedFrom a (b ∷ bs) = (leb_ℤ a b ≡ true) × IsSortedFrom b bs

abbrev IsSorted : List ℤ → Type 0
IsSorted [] = Unit
IsSorted (a ∷ rest) = IsSortedFrom a rest

leb_total : (a b : ℤ) → leb_ℤ a b ≡ false → leb_ℤ b a ≡ true
leb_total a b h = ground arith

insert_by-IsSortedFrom :
    (a x : ℤ) (ys : List ℤ)
    → leb_ℤ a x ≡ true
    → IsSortedFrom a ys
    → IsSortedFrom a (insert_by leb_ℤ x ys)
insert_by-IsSortedFrom a x [] h s = (h, tt)
insert_by-IsSortedFrom a x (y ∷ ys) h s =
    ground (arith, insert_by-IsSortedFrom y x ys, leb_total x y)

insert_by-IsSorted : (x : ℤ) (ys : List ℤ) → IsSorted ys → IsSorted (insert_by leb_ℤ x ys)
insert_by-IsSorted x [] s = tt
insert_by-IsSorted x (y ∷ ys) s = ground (arith, insert_by-IsSortedFrom y x ys, leb_total x y)

sort_by-IsSorted : (xs : List ℤ) → IsSorted (sort_by leb_ℤ xs)
sort_by-IsSorted [] = tt
sort_by-IsSorted (x ∷ xs) = insert_by-IsSorted x (sort_by leb_ℤ xs) (sort_by-IsSorted xs)

lt_of_le_ne : (a b : ℤ) → leb_ℤ a b ≡ true → eq_ℤ a b ≡ false → ltb_ℤ a b ≡ true
lt_of_le_ne a b h k = ground arith

dedup_after-IsAscending :
    (a : ℤ) (xs : List ℤ) → IsSortedFrom a xs → IsAscendingFrom a (dedup_after a xs)
dedup_after-IsAscending a [] s = tt
dedup_after-IsAscending a (b ∷ bs) s = elim (Bool-cases (eq_ℤ a b)) [
  | inl same ↦ rw same (
      subst (λ c. IsAscendingFrom c (dedup_after b bs)) (sym ((eq_ℤ_iff a b).0 same))
        (dedup_after-IsAscending b bs s.1))
  | inr other ↦ rw other (lt_of_le_ne a b s.0 other, dedup_after-IsAscending b bs s.1)
]

dedup-IsAscending : (xs : List ℤ) → IsSorted xs → IsAscending (dedup xs)
dedup-IsAscending [] s = tt
dedup-IsAscending (x ∷ xs) s = dedup_after-IsAscending x xs s

-- The list holds the number.
abbrev pub holds : List ℤ → ℤ → Bool
holds xs n = any (λ b. eq_ℤ b n) xs

any-dedup_after :
    (a n : ℤ) (xs : List ℤ) → (eq_ℤ a n || holds (dedup_after a xs) n) ≡ (eq_ℤ a n || holds xs n)
any-dedup_after a n [] = refl
any-dedup_after a n (b ∷ bs) = ground (arith, any-dedup_after b n bs, eq_ℤ_iff a b)

any-dedup : (n : ℤ) (xs : List ℤ) → holds (dedup xs) n ≡ holds xs n
any-dedup n [] = refl
any-dedup n (x ∷ xs) = any-dedup_after x n xs

module _ {M : Type 0} where
  -- The option holds a value.
  abbrev pub is_some : Option (SyscallHandler M) → Bool
  is_some none = false
  is_some (some h) = true

  any-numbers :
      (hs : List (SyscallHandler M)) (n : ℤ)
      → holds (map (λ h. h.number) hs) n ≡ is_some (find (λ h. eq_ℤ h.number n) hs)
  any-numbers [] n = refl
  any-numbers (h ∷ hs) n = ground (arith, any-numbers hs n)

  -- The implemented numbers are exactly those with a handler, in strictly ascending order.
  pub implemented_lem :
      (d : Dispatch M)
      → IsAscending (implemented d) × ((nr : ℤ) → holds (implemented d) nr ≡ is_some (get d nr))
  unfolding implemented get
  implemented_lem d =
      let numbers : List ℤ = map (λ h. h.number) d.handlers in
      (
        dedup-IsAscending (sort_by leb_ℤ numbers) (sort_by-IsSorted numbers),
        λ nr.
            any-dedup nr (sort_by leb_ℤ numbers)
            ∙ any-sort_by leb_ℤ (λ b. eq_ℤ b nr) numbers
            ∙ any-numbers d.handlers nr,
      )

-- ===== src/Cpu/Vcpu/Notes.antt =====
-- The claimed and the noted regions of a CPU, and steps that claim and note a range.
use mathlib.Core.Bool.{or-false}
use win_vpwn.Base.{
  ℕ, ◌+◌, ◌≤◌, ◌<◌, ◌^◌, List, [], ◌∷◌, ◌++◌, Bool, true, false, Option-cases, ◌≡◌, ◌⊎◌, inl, inr,
  refl, ap, ◌∙◌, arith, Done, Outcome, ok, Outcome-cases, Bool-cases,
}
use win_vpwn.Base.Exec.{Keeps, >>=-Keeps, ◌>>=◌, ◌>>◌}
use win_vpwn.Memory
use win_vpwn.Memory.{MemoryMap}
use win_vpwn.Memory.Place.{IsWellFormed, insert-IsWellFormed}
use win_vpwn.Memory.Claims.{claimed, in_range, claimed-insert, insert-free_iff, insert-refused}
use win_vpwn.Cpu.Engine.{Unicorn}
use win_vpwn.Cpu.Vcpu.{
  Vcpu, VcpuError, Method, call_engine, claim_range, engine_present, engine_loaded,
}

abbrev pub truth : Bool → ℕ
truth true = 1
truth false = 0

-- How many of the noted regions contain the address.
abbrev pub noted_times : List (ℕ × ℕ × ℕ) → ℕ → ℕ
noted_times [] a = 0
noted_times ((base, size, prot) ∷ regions) a = truth (in_range base size a) + noted_times regions a

noted_times-append :
    (regions : List (ℕ × ℕ × ℕ)) (base size prot a : ℕ)
    → noted_times (regions ++ (base, size, prot) ∷ []) a
      ≡ noted_times regions a + truth (in_range base size a)
noted_times-append [] base size prot a = omega arith
noted_times-append (r ∷ regions) base size prot a =
    omega (arith, noted_times-append regions base size prot a)

-- An accepted range was free, so that noting it once keeps the notes disjoint.
noted_times-claimed :
    (regions : List (ℕ × ℕ × ℕ)) (m : MemoryMap) (base size prot a : ℕ)
    → IsWellFormed m
    → base + size < 2 ^ 64
    → (Memory.insert m base size prot).0 ≡ ok tt
    → noted_times regions a ≤ truth (claimed m a)
    → noted_times regions a + truth (in_range base size a)
      ≤ truth (claimed (Memory.insert m base size prot).1 a)
noted_times-claimed regions m base size prot a w fits placed covered =
    rw (claimed-insert m base size prot a fits placed) (elim (Bool-cases (in_range base size a)) [
      | inl inside ↦
          let filled : 1 ≤ size = ground arith in
          let free = (insert-free_iff m base size prot w fits filled).0 placed a inside in
          let none_noted : noted_times regions a ≤ 0 = (rw free at covered) in
          rw (inside, free) (omega arith)
      | inr outside ↦ rw (outside, or-false) (omega (arith, covered))
    ])

-- Claims only grow, whether a range is accepted or refused.
covered-insert :
    (n : ℕ) (m : MemoryMap) (base size prot a : ℕ)
    → IsWellFormed m
    → base + size < 2 ^ 64
    → n ≤ truth (claimed m a)
    → n ≤ truth (claimed (Memory.insert m base size prot).1 a)
covered-insert n m base size prot a w fits covered =
    elim (Outcome-cases (Memory.insert m base size prot).0) [
      | inl (done, placed) ↦ rw (claimed-insert m base size prot a fits placed) (ground arith)
      | inr (inl (x, e)) ↦ rw (insert-refused m base size prot w fits (λ placed. cc)).0 covered
      | inr (inr e) ↦ rw (insert-refused m base size prot w fits (λ placed. cc)).0 covered
    ]

module _ (u : Unicorn) where
  -- The claimed regions are sorted, disjoint and below the top of the address space; the noted ones
  -- are disjoint, and every address of theirs is claimed.
  abbrev pub IsConsistent : Vcpu u → Type 0
  IsConsistent v =
      IsWellFormed v.map × ((a : ℕ) → noted_times v.regions a ≤ truth (claimed v.map a))

  -- A step that leaves the claims and the notes as they are.
  unfoldable pub IsQuiet : {A : Type 0} → Method u A → Type 0
  IsQuiet m = (v : Vcpu u) → ((m v).1.map ≡ v.map) × ((m v).1.regions ≡ v.regions)

  -- A step that leaves the claims as they are, and notes the range if anything.
  unfoldable pub Notes : ℕ → ℕ → {A : Type 0} → Method u A → Type 0
  Notes base size m =
      (v : Vcpu u)
      → ((m v).1.map ≡ v.map)
        × (((m v).1.regions ≡ v.regions)
            ⊎ ((prot : ℕ) × ((m v).1.regions ≡ v.regions ++ (base, size, prot) ∷ [])))

  pub call_engine-IsQuiet :
      (f : u.State → Outcome u.UcError Done × u.State) (wrap : u.UcError → VcpuError)
      → IsQuiet (call_engine u f wrap)
  unfolding IsQuiet call_engine
  call_engine-IsQuiet f wrap v = elim (Option-cases v.uc) [
    | inl e ↦ rw (e, call_engine) (refl, refl)
    | inr (s, e) ↦ rw (e, call_engine) (refl, refl)
  ]

  pub engine_present-IsQuiet : IsQuiet (engine_present u)
  unfolding IsQuiet engine_present
  engine_present-IsQuiet v = elim (Option-cases v.uc) [
    | inl e ↦ rw (e, engine_present) (refl, refl)
    | inr (s, e) ↦ rw (e, engine_present) (refl, refl)
  ]

  pub engine_loaded-IsQuiet : IsQuiet (engine_loaded u)
  unfolding IsQuiet engine_loaded
  engine_loaded-IsQuiet v = elim (Option-cases v.uc) [
    | inl e ↦ rw (e, engine_loaded) (refl, refl)
    | inr (s, e) ↦ rw (e, engine_loaded) (refl, refl)
  ]

  pub >>=-IsQuiet :
      {A B : Type 0} (m : Method u A) (f : A → Method u B)
      → IsQuiet m
      → ((a : A) → IsQuiet (f a))
      → IsQuiet (m >>= f)
  unfolding IsQuiet
  >>=-IsQuiet m f hm hf v =
      >>=-Keeps (λ w. (w.map ≡ v.map) × (w.regions ≡ v.regions)) m f
        (λ w e. ((hm w).0 ∙ e.0, (hm w).1 ∙ e.1)) (λ a w e. ((hf a w).0 ∙ e.0, (hf a w).1 ∙ e.1)) v
        (refl, refl)

  pub >>=-Notes :
      (base size : ℕ) {A B : Type 0} (m : Method u A) (f : A → Method u B)
      → IsQuiet m
      → ((a : A) → Notes base size (f a))
      → Notes base size (m >>= f)
  unfolding IsQuiet Notes
  >>=-Notes base size m f hm hf v =
      let (same_map, same_regions) = hm v in
      elim (Outcome-cases (m v).0) [
        | inl (a, e) ↦
            let (kept, noted) = hf a (m v).1 in
            rw e (
              kept ∙ same_map,
              elim noted [
                | inl none_noted ↦ inl (none_noted ∙ same_regions)
                | inr (prot, added) ↦
                    inr (prot, added ∙ ap (λ rs. rs ++ (base, size, prot) ∷ []) same_regions)
              ],
            )
        | inr (inl (x, e)) ↦ rw e (same_map, inl same_regions)
        | inr (inr e) ↦ rw e (same_map, inl same_regions)
      ]

  pub claim-IsConsistent :
      (base size prot : ℕ) (m : Method u Done)
      → base + size < 2 ^ 64
      → Notes base size m
      → Keeps IsConsistent (claim_range u base size prot >> m)
  unfolding claim_range Notes
  claim-IsConsistent base size prot m fits notes v (w, covered) =
      let w' = insert-IsWellFormed v.map base size prot w fits in
      elim (Outcome-cases (Memory.insert v.map base size prot).0) [
        | inl (done, placed) ↦
            let v' : Vcpu u = record v { map = (Memory.insert v.map base size prot).1 } in
            let (kept, noted) = notes v' in
            rw placed (elim noted [
              | inl none_noted ↦
                  rw (kept, none_noted)
                    (w', λ a. covered-insert _ v.map base size prot a w fits (covered a))
              | inr (p, added) ↦
                  rw (kept, added)
                    (
                      w',
                      λ a. rw (noted_times-append v.regions base size p a) (
                          noted_times-claimed v.regions v.map base size prot a w fits placed
                            (covered a)),
                    )
            ])
        | inr (inl (x, e)) ↦
            rw e (w', λ a. covered-insert _ v.map base size prot a w fits (covered a))
        | inr (inr e) ↦ rw e (w', λ a. covered-insert _ v.map base size prot a w fits (covered a))
      ]

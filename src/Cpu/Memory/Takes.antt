-- ===== src/Cpu/Memory/Takes.antt =====
-- Triples for the methods of the CPU: what the engine's memory is before and after a success.
use win_vpwn.Base.{ℕ, Option, some, some-injective, ◌≡◌, sym, ap, ◌∙◌, Done, Outcome, ok}
use win_vpwn.Base.Exec.{>>=-ok, ◌>>=◌, ◌>>◌, lift}
use win_vpwn.Cpu.Engine.{Unicorn}
use win_vpwn.Cpu.Memory.{EngineMemory}
use win_vpwn.Cpu.Vcpu.{
  Vcpu, VcpuError, Method, engine_present, claim_range, push_region, call_engine,
}
use win_vpwn.Cpu.Vcpu.Ready.{call_engine-ok}

module _ (u : Unicorn) (memory : EngineMemory u) where
  -- The CPU has an engine, whose memory is this function.
  unfoldable pub Holds : Vcpu u → (ℕ → Option ℕ) → Type 0
  Holds v f = (s : u.State) × (v.uc ≡ some s) × ((a : ℕ) → memory.byte s a ≡ f a)

  -- Where it succeeds, the method takes memory `f` to memory `g`.
  unfoldable pub Takes : Method u Done → (ℕ → Option ℕ) → (ℕ → Option ℕ) → Type 0
  Takes m f g = (v : Vcpu u) → Holds v f → (m v).0 ≡ ok tt → Holds (m v).1 g

  pub >>-Takes :
      (m k : Method u Done) (f g h : ℕ → Option ℕ) → Takes m f g → Takes k g h → Takes (m >> k) f h
  unfolding Takes
  >>-Takes m k f g h first second v holds done =
      let (_, ran, rest) = >>=-ok m (λ _. k) v tt done in
      rw rest (second (m v).1 (first v holds ran) (sym (ap (λ p. p.0) rest) ∙ done))

  -- A step that only computes, and what follows with its result.
  pub lift-Takes :
      {A : Type 0} (r : Outcome VcpuError A) (k : A → Method u Done) (f g : ℕ → Option ℕ)
      → ((a : A) → r ≡ ok a → Takes (k a) f g)
      → Takes (lift {S = Vcpu u} r >>= k) f g
  unfolding Takes
  lift-Takes r k f g each v holds done =
      let (a, computed, rest) = >>=-ok (lift {S = Vcpu u} r) k v tt done in
      rw rest (each a computed v holds (sym (ap (λ p. p.0) rest) ∙ done))

  pub engine_present-Takes : (f : ℕ → Option ℕ) → Takes (engine_present u) f f
  unfolding Takes Holds engine_present
  engine_present-Takes f v (s, loaded, view) done = rw (loaded, engine_present) (s, loaded, view)

  pub claim_range-Takes :
      (base size prot : ℕ) (f : ℕ → Option ℕ) → Takes (claim_range u base size prot) f f
  unfolding Takes Holds claim_range
  claim_range-Takes base size prot f v holds done = holds

  pub push_region-Takes :
      (base size prot : ℕ) (f : ℕ → Option ℕ) → Takes (push_region u base size prot) f f
  unfolding Takes Holds
  push_region-Takes base size prot f v holds done = holds

  -- A call on the engine, by what it does to the engine's memory.
  pub call_engine-Takes :
      (call : u.State → Outcome u.UcError Done × u.State) (wrap : u.UcError → VcpuError)
      (f g : ℕ → Option ℕ)
      → ((s : u.State)
          → ((a : ℕ) → memory.byte s a ≡ f a)
          → (call s).0 ≡ ok tt
          → (a : ℕ) → memory.byte (call s).1 a ≡ g a)
      → Takes (call_engine u call wrap) f g
  unfolding Takes Holds
  call_engine-Takes call wrap f g step v (s, loaded, view) done =
      let (s', at, called, held) = call_engine-ok u call wrap v done in
      let same : s ≡ s' = some-injective (sym loaded ∙ at) in
      let view' : (a : ℕ) → memory.byte s' a ≡ f a =
        λ a. ap (λ t. memory.byte t a) (sym same) ∙ view a in
      ((call s').1, held, step s' view' called)

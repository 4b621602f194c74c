-- ===== src/Python/Apart.antt =====
-- Where the segments of an image that `run_elf` has run lie.
use win_vpwn.Base.{
  ℕ, ◌+◌, List, any, some, ◌≡◌, refl, sym, ap, ◌∙◌, inl, inr, arith, ok, Bool-cases, true, false,
  Outcome, error, panic, Text,
}
use win_vpwn.Base.Exec.{>>=-ok, ◌>>◌}
use win_vpwn.Memory.Place.{IsWellFormed}
use win_vpwn.Memory.Claims.{in_range, insert-free_iff}
use win_vpwn.Trace.{TraceSink, Buffers}
use win_vpwn.Syscall.Dispatch.{Dispatch}
use win_vpwn.Elf.{LoadedElf, load_elf}
use win_vpwn.Elf.Format.{Goblin}
use win_vpwn.Cpu.Engine.{Unicorn}
use win_vpwn.Cpu.Memory.Stack.{map_stack-inserted}
use win_vpwn.Cpu.Vcpu.{
  Vcpu, new_shared, map_elf, map_stack, setup_initial_state, stack_base, stack_size,
}
use win_vpwn.Cpu.Vcpu.Mapping.{AllLow, in_pages, map_elf-IsWellFormed}
use win_vpwn.Cpu.Vcpu.Claimed.{PagesApart, map_elf-claimed}
use win_vpwn.Cpu.Vcpu.Ready.{IsReady, map_elf-IsReady, new_vcpu-IsReady, new_vcpu-ok}
use win_vpwn.Python.{boot, set_up, run_dispatch, run_elf, run_booted, RunResult}
use win_vpwn.Python.Boot.{boot-new}

module _ (u : Unicorn) (goblin : Goblin) (elf : LoadedElf) (low : AllLow elf.segments) where
  -- The stack is apart from the pages of the segments, which are apart from each other.
  pub set_up-apart :
      (d : Dispatch u.State) (v : Vcpu u)
      → IsReady u d new_shared v
      → IsWellFormed v.map
      → (set_up u goblin elf v).0 ≡ ok tt
      → PagesApart elf.segments
        × ((a : ℕ)
            → any (λ s. in_pages s a) elf.segments ≡ true
            → in_range stack_base stack_size a ≡ false)
  unfolding IsReady
  set_up-apart d v ready well done =
      let stack = map_stack u stack_base stack_size in
      let setup = setup_initial_state u elf.entry (stack_base + stack_size) in
      let (_, mapped, e1) = >>=-ok (map_elf u elf) (λ _. stack >> setup) v tt done in
      let v1 = (map_elf u elf v).1 in
      let (_, stacked, _) = >>=-ok stack (λ _. setup) v1 tt (sym (ap (λ p. p.0) e1) ∙ done) in
      let (_, _, (s, loaded)) = ready in
      let (_, _, (s1, loaded1)) = map_elf-IsReady u d new_shared elf v ready in
      let (claims, apart) = map_elf-claimed u elf v s loaded low well mapped in
      let well1 = map_elf-IsWellFormed u elf v s loaded low well in
      let placed = map_stack-inserted u stack_base stack_size v1 s1 loaded1 stacked in
      (
        apart,
        λ a in_elf. elim (Bool-cases (in_range stack_base stack_size a)) [
          | inr outside ↦ outside
          | inl inside ↦
              let free =
                (insert-free_iff v1.map stack_base stack_size 0 well1 (omega arith) (omega arith)).0
                  placed a inside in
              let (now, _) = claims a in absurd (ground (arith, free, now, in_elf))
        ],
      )

  run_booted-ok :
      (fuel timeout_ms : ℕ) (sink : TraceSink) (bufs : Buffers) (dict : RunResult)
      (r : Outcome Text (Vcpu u))
      → run_booted u goblin fuel timeout_ms sink bufs r ≡ some (ok dict)
      → (v : Vcpu u) × (r ≡ ok v)
  unfolding run_booted
  run_booted-ok fuel timeout_ms sink bufs dict (ok v) h = (v, refl)
  run_booted-ok fuel timeout_ms sink bufs dict (error e) h = cc
  run_booted-ok fuel timeout_ms sink bufs dict panic h = cc

  -- If `run_elf` returns a dict for an image that the loader gave, whose segments end two pages below
  -- the top of the address space, then no two segments share a page, and none has a page in the
  -- stack's range: every other image raises an exception or panics, or its run has not ended.
  pub run_elf-PagesApart :
      (fuel timeout_ms : ℕ) (sink : TraceSink) (bufs : Buffers) (image : List ℕ) (dict : RunResult)
      → load_elf goblin image ≡ ok elf
      → run_elf u goblin fuel sink bufs image timeout_ms ≡ some (ok dict)
      → PagesApart elf.segments
        × ((a : ℕ)
            → any (λ s. in_pages s a) elf.segments ≡ true
            → in_range stack_base stack_size a ≡ false)
  unfolding run_elf
  run_elf-PagesApart fuel timeout_ms sink bufs image dict loads returned =
      let (v, booted) =
        run_booted-ok fuel timeout_ms sink bufs dict (boot u goblin image sink) returned in
      let (v0, made, done, _) = boot-new u goblin image sink elf v loads booted in
      let (s, same) = new_vcpu-ok u (run_dispatch u goblin sink) v0 made in
      set_up-apart (run_dispatch u goblin sink) v0
        (new_vcpu-IsReady u (run_dispatch u goblin sink) v0 made) (rw same tt) done

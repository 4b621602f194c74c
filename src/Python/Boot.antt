-- ===== src/Python/Boot.antt =====
-- The CPU that `run_elf` has set up when it starts the guest.
use win_vpwn.Base.{
  ℕ, ◌+◌, ◌-◌, ◌<◌, ◌^◌, List, some, ◌≡◌, refl, sym, ap, ◌∙◌, arith, Outcome-cases, inl, inr, ok,
  error, panic, map_err-ok, ◌>>=◌, >>=-eq-ok,
}
use win_vpwn.Base.Exec.{Keeps, >>=-ok, ◌>>◌}
use win_vpwn.Trace.{TraceSink}
use win_vpwn.Syscall.Dispatch.{Dispatch}
use win_vpwn.Elf.{LoadedElf, ElfError, load_elf, elf_error_text}
use win_vpwn.Elf.Format.{Goblin}
use win_vpwn.Cpu.Engine.{Unicorn}
use win_vpwn.Cpu.Vcpu.{
  Vcpu, vcpu_error_text, new_shared, new_vcpu, map_elf, map_stack, setup_initial_state, stack_base,
  stack_size,
}
use win_vpwn.Cpu.Vcpu.Ready.{
  IsReady, >>-IsReady, map_elf-IsReady, map_stack-IsReady, setup_initial_state-IsReady,
  new_vcpu-IsReady,
}
use win_vpwn.Cpu.Vcpu.Entry.{setup_initial_state-regs}
use win_vpwn.Python.{boot, set_up, set_up_cpu, run_dispatch}

module _ (u : Unicorn) (goblin : Goblin) where
  pub boot-error :
      (image : List ℕ) (sink : TraceSink) (e : ElfError)
      → load_elf goblin image ≡ error e
      → boot u goblin image sink ≡ error (elf_error_text e)
  unfolding boot
  boot-error image sink e failed = rw failed refl

  pub boot-panic :
      (image : List ℕ) (sink : TraceSink)
      → load_elf goblin image ≡ panic
      → boot u goblin image sink ≡ panic
  unfolding boot
  boot-panic image sink failed = rw failed refl

  pub boot-new :
      (image : List ℕ) (sink : TraceSink) (elf : LoadedElf) (v : Vcpu u)
      → load_elf goblin image ≡ ok elf
      → boot u goblin image sink ≡ ok v
      → (v0 : Vcpu u) × (new_vcpu u (run_dispatch u goblin sink) ≡ ok v0)
        × ((set_up u goblin elf v0).0 ≡ ok tt)
        × (v ≡ (set_up u goblin elf v0).1)
  unfolding boot
  boot-new image sink elf v loaded booted =
      let made =
        map_err-ok vcpu_error_text
          (new_vcpu u (run_dispatch u goblin sink) >>= λ w. set_up_cpu u goblin elf w)
          (rw loaded at booted) in
      let (v0, new, up) =
        >>=-eq-ok (new_vcpu u (run_dispatch u goblin sink)) (λ w. set_up_cpu u goblin elf w) made in
      let (_, done, end) =
        >>=-eq-ok (set_up u goblin elf v0).0 (λ d. ok (set_up u goblin elf v0).1) up in
      (v0, new, done, ground (arith, end))

  set_up-IsReady :
      (elf : LoadedElf) (d : Dispatch u.State)
      → Keeps (IsReady u d new_shared) (set_up u goblin elf)
  set_up-IsReady elf d =
      let setup = setup_initial_state u elf.entry (stack_base + stack_size) in
      let stack = map_stack u stack_base stack_size in
      >>-IsReady u d new_shared (map_elf u elf) (stack >> setup)
        (map_elf-IsReady u d new_shared elf)
        (>>-IsReady u d new_shared stack setup
          (map_stack-IsReady u d new_shared stack_base stack_size)
          (setup_initial_state-IsReady u d new_shared elf.entry (stack_base + stack_size)))

  set_up-regs :
      (elf : LoadedElf) (v : Vcpu u)
      → elf.entry < 2 ^ 64
      → (set_up u goblin elf v).0 ≡ ok tt
      → (s : u.State) × ((set_up u goblin elf v).1.uc ≡ some s)
        × (u.reg_read s u.rip ≡ ok elf.entry)
        × (u.reg_read s u.rsp ≡ ok (stack_base + stack_size - 0x20))
  set_up-regs elf v small done =
      let setup = setup_initial_state u elf.entry (stack_base + stack_size) in
      let stack = map_stack u stack_base stack_size in
      let (_, _, e1) = >>=-ok (map_elf u elf) (λ _. stack >> setup) v tt done in
      let v1 = (map_elf u elf v).1 in
      let done1 = sym (ap (λ p. p.0) e1) ∙ done in
      let (_, _, e2) = >>=-ok stack (λ _. setup) v1 tt done1 in
      let v2 = (stack v1).1 in
      let done2 = sym (ap (λ p. p.0) e2) ∙ done1 in
      let (s, loaded, rip, rsp) =
        setup_initial_state-regs u elf.entry (stack_base + stack_size) v2 small done2 in
      (s, ap (λ p. p.1.uc) (e1 ∙ e2) ∙ loaded, rip, rsp)

  -- The CPU's hook and the state it shares with its owner are untouched by the setup.
  pub boot-hook :
      (image : List ℕ) (sink : TraceSink) (v : Vcpu u)
      → boot u goblin image sink ≡ ok v
      → (v.hook ≡ run_dispatch u goblin sink) × (v.shared ≡ new_shared)
  unfolding IsReady
  boot-hook image sink v booted = elim (Outcome-cases (load_elf goblin image)) [
    | inl (elf, loaded) ↦
        let (v0, new, done, end) = boot-new image sink elf v loaded booted in
        let d = run_dispatch u goblin sink in
        let (hook, shared, _) = set_up-IsReady elf d v0 (new_vcpu-IsReady u d v0 new) in
        (ap (λ (w : Vcpu u). w.hook) end ∙ hook, ap (λ (w : Vcpu u). w.shared) end ∙ shared)
    | inr (inl (e, failed)) ↦ cc (sym (boot-error image sink e failed) ∙ booted)
    | inr (inr failed) ↦ cc (sym (boot-panic image sink failed) ∙ booted)
  ]

  -- When `run_elf` has set a CPU up for an image, the CPU has an engine whose RIP is the entry point
  -- of the image and whose RSP is 32 bytes below the top of the stack; its hook is the dispatcher of
  -- stage 1 with the run's sink, and nothing is captured or reported.
  pub boot-IsReady :
      (image : List ℕ) (sink : TraceSink) (elf : LoadedElf) (v : Vcpu u)
      → load_elf goblin image ≡ ok elf
      → elf.entry < 2 ^ 64
      → boot u goblin image sink ≡ ok v
      → (v.hook ≡ run_dispatch u goblin sink)
        × (v.shared ≡ new_shared)
        × ((s : u.State) × (v.uc ≡ some s)
            × (u.reg_read s u.rip ≡ ok elf.entry)
            × (u.reg_read s u.rsp ≡ ok (stack_base + stack_size - 0x20)))
  boot-IsReady image sink elf v loaded small booted =
      let (v0, new, done, end) = boot-new image sink elf v loaded booted in
      let (hook, shared) = boot-hook image sink v booted in
      let (s, uc, rip, rsp) = set_up-regs elf v0 small done in
      (hook, shared, (s, ap (λ (w : Vcpu u). w.uc) end ∙ uc, rip, rsp))

-- ===== src/Python/Refused.antt =====
-- The images that `run_elf` and `parse_elf` refuse as no ELF files.
use mathlib.Core.Option.{map as map_option}
use win_vpwn.Base.{
  ℕ, List, Option, none, some, ◌≡◌, ◌≢◌, ◌↔◌, refl, ap, arith, Outcome, ok, error, panic, map_err,
  ◌>>=◌, Text,
}
use win_vpwn.Trace.{Buffers, TraceSink}
use win_vpwn.Vkernel.Process.{ExitReason}
use win_vpwn.Elf.{not_elf, ElfError, load_elf, elf_error_text}
use win_vpwn.Elf.Format.{Goblin}
use win_vpwn.Elf.Magic.{BeginsElf, bad_magic, elf_error_text-bad_magic, load_elf-not_elf_begins}
use win_vpwn.Cpu.Engine.{Unicorn}
use win_vpwn.Cpu.Vcpu.{Vcpu, VcpuError, vcpu_error_text, init, map, reg_op, exec, not_loaded}
use win_vpwn.Cpu.Run.{run}
use win_vpwn.Python.{run_elf, run_booted, collect, boot, parse_elf}
use win_vpwn.Python.Boot.{boot-error}

-- No error of the CPU has the text of a bad magic.
vcpu_error_text-ne_bad_magic : (e : VcpuError) → vcpu_error_text e ≢ bad_magic
unfolding vcpu_error_text
vcpu_error_text-ne_bad_magic (init msg) h = ground (arith, h)
vcpu_error_text-ne_bad_magic (map base reason) h = ground (arith, h)
vcpu_error_text-ne_bad_magic (reg_op msg) h = ground (arith, h)
vcpu_error_text-ne_bad_magic (exec msg) h = ground (arith, h)
vcpu_error_text-ne_bad_magic not_loaded h = ground (arith, h)

map_err-ne_bad_magic {ℓ} :
    {A : Type ℓ} (r : Outcome VcpuError A) → map_err vcpu_error_text r ≢ error bad_magic
map_err-ne_bad_magic (ok a) h = cc
map_err-ne_bad_magic (error e) h = vcpu_error_text-ne_bad_magic e (ground (arith, h))
map_err-ne_bad_magic panic h = cc

-- An error in both steps of a setup is of the loader, if it has the text of a bad magic.
loader_error {ℓ κ} :
    {A : Type ℓ} {B : Type κ} (r : Outcome ElfError A) (f : A → Outcome Text B)
    → ((a : A) → f a ≢ error bad_magic)
    → (map_err elf_error_text r >>= f) ≡ error bad_magic
    → r ≡ error not_elf
loader_error (ok a) f others h = absurd (others a h)
loader_error (error e) f others h = ap error (elf_error_text-bad_magic e (ground (arith, h)))
loader_error panic f others h = cc

module _ (goblin : Goblin) (image : List ℕ) where
  parse_elf-not_elf :
      (parse_elf goblin image ≡ error bad_magic) ↔ (load_elf goblin image ≡ error not_elf)
  unfolding parse_elf
  parse_elf-not_elf = (
    loader_error (load_elf goblin image) _ (λ elf h. cc h),
    λ h. rw h (unfold elf_error_text in refl),
  )

  module _ (u : Unicorn) (sink : TraceSink) (fuel timeout_ms : ℕ) (bufs : Buffers) where
    collect-ne_bad_magic :
        (ran : Option (Outcome VcpuError ExitReason × Vcpu u × Buffers))
        → map_option (collect u goblin sink) ran ≢ some (error bad_magic)
    unfolding collect
    collect-ne_bad_magic none h = cc h
    collect-ne_bad_magic (some (ok r, v, b)) h = cc h
    collect-ne_bad_magic (some (error e, v, b)) h =
        vcpu_error_text-ne_bad_magic e (ground (arith, h))
    collect-ne_bad_magic (some (panic, v, b)) h = cc h

    run_booted-bad_magic :
        (booted : Outcome Text (Vcpu u))
        → run_booted u goblin fuel timeout_ms sink bufs booted ≡ some (error bad_magic)
        → booted ≡ error bad_magic
    unfolding run_booted
    run_booted-bad_magic (ok v) h = absurd (collect-ne_bad_magic (run u fuel timeout_ms v bufs) h)
    run_booted-bad_magic (error e) h = cc h
    run_booted-bad_magic panic h = cc h

    boot-not_elf :
        boot u goblin image sink ≡ error bad_magic → load_elf goblin image ≡ error not_elf
    unfolding boot
    boot-not_elf = loader_error (load_elf goblin image) _ (λ elf. map_err-ne_bad_magic _)

    -- `run_elf`, with any fuel and timeout, raises the error of a bad magic exactly if the image does not
    -- begin with the bytes 0x7f, E, L and F: no other error has its text, and `parse_elf` raises it for the same images.
    pub run_elf-not_elf_iff :
        ((run_elf u goblin fuel sink bufs image timeout_ms ≡ some (error bad_magic))
          ↔ (¬ BeginsElf image))
        × ((parse_elf goblin image ≡ error bad_magic) ↔ (¬ BeginsElf image))
    unfolding run_elf
    run_elf-not_elf_iff =
        let (begins, refuses) = load_elf-not_elf_begins goblin image in
        (
          (
            λ h. begins (boot-not_elf (run_booted-bad_magic (boot u goblin image sink) h)),
            λ h.
                let booted = boot-error u goblin image sink not_elf (refuses h) in
                unfold elf_error_text run_booted in
                ap (λ b. run_booted u goblin fuel timeout_ms sink bufs b) booted,
          ),
          (λ h. begins (parse_elf-not_elf.0 h), λ h. parse_elf-not_elf.1 (refuses h)),
        )

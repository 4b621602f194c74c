-- ===== src/Cpu/Vcpu/Entry.antt =====
-- Where the guest begins after `setup_initial_state`.
use win_vpwn.Base.{ℕ, ◌<◌, ◌^◌, some, some-injective, ◌≡◌, sym, ap, ◌∙◌, arith, ok, sub_u64}
use win_vpwn.Base.Exec.{>>=-ok, ◌>>◌}
use win_vpwn.Cpu.Engine.{Unicorn}
use win_vpwn.Cpu.Vcpu.{Vcpu, reg_error, engine_present, setup_initial_state}
use win_vpwn.Cpu.Vcpu.Ready.{write_frame, set_rsp, set_rip, call_engine-ok}

-- When `setup_initial_state` succeeds, RIP holds the entry point and RSP stands 32 bytes below the
-- given top of the stack, modulo 2^64.
pub setup_initial_state-regs :
    (u : Unicorn) (entry stack_top : ℕ) (v : Vcpu u)
    → entry < 2 ^ 64
    → (setup_initial_state u entry stack_top v).0 ≡ ok tt
    → (s : u.State) × ((setup_initial_state u entry stack_top v).1.uc ≡ some s)
      × (u.reg_read s u.rip ≡ ok entry)
      × (u.reg_read s u.rsp ≡ ok (sub_u64 stack_top 0x20))
unfolding setup_initial_state
setup_initial_state-regs u entry stack_top v small done =
    let frame = write_frame u entry stack_top in
    let rsp = set_rsp u entry stack_top in
    let rip = set_rip u entry stack_top in
    let (_, _, e1) = >>=-ok (engine_present u) (λ _. frame >> (rsp >> rip)) v tt done in
    let v1 = (engine_present u v).1 in
    let done1 = sym (ap (λ p. p.0) e1) ∙ done in
    let (_, _, e2) = >>=-ok frame (λ _. rsp >> rip) v1 tt done1 in
    let v2 = (frame v1).1 in
    let done2 = sym (ap (λ p. p.0) e2) ∙ done1 in
    let (_, wrote, e3) = >>=-ok rsp (λ _. rip) v2 tt done2 in
    let v3 = (rsp v2).1 in
    let done3 = sym (ap (λ p. p.0) e3) ∙ done2 in
    let (s2, _, rsp_done, held) =
      call_engine-ok u (λ s. u.reg_write s u.rsp (sub_u64 stack_top 0x20)) (reg_error u) v2 wrote in
    let (s3, loaded, rip_done, final) =
      call_engine-ok u (λ s. u.reg_write s u.rip entry) (reg_error u) v3 done3 in
    let s3_eq : s3 ≡ (u.reg_write s2 u.rsp (sub_u64 stack_top 0x20)).1 =
      some-injective (sym loaded ∙ held) in
    (
      (u.reg_write s3 u.rip entry).1,
      ap (λ p. p.1.uc) (e1 ∙ e2 ∙ e3) ∙ final,
      u.reg_read-reg_write s3 u.rip entry small rip_done,
      u.rsp-reg_write_rip s3 entry rip_done
          ∙ ap (λ s. u.reg_read s u.rsp) s3_eq
          ∙ u.reg_read-reg_write s2 u.rsp (sub_u64 stack_top 0x20) (omega arith) rsp_done,
    )

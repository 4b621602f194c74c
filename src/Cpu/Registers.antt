-- ===== src/Cpu/Registers.antt =====
-- crates/winvpwn-core/src/cpu/context.rs
use win_vpwn.Base.{ℕ}
use win_vpwn.Trace.{Args}

pub record CpuContext : Type 0 where
  pub rax : ℕ
  pub rbx : ℕ
  pub rcx : ℕ
  pub rdx : ℕ
  pub rsi : ℕ
  pub rdi : ℕ
  pub rbp : ℕ
  pub rsp : ℕ
  pub r8 : ℕ
  pub r9 : ℕ
  pub r10 : ℕ
  pub r11 : ℕ
  pub r12 : ℕ
  pub r13 : ℕ
  pub r14 : ℕ
  pub r15 : ℕ
  pub rip : ℕ
  pub rflags : ℕ

-- `CpuContext::new`
abbrev pub new_cpu_context : CpuContext
new_cpu_context = record {
  rax = 0;
  rbx = 0;
  rcx = 0;
  rdx = 0;
  rsi = 0;
  rdi = 0;
  rbp = 0;
  rsp = 0;
  r8 = 0;
  r9 = 0;
  r10 = 0;
  r11 = 0;
  r12 = 0;
  r13 = 0;
  r14 = 0;
  r15 = 0;
  rip = 0;
  rflags = 0;
}

abbrev pub syscall_regs : CpuContext → Args
syscall_regs c = (c.rdi, c.rsi, c.rdx, c.r10, c.r8, c.r9)

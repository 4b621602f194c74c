-- ===== src/Cpu.antt =====
-- crates/winvpwn-core/src/cpu: the register view, and the virtual CPU over the Unicorn engine.
pub mod Registers
pub mod Engine
pub mod Memory
pub mod Vcpu
pub mod Hook
pub mod Run

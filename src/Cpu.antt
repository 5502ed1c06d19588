-- ===== src/Cpu.antt =====
-- src/cpu: the collectors for x86 and arm64.
pub mod X86
pub mod Arm64

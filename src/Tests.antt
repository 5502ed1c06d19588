-- ===== src/Tests.antt =====
-- Concrete runs: a fixed-point `Double`, the machine of tests/fixtures/linux_x86_mock, and the
-- theorems at them.
mod Machine
mod Format
mod Collectors
mod Boards
mod Sysfs
mod Gpu
mod Monitor
mod Json

-- ===== src/Sonar.antt =====
-- The sonar: the kernel module KernelModules/adcsonar and the reader of its device.
pub mod Xadc
pub mod Thread
pub mod KernelModule
mod Tests

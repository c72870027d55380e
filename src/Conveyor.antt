-- ===== src/Conveyor.antt =====
-- cmd/conveyor-sim-server/conveyor_device.go: the conveyor belt's firmware and its bench.
mod Tests
pub mod Scripts
pub mod Texts
pub mod Firmware

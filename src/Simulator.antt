-- ===== src/Simulator.antt =====
-- simulator: the simulated device. Each child models one file, or one concern of simulator.go.
pub mod Expectations
pub mod States
pub mod Clock
pub mod Network
pub mod Connections
pub mod Device
pub mod Validation
mod Tests

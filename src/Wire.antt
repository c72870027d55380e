-- ===== src/Wire.antt =====
-- internal/wire: the errors and the limits of wire.go, the byte stream of a connection, and
-- `writeFull` of plain.go. The framings are the child modules.
pub mod Io
pub mod Writer
pub mod Varint
pub mod Plain
pub mod Noise
mod Tests
mod NoiseTests

-- ===== src/Client.antt =====
-- client.go: one connection of a client. The state is that of `Client`, with the frames it has written
-- and the callbacks it has run as logs; the goroutines are step functions over it.
pub mod State
pub mod Send
pub mod Read
pub mod Dispatch
pub mod Commands
pub mod Hello
pub mod Probe
pub mod Subscribe
pub mod Dial
pub mod Steps
mod Tests
mod ExchangeTests

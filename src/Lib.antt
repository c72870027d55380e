-- ===== src/Lib.antt =====
-- A verification library for go-aioesphomeapi, a Go client for ESPHome's Native API with a
-- deterministic simulated device.
--
-- The parts of the program and how they interact: `internal/wire` frames typed protobuf messages over
-- a connection, in plaintext or under Noise. `client.go` keeps one connection: a read loop takes
-- frames, answers pings and disconnects itself, completes probes directly, and hands all else through
-- a bounded queue to a dispatcher, which feeds the entity registry of `entities.go`, a pending listing
-- and the subscribers' callbacks. `commands.go` sends typed commands after a look at the registry.
-- `simulator` plays a device on the other end.
--
-- The files:
-- Base: shared names; lists, byte strings, results and integer-keyed maps over the native numbers.
-- Wire/Io, Wire/Writer, Wire/Varint: `internal/wire/wire.go` (limits, errors), what Go's io and
-- encoding/binary packages give the framers, and `writeFull` of `internal/wire/plain.go`.
-- Wire/Plain: `internal/wire/plain.go`. Wire/Noise: `internal/wire/noise.go`, packets, frames, handshakes and rejections.
-- Messages: the generated messages of `pb/api.pb.go` that the code tells apart.
-- Entities: `entities.go`. Client: `client.go`, with Client/Commands for `commands.go` and the
-- configuration of `options.go` in Client/Hello, the probes in Client/Probe and the subscriptions in
-- Client/Subscribe; Client/Dial has the dialled address.
-- Mdns/Names, Mdns/Packets: `internal/mdns/dns.go`. Mdns/Resolver, Mdns/Responder:
-- `internal/mdns/resolver.go` and `internal/mdns/responder.go`.
-- Simulator/Expectations: `simulator/command_expectations.go`, and `record` of `simulator/simulator.go`.
-- Simulator/States, Simulator/Device, Simulator/Connections: `simulator/simulator.go`, its state store,
-- its handlers, pushes and timeline with `simulator/fault.go`, and what a device owns.
-- Simulator/Clock: `simulator/clock.go`. Simulator/Network: `simulator/network.go`.
-- Simulator/Validation: `simulator/validation.go`. Colour: `colour.go`.
-- Blink: `cmd/mgmt-compat-sim-server/blink_device.go`.
-- Conveyor/Scripts, Conveyor/Texts, Conveyor/Firmware: `cmd/conveyor-sim-server/conveyor_device.go` with
-- the constants of `simulator/conveyor.go`; a round of `run` receives a command or the tick of any timer
-- that waits, so that every schedule of the runtime is covered, whatever the delays.
--
-- How code corresponds to definitions: a byte slice is a list of numbers, a stream is the bytes that
-- will arrive and the error behind them, `(value, error)` is `Result` or an optional error, a map is a
-- list of entries with distinct keys, and a method returns the new state. The goroutines of a client
-- are steps of `Client.Steps.Step`, in any order; a step is what runs between two points at which Go
-- may switch. `shutdown` is four such steps, since others see a client between them, and a round of the read
-- loop ends with the reason that it will call `shutdown` with. Callbacks are tokens, and their runs are a log. A `float32` is its bit pattern.
-- `proto.Marshal`, `proto.Unmarshal`, `proto.Equal`, the Noise ciphers and handshake states, and the case folding of texts that
-- are not ASCII are parameters. A connection's writes follow a schedule of what each does; a
-- session's, of which succeed.
--
-- Bounds and fuel: a varint has at most ten bytes, and the loops that write and read it have that many
-- rounds, as in Go. `read_frames` and `noise_read_all` are run for a given number of frames. The
-- loop that reads an mDNS name has fuel for 272 rounds, more than its limits on jumps and length allow.
-- All other loops recur on a list. Counters that Go keeps in 64 bits are unbounded numbers here.
--
-- Not modelled: locks (each critical section is one step), deadlines, the establishment of a
-- connection; the timer of the client's keepalive loop; the sockets of
-- `internal/mdns`; the other programs under `cmd`, which are mostly input and output.
pub mod Base
pub mod Blink
pub mod Colour
pub mod Wire
pub mod Messages
pub mod Entities
pub mod Client
pub mod Conveyor
pub mod Simulator
pub mod Mdns

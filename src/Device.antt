-- ===== src/Device.antt =====
-- sccp_device.c, the calls of a device: its state, and the handlers of its session thread.
-- Types holds the structures, Core the queued tasks, the panic and the messages to the phone, Calls
-- the call operations, Forward call forwarding and the do-not-disturb state, Dial the start of a call,
-- Softkeys and Messages what the phone asks for, and Channel what Asterisk and the timers ask for.
-- The other children hold proofs.
pub mod Types
pub mod Core
pub mod Calls
pub mod Valid
pub mod Links
pub mod Safety
pub mod Clear
pub mod Moves
pub mod Forward
pub mod Kept
pub mod Dial
pub mod Softkeys
pub mod Messages
pub mod Channel
pub mod Same
pub mod Start
pub mod Transfer
pub mod Keys
pub mod Input
pub mod Events
pub mod Requests
pub mod Steps
pub mod Refs
pub mod Held
mod Tests

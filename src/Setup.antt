-- ===== src/Setup.antt =====
-- sccp_device.c: how a device is created from its configuration, registered, reloaded and destroyed,
-- with its line and its speed dials.
pub mod Types
pub mod Speeddials
pub mod Life
pub mod Register
pub mod Requests
pub mod Watches
pub mod Create
pub mod Makes
pub mod Holds
pub mod Reload
pub mod Ends
pub mod Lookup
pub mod Example
mod Tests

-- ===== src/Stream.antt =====
-- src/stream.rs: the application's half of a stream and the context that serves it.
pub mod Types
pub mod Id
pub mod Handle
pub mod Receive
pub mod SendData
pub mod Drive
pub mod Copying
pub mod Collects
pub mod Sending
pub mod Outflow
mod Examples
pub mod StopSending
pub mod Delivery
pub mod Arrives
pub mod Reading
pub mod Frame
pub mod Drops
pub mod Supplies
pub mod Aside
pub mod Controls
pub mod Returns
pub mod Unseen
pub mod Told
mod Polled

-- ===== src/Inner.antt =====
-- src/context_inner.rs: the future that drives the socket, picoquic and the connections.
pub mod Socket
pub mod Loop
pub mod Drive
pub mod Create
pub mod Kept
pub mod Drained
pub mod Deleted
pub mod Accept
pub mod Life
pub mod Crowd
pub mod Well
pub mod Woken
pub mod Entering
pub mod Orderly
pub mod Lasting
pub mod Counted
pub mod Answered
pub mod Refused
pub mod Bounded
pub mod Resend
pub mod Examples
pub mod Runs
pub mod Living
mod Doorway
mod Abiding

-- ===== src/Connection.antt =====
-- src/connection.rs: a connection to a peer, and the context that serves its streams.
pub mod Types
pub mod Handle
pub mod Context
pub mod Callback
pub mod Steps
pub mod Fresh
pub mod Refusal
pub mod Requests
pub mod Served
pub mod Seen
pub mod Quiet
pub mod Begins
pub mod Ending
pub mod Asking
pub mod Ledger
pub mod Serves
pub mod Handing
pub mod Announced
pub mod Handed
pub mod Waiting
pub mod Released
pub mod Retained
pub mod Newcomers
pub mod Telling
pub mod Called
pub mod Failing
pub mod Lasts
pub mod Lasting
pub mod Answering
pub mod Returns
pub mod Late
pub mod Examples
mod Runs
mod Ends
mod Asked
mod Opened
pub mod Alive

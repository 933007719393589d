-- ===== src/Lib.antt =====
-- picoquic-rs, a Tokio binding of the QUIC library picoquic, modelled for verification.
--
-- The program: the application holds a `Stream`, a `Connection` or a `Context`, each of which is one
-- half of some channels. The other halves are in the stream contexts, the connection contexts and
-- the future `ContextInner`, which an executor polls, which owns the socket and the C library, and
-- which the C library calls back for what the peers send.
--
-- The files, with the source that each models:
--   Base      lists, tests, and the results of polls; `Exec` is a value, a panic or spent fuel, and
--             `Post` what holds of the value, if there is one
--   Errors    src/error.rs
--   World     what is outside the crate: its state `Sys`, the error cells and the calls of picoquic
--   Channel   src/channel_with_error.rs; Channel/Propagation proves
--   Swappable src/swappable_stream.rs; Swappable/Laws proves
--   Stream    src/stream.rs. Types and Id: the data; Handle: the application's half; Receive, SendData
--             and Drive: `Context`, split into what it does with the peer's data, what it sends, and its
--             callback and future; Copying, Collects, Sending, Outflow, StopSending, Delivery, Arrives,
--             Reading, Controls and Returns prove; Frame, Drops, Supplies, Aside and Unseen: what
--             a stream leaves alone, for its connection
--   Ffi       src/ffi/connection.rs (StreamId, Cnx), src/ffi/quic_ctx.rs (MicroSeconds, QuicCtx; its
--             children Release and Converts prove) and src/ffi/stateless_packet.rs (Stateless)
--   Config    src/config.rs; Config/Verify proves
--   Verify    src/ffi/verify_certificate.rs, and src/verify_certificate.rs in Default; Boxes: what is
--             handed to C and taken back; Laws and Owned prove
--   Connection src/connection.rs. Types: the data; Handle: the application's half; Context: the context;
--             Callback: picoquic's callback and how connections begin; Steps: these as a relation; Fresh,
--             Refusal, Served, Ending, Late, Ledger, Handed and Lasting prove, with the lemmas of Asking,
--             Handing and Announced, and for Lasting those of Retained, Newcomers, Answering, Telling,
--             Returns, Called, Failing and Lasts; Released: dropping a context; Requests, Seen and Waiting: the channels of a connection
--             as queues; Serves: the streams that are served, without the code; Quiet and Begins: what is
--             left alone
--   PicoquicContext src/context.rs: the application's `Context`; Create: how it and the future come to
--             be; Paired proves
--   Inner     src/context_inner.rs. Socket: the buffer and the socket; Accept: connections that come and
--             go; Loop: the loop of the future over the steps of a round; Drive: `ContextInner`, these
--             steps put together, and the future; Create: how it begins; Life: what the connections of a
--             context go through, one by one, as a relation; Bounded, Woken, Drained, Kept, Resend,
--             Deleted, Answered, Refused and Lasting prove, with the lemmas of Counted, and for Lasting
--             those of Crowd, Well, Entering and Orderly
--   Each folder's Examples has a simulated outside and runs the theorems at concrete inputs, and so do
--   Inner/Runs, Living, Doorway and Abiding, Stream/Told and Polled, and
--   Connection/Runs, Ends, Asked, Opened and Alive.
--
-- How the state corresponds: a `&mut self` method takes a record and returns the new one; a Rust
-- closure for an error is a function from `Unit`; `Arc<RwLock<..>>` of an error is a cell of
-- `World`; `Arc<Mutex<Context>>` is the context with a count, and `release` gives up a reference,
-- with the last of which the context and its streams are dropped. Channels, sockets, timers,
-- picoquic and openssl are parameters: operations on a state `Sys` of which nothing is assumed but
-- what a theorem names. A channel's half is the number by which the outside knows it. Calls of
-- picoquic that return nothing the crate reads are listed in `World.calls`, the newest first.
--
-- Numbers: `u64` sums and shifts carry their remainder by 2 ^ 64. Loops take fuel: the loop of
-- `SwappableStream` two rounds, since the waiting stream is taken in the first; the loop of
-- `ContextInner` 51, since it stops at 50 rounds without sleep; those that drain a channel take it as
-- an argument, with the number of messages, datagrams or connections there as the bound in the
-- theorems.
--
-- Not modelled: logging, `Debug` and `Display`, backtraces, the integration tests, accessors of
-- fields, constructors that only store their arguments, and the build of the C library. The
-- callbacks that picoquic makes while it handles a packet are operations of their own; in
-- `Inner.Drive` what they change together is part of the parameters that stand for taking in and
-- preparing a packet, and what they do to a connection is a step of `Inner.Life`. The halves of its
-- own channels that go with a dropped context of a connection are left out. That the loops within a
-- round return is proved for each on its own, under a bound on what it takes, and for the polls of
-- all connections over their whole life, but not for a whole round at once, whose later loops may
-- be given more by the earlier ones. What a handler of certificates changes in itself and the order
-- of a hash map are left open.
pub mod Base
pub mod Errors
pub mod World
pub mod Channel
pub mod Swappable
pub mod Stream
pub mod Ffi
pub mod Config
pub mod Verify
pub mod Connection
pub mod PicoquicContext
pub mod Inner

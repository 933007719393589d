-- ===== src/Connection/Types.antt =====
-- src/connection.rs: `Message`, `Connection`, its builder, `Context` and what they use from outside.
use picoquic_rs.Base.{ℕ, Bool, List, [], ◌∷◌, Option, none, some, Result, Poll, ◌==◌, if◌then◌else◌}
use picoquic_rs.Errors.{Error}
use picoquic_rs.World.{Mpsc}
use picoquic_rs.Channel
use picoquic_rs.Channel.{SenderWithError, ReceiverWithError, Sink, IsClosed, Close}
use picoquic_rs.Stream.Types.{Stream, SocketAddr}
use picoquic_rs.Stream.Types as StreamTypes
use picoquic_rs.Stream.Id.{StreamType}
use picoquic_rs.Ffi.Cnx.{ConnectionType}

-- `NewStreamHandle`: the sending half of the channel of requests.
abbrev pub NewStreamHandle : Type 0
NewStreamHandle = SenderWithError ℕ

-- A request for a stream: its type and the `oneshot::Sender` for the answer.
abbrev pub Request : Type 0
Request = StreamType × ℕ

pub record ConnectionBuilder : Type 0 where
  pub msg_recv : ℕ
  pub close_send : ℕ
  pub peer_addr : SocketAddr
  pub local_addr : SocketAddr
  pub new_stream_handle : NewStreamHandle
  pub ctype : ConnectionType

pub record Connection : Type 0 where
  pub msg_recv : ℕ
  pub close_send : Option ℕ
  pub peer_addr : SocketAddr
  pub local_addr : SocketAddr
  pub new_stream_handle : NewStreamHandle
  pub id : ℕ
  pub ctype : ConnectionType

-- `ConnectionBuilder::build`
unfoldable pub build : ConnectionBuilder → ℕ → Connection
build b id = record {
  msg_recv = b.msg_recv;
  close_send = some b.close_send;
  peer_addr = b.peer_addr;
  local_addr = b.local_addr;
  new_stream_handle = b.new_stream_handle;
  id = id;
  ctype = b.ctype;
}

pub data Message : Type 0 where
  new_stream : Stream → Message
  close : Message
  error : Error → Message

-- The streams by their ids. The order of a hash map is left open by Rust: here it is the list's.
abbrev pub Streams : Type 0
Streams = List (ℕ × StreamTypes.Context)

pub record Context : Type 0 where
  pub send_msg : ℕ
  pub close_recv : ℕ
  pub recv_create_stream : ReceiverWithError ℕ
  pub streams : Streams
  pub cnx : ℕ
  pub closed : Bool
  pub is_client : Bool
  pub next_stream_id : ℕ
  pub wait_for_ready_state : Option (ConnectionBuilder × ℕ)
  pub local_addr : SocketAddr
  pub stream_send_channel_default_size : ℕ

-- What this module uses from outside. `answer_stream` and `answer_connection` are the sends of a
-- `oneshot`, whose result is not looked at, and `send_close` the one that closes a connection;
-- `create_oneshot` makes the two halves of a oneshot channel.
pub record Ext (Sys : Type 0) : Type 0 where
  pub streams : StreamTypes.Ext Sys
  pub msgs : Mpsc Sys Message
  pub create_requests : Sys → (ℕ × ℕ) × Sys
  pub requests_stream : Channel.Stream Sys ℕ Request (Unit {0})
  pub requests_close : Close Sys ℕ
  pub requests_sink : Sink Sys ℕ Request Request
  pub requests_closed : IsClosed Sys ℕ
  pub create_oneshot : Sys → (ℕ × ℕ) × Sys
  pub answer_stream : ℕ → Result Stream Error → Sys → Sys
  pub answer_connection : ℕ → Result Connection Error → Sys → Sys
  pub poll_answer : ℕ → Sys → Poll (Result Stream Error) (Unit {0}) × Sys
  pub send_close : ℕ → Sys → Sys
  pub poll_close : ℕ → Sys → Poll (Unit {0}) (Unit {0}) × Sys
  pub cnx_local_addr : ℕ → Sys → SocketAddr
  pub local_cnxid : ℕ → Sys → ℕ
  pub is_client : ℕ → Sys → ℕ
  pub local_error : ℕ → Sys → ℕ
  pub remote_error : ℕ → Sys → ℕ
  pub is_handshake_error : ℕ → ℕ

-- `HashMap::get`, and `HashMap::insert`, which replaces.
unfoldable pub lookup : ℕ → Streams → Option StreamTypes.Context
lookup id [] = none
lookup id ((j, c) ∷ m) = if j == id then some c else lookup id m

unfoldable pub insert : ℕ → StreamTypes.Context → Streams → Streams
insert id c [] = (id, c) ∷ []
insert id c ((j, d) ∷ m) = if j == id then (id, c) ∷ m else (j, d) ∷ insert id c m

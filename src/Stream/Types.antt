-- ===== src/Stream/Types.antt =====
-- src/stream.rs: `Message`, `Stream` and `Context`, and what they use from outside the crate.
use picoquic_rs.Base.{ℕ, Bool, Option}
use picoquic_rs.Errors.{Error, Bytes}
use picoquic_rs.World.{Mpsc, Call}
use picoquic_rs.Channel
use picoquic_rs.Channel.{SenderWithError, ReceiverWithError, Sink, IsClosed, Close}
use picoquic_rs.Swappable.{SwappableStream}

-- An address, which the crate only hands on.
abbrev pub SocketAddr : Type 0
SocketAddr = ℕ

-- `SenderWithError<Bytes>` and `ReceiverWithError<Bytes>`: the wrapped half is named by a number.
abbrev pub Sender : Type 0
Sender = SenderWithError ℕ

abbrev pub Receiver : Type 0
Receiver = ReceiverWithError ℕ

pub data Message : Type 0 where
  close : Message
  recv_data : Bytes → Message
  error : Error → Message
  reset : Message
  swap_send_data : Receiver → Sender → Message

-- The constants of `picoquic_call_back_event_t` that the crate names.
pub data Event : Type 0 where
  stream_fin stream_reset stop_sending prepare_to_send almost_ready : Event
  callback_close application_close : Event
  other : ℕ → Event

-- `Stream`
pub record Stream : Type 0 where
  pub recv_msg : ℕ
  pub control_msg : ℕ
  pub send_data : Option Sender
  pub id : ℕ
  pub peer_addr : SocketAddr
  pub local_addr : SocketAddr
  pub is_reset : Bool

-- `stream::Context`
pub record Context : Type 0 where
  pub recv_msg : ℕ
  pub send_data : Option (SwappableStream Receiver)
  pub control_msg : ℕ
  pub id : ℕ
  pub cnx : ℕ
  pub is_client_con : Bool
  pub data_send : Bool
  pub stop_sending_or_fin_sent : Bool
  pub fin_received_or_recv_msg_dropped : Bool
  pub active_buffer : Option Bytes

-- The operations that this module uses from outside: the message channels, the bounded channels of
-- bytes, and picoquic. `slice p n` is the memory of `n` bytes at `p`; `provide` gives the place for
-- stream data, or none for a null pointer.
pub record Ext (Sys : Type 0) : Type 0 where
  pub msgs : Mpsc Sys Message
  pub create_bytes : ℕ → Sys → (ℕ × ℕ) × Sys
  pub bytes_sink : Sink Sys ℕ Bytes Bytes
  pub bytes_closed : IsClosed Sys ℕ
  pub bytes_stream : Channel.Stream Sys ℕ Bytes (Unit {0})
  pub bytes_close : Close Sys ℕ
  pub drop_sender : ℕ → Sys → Sys
  pub drop_receiver : ℕ → Sys → Sys
  pub call : Call → Sys → Sys
  pub provide : ℕ → ℕ → Bool → Bool → Sys → Option ℕ × Sys
  pub slice : ℕ → ℕ → Sys → Bytes
  pub cnx_peer_addr : ℕ → Sys → SocketAddr

-- ===== src/Connection/Handle.antt =====
-- src/connection.rs: `Connection`, `NewStreamHandle` and `NewStreamFuture`, the application's half.
use picoquic_rs.Base.{ℕ, Option, none, some, Result, ok, err, ready, not_ready, Poll}
use picoquic_rs.Errors.{Error, from_kind, unknown}
use picoquic_rs.World.{World, on_sys, with_sys}
use picoquic_rs.Channel
use picoquic_rs.Channel.{AsyncSink, SendError}
use picoquic_rs.Stream.Types.{Stream}
use picoquic_rs.Stream.Id.{StreamType, unidirectional, bidirectional}
use picoquic_rs.Connection.Types.{
  Connection, Message, new_stream, close, error, NewStreamHandle, Request, Ext,
}

module _ {Sys : Type 0} (ext : Ext Sys) where
  open ext use {msgs}

  abbrev received : Poll (Option Message) (Unit {0}) → Poll (Option Stream) Error
  received (err _) = err (from_kind unknown)
  received (ok not_ready) = ok not_ready
  received (ok (ready none)) = ok (ready none)
  received (ok (ready (some close))) = ok (ready none)
  received (ok (ready (some (new_stream s)))) = ok (ready (some s))
  received (ok (ready (some (error e)))) = err e

  -- `FStream::poll`
  unfoldable pub poll : Connection → World Sys → Poll (Option Stream) Error × World Sys
  poll c w = let (r, w') = on_sys w (msgs.poll c.msg_recv w.sys) in (received r, w')

  -- A send that failed hands the request back, and its answer is the error.
  abbrev refuse : Result (AsyncSink Request) (SendError Request) → World Sys → World Sys
  refuse (ok _) w = w
  refuse (err (Channel.channel e r)) w = with_sys w (ext.answer_stream r.1 (err e))
  refuse (err (Channel.normal r)) w = with_sys w (ext.answer_stream r.1 (err (from_kind unknown)))

  -- `NewStreamHandle::new_stream_handle`: the future is the receiving half of the oneshot.
  unfoldable pub new_stream_handle : NewStreamHandle → StreamType → World Sys → ℕ × World Sys
  new_stream_handle h stype w =
      let ((send, recv), w₁) = on_sys w (ext.create_oneshot w.sys) in
      let (r, w₂) = Channel.start_send ext.requests_sink ext.requests_closed h (stype, send) w₁ in
      (recv, refuse r w₂)

  unfoldable pub new_bidirectional_stream : Connection → World Sys → ℕ × World Sys
  unfolding new_stream_handle
  new_bidirectional_stream c = new_stream_handle c.new_stream_handle bidirectional

  unfoldable pub new_unidirectional_stream : Connection → World Sys → ℕ × World Sys
  unfolding new_stream_handle
  new_unidirectional_stream c = new_stream_handle c.new_stream_handle unidirectional

  -- `close_immediately`
  unfoldable pub close_immediately : Connection → World Sys → World Sys
  close_immediately c w = elim c.close_send [ none ↦ w | some s ↦ with_sys w (ext.send_close s) ]

  abbrev pub answered : Poll (Result Stream Error) (Unit {0}) → Poll Stream Error
  answered (err _) = err (from_kind unknown)
  answered (ok not_ready) = ok not_ready
  answered (ok (ready (ok s))) = ok (ready s)
  answered (ok (ready (err e))) = err e

  -- `NewStreamFuture::poll`
  unfoldable pub poll_new_stream : ℕ → World Sys → Poll Stream Error × World Sys
  poll_new_stream recv w = let (r, w') = on_sys w (ext.poll_answer recv w.sys) in (answered r, w')

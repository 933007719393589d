-- ===== src/Stream/Handle.antt =====
-- src/stream.rs: the operations of `Stream`, the application's half.
use picoquic_rs.Base.{
  ℕ, true, Option, none, some, Result, ok, err, ready, not_ready, Poll, map_err, Exec, done, panic,
  if◌then◌else◌,
}
use picoquic_rs.Errors.{Error, Bytes, from_kind, unknown, send_error, send_on_unidirectional}
use picoquic_rs.World.{World, on_sys}
use picoquic_rs.Channel
use picoquic_rs.Channel.{AsyncSink, SendError, SenderWithError}
use picoquic_rs.Stream.Types.{Message, close, recv_data, error, reset, swap_send_data, Stream, Ext}
use picoquic_rs.Stream.Id.{StreamType, type_of_id}

unfoldable pub get_type : Stream → StreamType
unfolding type_of_id
get_type s = type_of_id s.id

-- `Stream::get_send_data`
unfoldable pub get_send_data : Stream → Result (SenderWithError ℕ) Error
get_send_data s = elim s.send_data [ none ↦ err (from_kind send_on_unidirectional) | some d ↦ ok d ]

-- `start_send`'s errors: the one that the receiver set, or the bytes back.
abbrev send_failed : SendError Bytes → Error
send_failed (Channel.channel e b) = e
send_failed (Channel.normal b) = from_kind (send_error b)

module _ {Sys : Type 0} (ext : Ext Sys) where
  open ext use {msgs}

  -- `Stream::reset`
  unfoldable pub reset_stream : Stream → World Sys → Result (Unit {0}) Error × World Sys
  reset_stream s w =
      let (taken, w') = on_sys w (msgs.unbounded_send s.control_msg reset w.sys) in
      (if taken then ok tt else err (from_kind unknown), w')

  -- `Stream::set_send_channel_size`. The new sender stays in place also where the message is lost.
  unfoldable pub set_send_channel_size : Stream → ℕ → World Sys → Stream × World Sys
  set_send_channel_size s size w = elim s.send_data [
    | none ↦ (s, w)
    | some old ↦
        let ((sender, receiver), w') = Channel.pair (ext.create_bytes size) w in
        let (_, w'') =
          on_sys w' (msgs.unbounded_send s.control_msg (swap_send_data receiver old) w'.sys) in
        (record s { send_data = some sender }, w'')
  ]

  abbrev pub receive :
      Stream
      → World Sys
      → Poll (Option Message) (Unit {0})
      → Exec (Poll (Option Bytes) Error × Stream × World Sys)
  receive s w (err _) = done (err (from_kind unknown), s, w)
  receive s w (ok not_ready) = done (ok not_ready, s, w)
  receive s w (ok (ready none)) = done (ok (ready none), s, w)
  receive s w (ok (ready (some close))) = done (ok (ready none), s, w)
  receive s w (ok (ready (some (recv_data d)))) = done (ok (ready (some d)), s, w)
  receive s w (ok (ready (some (error e)))) = done (err e, s, w)
  receive s w (ok (ready (some reset))) = done (ok (ready none), record s { is_reset = true }, w)
  receive s w (ok (ready (some (swap_send_data r x)))) = panic

  -- `FStream::poll`
  unfoldable pub poll : Stream → World Sys → Exec (Poll (Option Bytes) Error × Stream × World Sys)
  poll s w = let (r, w') = on_sys w (msgs.poll s.recv_msg w.sys) in receive s w' r

  -- `Sink::start_send`
  unfoldable pub start_send :
      Stream → Bytes → World Sys → Result (AsyncSink Bytes) Error × World Sys
  unfolding get_send_data
  start_send s item w = elim (get_send_data s) [
    | err e ↦ (err e, w)
    | ok d ↦
        let (r, w') = Channel.start_send ext.bytes_sink ext.bytes_closed d item w in
        (map_err send_failed r, w')
  ]

  -- `Sink::poll_complete`
  unfoldable pub poll_complete : Stream → World Sys → Poll (Unit {0}) Error × World Sys
  unfolding get_send_data
  poll_complete s w = elim (get_send_data s) [
    | err e ↦ (err e, w)
    | ok d ↦
        let (r, w') = Channel.poll_complete ext.bytes_sink ext.bytes_closed d w in
        (map_err (λ _. from_kind unknown) r, w')
  ]

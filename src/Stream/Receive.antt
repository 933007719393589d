-- ===== src/Stream/Receive.antt =====
-- src/stream.rs: `Context`, from its construction to what it does with data and errors from the
-- peer.
use picoquic_rs.Base.{
  ℕ, Bool, true, false, ◌&&◌, ◌||◌, not, Option, none, some, if◌then◌else◌, is_empty,
}
use picoquic_rs.Errors.{ErrorFn, Bytes}
use picoquic_rs.World.{World, Mpsc, Call, on_sys, with_sys, perform}
use picoquic_rs.World
use picoquic_rs.Channel
use picoquic_rs.Channel.{ReceiverWithError}
use picoquic_rs.Swappable.{SwappableStream, new}
use picoquic_rs.Stream.Types.{
  Message, close, recv_data, error, reset, Stream, Context, Ext, Receiver, Sender, Event,
  stream_fin, stream_reset, stop_sending, SocketAddr,
}
use picoquic_rs.Stream.Id.{is_unidirectional, is_unidirectional_send_allowed}

abbrev set_receiver : SwappableStream Receiver → Receiver → SwappableStream Receiver
set_receiver s r = record s { active_stream = r }

module _ {Sys : Type 0} (ext : Ext Sys) where
  open ext use {msgs}

  -- `create_send_and_recv_data`
  unfoldable pub create_send_and_recv_data :
      ℕ → Bool → ℕ → World Sys → (Option Sender × Option Receiver) × World Sys
  create_send_and_recv_data id client_con size w =
      if is_unidirectional id && not (is_unidirectional_send_allowed id client_con)
      then ((none, none), w)
      else (let ((sender, receiver), w') = Channel.pair (ext.create_bytes size) w in
          ((some sender, some receiver), w'))

  -- `Context::new`. Both receivers are polled once, which registers the task, and the answers are
  -- thrown away.
  unfoldable pub new_context :
      ℕ → ℕ → Option Receiver → ℕ → ℕ → Bool → World Sys → Context × World Sys
  new_context recv_msg control_msg send_data id cnx is_client_con w =
      let (_, w₁) = on_sys w (msgs.poll control_msg w.sys) in
      let w₂ : World Sys = elim send_data [
        | none ↦ w₁
        | some r ↦ (Channel.poll ext.bytes_stream r w₁).1
      ] in
      (
        record {
          recv_msg = recv_msg;
          send_data = elim send_data [ none ↦ none | some r ↦ some (new r) ];
          control_msg = control_msg;
          id = id;
          cnx = cnx;
          is_client_con = is_client_con;
          data_send = false;
          stop_sending_or_fin_sent =
              is_unidirectional id && not (is_unidirectional_send_allowed id is_client_con);
          fin_received_or_recv_msg_dropped =
              is_unidirectional id && is_unidirectional_send_allowed id is_client_con;
          active_buffer = none;
        },
        w₂,
      )

  -- `Stream::new`
  unfoldable pub new_stream :
      ℕ → ℕ → SocketAddr → Bool → ℕ → World Sys → (Stream × Context) × World Sys
  unfolding create_send_and_recv_data new_context
  new_stream id cnx local_addr is_client_con size w =
      let (recv_msg, w₁) = on_sys w (msgs.unbounded w.sys) in
      let (control_msg, w₂) = on_sys w₁ (msgs.unbounded w₁.sys) in
      let ((send_data, data_rx), w₃) = create_send_and_recv_data id is_client_con size w₂ in
      let (ctx, w₄) = new_context recv_msg control_msg data_rx id cnx is_client_con w₃ in
      (
        (
          record {
            recv_msg = recv_msg;
            control_msg = control_msg;
            send_data = send_data;
            id = id;
            peer_addr = ext.cnx_peer_addr cnx w₄.sys;
            local_addr = local_addr;
            is_reset = false;
          },
          ctx,
        ),
        w₄,
      )

  -- Dropping a `SwappableStream` drops its active stream and the one that waits.
  unfoldable pub drop_swappable : SwappableStream Receiver → World Sys → World Sys
  drop_swappable s w =
      let w' = with_sys w (ext.drop_receiver s.active_stream.receiver) in
      elim s.swap_to [ none ↦ w' | some r ↦ with_sys w' (ext.drop_receiver r.receiver) ]

  -- `close_send_data`: the active receiver is closed, then dropped with the waiting one.
  unfoldable pub close_send_data : Context → World Sys → Context × World Sys
  unfolding drop_swappable
  close_send_data ctx w = elim ctx.send_data [
    | none ↦ (ctx, w)
    | some s ↦ (
      record ctx { send_data = none },
      drop_swappable s (Channel.close ext.bytes_close s.active_stream w),
    )
  ]

  -- `Context::reset`
  unfoldable pub reset_context : Context → World Sys → Context × World Sys
  unfolding close_send_data
  reset_context ctx w =
      let (ctx', w') = close_send_data (record ctx { stop_sending_or_fin_sent = true }) w in
      (ctx', perform ext.call (World.reset_stream ctx.cnx ctx.id 0) w')

  unfoldable pub recv_message_dropped : Context → World Sys → Context × World Sys
  unfolding is_unidirectional is_unidirectional_send_allowed
  recv_message_dropped ctx w = if ctx.fin_received_or_recv_msg_dropped then (ctx, w) else (
    record ctx { fin_received_or_recv_msg_dropped = true },
    if not (is_unidirectional ctx.id)
          || not (is_unidirectional_send_allowed ctx.id ctx.is_client_con)
        then perform ext.call (World.stop_sending ctx.cnx ctx.id 0) w
        else w,
  )

  unfoldable pub recv_message : Context → Message → World Sys → Context × World Sys
  unfolding recv_message_dropped
  recv_message ctx msg w =
      let (taken, w') = on_sys w (msgs.unbounded_send ctx.recv_msg msg w.sys) in
      if taken then (ctx, w') else recv_message_dropped ctx w'

  -- `handle_callback`'s branch for what the peer sent: first the data, then the event.
  unfoldable pub handle_data : Context → Bytes → World Sys → Context × World Sys
  unfolding recv_message
  handle_data ctx bytes w =
      if not (is_empty bytes) && not ctx.fin_received_or_recv_msg_dropped
      then recv_message ctx (recv_data bytes) w
      else (ctx, w)

  unfoldable pub handle_event : Context → Event → World Sys → Context × World Sys
  unfolding recv_message close_send_data
  handle_event ctx stream_reset w =
      recv_message (record ctx { fin_received_or_recv_msg_dropped = true }) reset w
  handle_event ctx stop_sending w =
      close_send_data (record ctx { stop_sending_or_fin_sent = true }) w
  handle_event ctx stream_fin w =
      recv_message (record ctx { fin_received_or_recv_msg_dropped = true }) close w
  handle_event ctx _ w = (ctx, w)

  -- The error is set for the sender of the active receiver only.
  unfoldable pub handle_connection_error : Context → ErrorFn → World Sys → Context × World Sys
  unfolding recv_message
  handle_connection_error ctx err w =
      let (ctx', w') = recv_message ctx (error (err tt)) w in
      elim ctx'.send_data [
        | none ↦ (ctx', w')
        | some s ↦ (ctx', Channel.propagate_error s.active_stream err w')
      ]

  unfoldable pub handle_connection_close : Context → World Sys → Context × World Sys
  unfolding recv_message
  handle_connection_close ctx w = recv_message ctx close w

  -- `Drop for Context`, and then the drop of its halves of the channels of messages; no stream of
  -- bytes is left.
  unfoldable pub drop_context : Context → World Sys → World Sys
  unfolding close_send_data
  drop_context ctx w =
      let (ctx', w') =
        close_send_data ctx (on_sys w (msgs.unbounded_send ctx.recv_msg close w.sys)).1 in
      with_sys w' (λ s. msgs.drop_receiver ctx.control_msg (msgs.drop_sender ctx.recv_msg s))

-- ===== src/Stream/StopSending.antt =====
-- src/stream.rs: the peer is asked to stop sending at most once.
use picoquic_rs.Base.{
  ℕ, suc, ◌+◌, ◌≤◌, ◌≡◌, inl, inr, Bool, true, false, List, [], ◌∷◌, arith, Bool-cases,
  if◌then◌else◌,
}
use picoquic_rs.Errors.{Bytes, ErrorFn}
use picoquic_rs.World
use picoquic_rs.World.{World}
use picoquic_rs.Channel
use picoquic_rs.Stream.Types.{
  Context, Ext, Event, Message, stream_reset, stream_fin, stop_sending, prepare_to_send,
  almost_ready, callback_close, application_close, other,
}
use picoquic_rs.Stream.Types as Types
use picoquic_rs.Stream.Receive.{
  recv_message, recv_message_dropped, handle_data, handle_event, handle_connection_error,
  handle_connection_close, close_send_data, reset_context,
}

-- How often picoquic was asked to tell the peer to stop.
abbrev pub stops : List World.Call → ℕ
stops [] = 0
stops (World.stop_sending c id code ∷ cs) = suc (stops cs)
stops (_ ∷ cs) = stops cs

abbrev open_end : Bool → ℕ
open_end true = 0
open_end false = 1

module _ {Sys : Type 0} (ext : Ext Sys) where
  -- The stops made and, while the receiving side is open, the one that may still come.
  abbrev pub budget : Context × World Sys → ℕ
  budget (ctx, w) = stops w.calls + open_end ctx.fin_received_or_recv_msg_dropped

  recv_message_dropped-budget :
      (ctx : Context) (w : World Sys) → budget (recv_message_dropped ext ctx w) ≤ budget (ctx, w)
  unfolding recv_message_dropped
  recv_message_dropped-budget ctx w = ground arith

  recv_message-budget :
      (ctx : Context) (m : Message) (w : World Sys)
      → budget (recv_message ext ctx m w) ≤ budget (ctx, w)
  unfolding recv_message
  recv_message-budget ctx m w =
      let v = record w { sys = (ext.msgs.unbounded_send ctx.recv_msg m w.sys).1 } in
      ground (arith, recv_message_dropped-budget ctx v)

  handle_data-budget :
      (ctx : Context) (b : Bytes) (w : World Sys)
      → budget (handle_data ext ctx b w) ≤ budget (ctx, w)
  unfolding handle_data
  handle_data-budget ctx b w = ground (arith, recv_message-budget ctx (Types.recv_data b) w)

  close_send_data-budget :
      (ctx : Context) (w : World Sys) → budget (close_send_data ext ctx w) ≡ budget (ctx, w)
  unfolding close_send_data Channel.close
  close_send_data-budget ctx w = ground arith

  reset_context-budget :
      (ctx : Context) (w : World Sys) → budget (reset_context ext ctx w) ≡ budget (ctx, w)
  unfolding reset_context Channel.close
  reset_context-budget ctx w = ground arith

  handle_event-budget :
      (ctx : Context) (e : Event) (w : World Sys)
      → budget (handle_event ext ctx e w) ≤ budget (ctx, w)
  unfolding handle_event
  handle_event-budget ctx stream_reset w = ground (
    arith,
    recv_message-budget (record ctx { fin_received_or_recv_msg_dropped = true }) Types.reset w,
  )
  handle_event-budget ctx stream_fin w = ground (
    arith,
    recv_message-budget (record ctx { fin_received_or_recv_msg_dropped = true }) Types.close w,
  )
  handle_event-budget ctx stop_sending w =
      omega (arith, close_send_data-budget (record ctx { stop_sending_or_fin_sent = true }) w)
  handle_event-budget ctx prepare_to_send w = omega arith
  handle_event-budget ctx almost_ready w = omega arith
  handle_event-budget ctx callback_close w = omega arith
  handle_event-budget ctx application_close w = omega arith
  handle_event-budget ctx (other n) w = omega arith

  handle_connection_error-budget :
      (ctx : Context) (e : ErrorFn) (w : World Sys)
      → budget (handle_connection_error ext ctx e w) ≤ budget (ctx, w)
  unfolding handle_connection_error Channel.propagate_error Channel.set_error
  handle_connection_error-budget ctx e w =
      ground (arith, recv_message-budget ctx (Types.error (e tt)) w)

-- What befalls the receiving side of a stream: data and an event of the peer, an error or the end of
-- the connection, and that the application resets the stream or drops its half.
pub data Happening : Type 0 where
  from_peer : Bytes → Event → Happening
  connection_error : ErrorFn → Happening
  connection_close app_reset app_dropped : Happening

module _ {Sys : Type 0} (ext : Ext Sys) where
  unfoldable pub happen : Happening → Context × World Sys → Context × World Sys
  happen (from_peer b e) (ctx, w) =
      let (ctx', w') = handle_data ext ctx b w in handle_event ext ctx' e w'
  happen (connection_error e) (ctx, w) = handle_connection_error ext ctx e w
  happen connection_close (ctx, w) = handle_connection_close ext ctx w
  happen app_reset (ctx, w) = reset_context ext ctx w
  happen app_dropped (ctx, w) = recv_message_dropped ext ctx w

  unfoldable pub happens : List Happening → Context × World Sys → Context × World Sys
  unfolding happen
  happens [] s = s
  happens (h ∷ hs) s = happens hs (happen h s)

  happen-budget : (h : Happening) (s : Context × World Sys) → budget ext (happen h s) ≤ budget ext s
  unfolding happen handle_connection_close
  happen-budget (from_peer b e) (ctx, w) =
      let (ctx', w') = handle_data ext ctx b w in
      omega (arith, handle_data-budget ext ctx b w, handle_event-budget ext ctx' e w')
  happen-budget (connection_error e) (ctx, w) = handle_connection_error-budget ext ctx e w
  happen-budget connection_close (ctx, w) = recv_message-budget ext ctx Types.close w
  happen-budget app_reset (ctx, w) = omega (arith, reset_context-budget ext ctx w)
  happen-budget app_dropped (ctx, w) = recv_message_dropped-budget ext ctx w

  happens-budget :
      (hs : List Happening) (s : Context × World Sys) → budget ext (happens hs s) ≤ budget ext s
  unfolding happens
  happens-budget [] s = omega arith
  happens-budget (h ∷ hs) s = omega (arith, happens-budget hs (happen h s), happen-budget h s)

  -- Whatever the peer sends, the connection meets and the application does, in any order and however
  -- often, a stream makes at most one call that tells the peer to stop, and none at all if its
  -- receiving side had ended before.
  pub stop_sending_once :
      (hs : List Happening) (ctx : Context) (w : World Sys)
      → let (ctx', w') = happens hs (ctx, w) in
        stops w'.calls ≤ stops w.calls + (if ctx.fin_received_or_recv_msg_dropped then 0 else 1)
  stop_sending_once hs ctx w = elim (Bool-cases ctx.fin_received_or_recv_msg_dropped) [
    | inl e ↦ ground (arith, happens-budget hs (ctx, w))
    | inr e ↦ ground (arith, happens-budget hs (ctx, w))
  ]

-- ===== src/Stream/Delivery.antt =====
-- src/stream.rs: what the application is told of its stream, and in which order.
use picoquic_rs.Base.{
  ℕ, ◌≡◌, refl, ◌∙◌, sym, Bool, true, false, ◌&&◌, not, List, [], ◌∷◌, ◌++◌, append_assoc,
  append-nil, arith, Option-cases, inl, inr, if◌then◌else◌, is_empty,
}
use picoquic_rs.Errors.{Bytes, ErrorFn}
use picoquic_rs.World
use picoquic_rs.World.{World}
use picoquic_rs.Channel
use picoquic_rs.Stream.Types.{
  Context, Ext, Event, Message, stream_reset, stream_fin, stop_sending, prepare_to_send,
  almost_ready, callback_close, application_close, other,
}
use picoquic_rs.Stream.Types as Types
use picoquic_rs.Stream.Receive.{
  recv_message, recv_message_dropped, handle_data, handle_event, handle_connection_error,
  handle_connection_close, close_send_data, reset_context,
}
use picoquic_rs.Stream.StopSending.{
  Happening, from_peer, connection_error, connection_close, app_reset, app_dropped, happen, happens,
}

-- What a stream that is `is_open` to the peer's data should tell the application.
abbrev pub of_data : Bool → Bytes → List Message
of_data is_open b = if not (is_empty b) && is_open then Types.recv_data b ∷ [] else []

abbrev pub of_event : Event → List Message
of_event stream_fin = Types.close ∷ []
of_event stream_reset = Types.reset ∷ []
of_event _ = []

abbrev pub ends : Event → Bool
ends stream_fin = true
ends stream_reset = true
ends _ = false

abbrev pub told : Bool → Happening → List Message
told is_open (from_peer b e) = of_data is_open b ++ of_event e
told is_open (connection_error e) = Types.error (e tt) ∷ []
told is_open connection_close = Types.close ∷ []
told is_open app_reset = []
told is_open app_dropped = []

-- The stream stays open until the peer ends or resets it, or the application drops its half.
abbrev pub still_open : Bool → Happening → Bool
still_open is_open (from_peer b e) = is_open && not (ends e)
still_open is_open app_dropped = false
still_open is_open _ = is_open

unfoldable pub tells : Bool → List Happening → List Message
tells is_open [] = []
tells is_open (h ∷ hs) = told is_open h ++ tells (still_open is_open h) hs

module _ {Sys : Type 0} (ext : Ext Sys) where
  -- The channel to the application takes every message and is a queue, which no other call changes.
  pub record Open (recv_msg : ℕ) : Type 0 where
    pub log : Sys → List Message
    pub takes :
        (m : Message) (s : Sys)
        → ((ext.msgs.unbounded_send recv_msg m s).0 ≡ true)
          × (log (ext.msgs.unbounded_send recv_msg m s).1 ≡ log s ++ m ∷ [])
    pub called : (c : World.Call) (s : Sys) → log (ext.call c s) ≡ log s
    pub closed : (r : ℕ) (s : Sys) → log (ext.bytes_close.close r s) ≡ log s
    pub dropped : (r : ℕ) (s : Sys) → log (ext.drop_receiver r s) ≡ log s

  module _ {recv : ℕ} (o : Open recv) where
    -- From `ctx` to `(ctx', w')` with the messages `ms`, after which the stream is open or not.
    record Tells (ctx : Context) (w : World Sys) (ms : List Message) (is_open' : Bool)
        (s : Context × World Sys) : Type 0 where
      same : s.0.recv_msg ≡ ctx.recv_msg
      logged : o.log s.1.sys ≡ o.log w.sys ++ ms
      opened : not s.0.fin_received_or_recv_msg_dropped ≡ is_open'

    recv_message-Tells :
        (ctx : Context) (m : Message) (w : World Sys)
        → ctx.recv_msg ≡ recv
        → Tells ctx w (m ∷ []) (not ctx.fin_received_or_recv_msg_dropped) (recv_message ext ctx m w)
    unfolding recv_message
    recv_message-Tells ctx m w h = ground (arith, o.takes m w.sys)

    handle_data-Tells :
        (ctx : Context) (b : Bytes) (w : World Sys)
        → ctx.recv_msg ≡ recv
        → let is_open = not ctx.fin_received_or_recv_msg_dropped in
          Tells ctx w (of_data is_open b) is_open (handle_data ext ctx b w)
    unfolding handle_data
    handle_data-Tells ctx b w h =
        ground (arith, recv_message-Tells ctx (Types.recv_data b) w, append-nil (o.log w.sys))

    close_send_data-Tells :
        (ctx : Context) (w : World Sys)
        → Tells ctx w [] (not ctx.fin_received_or_recv_msg_dropped) (close_send_data ext ctx w)
    unfolding close_send_data Channel.close
    close_send_data-Tells ctx w = elim (Option-cases ctx.send_data) [
      | inl e ↦ ground (arith, append-nil (o.log w.sys))
      | inr (s, e) ↦
          let a = s.active_stream.receiver in
          let v = ext.bytes_close.close a w.sys in
          elim (Option-cases s.swap_to) [
            | inl n ↦ ground (arith, append-nil (o.log w.sys), o.closed a w.sys, o.dropped a v)
            | inr (r, n) ↦ ground (
              arith,
              append-nil (o.log w.sys),
              o.closed a w.sys,
              o.dropped a v,
              o.dropped r.receiver (ext.drop_receiver a v),
            )
          ]
    ]

    reset_context-Tells :
        (ctx : Context) (w : World Sys)
        → Tells ctx w [] (not ctx.fin_received_or_recv_msg_dropped) (reset_context ext ctx w)
    unfolding reset_context
    reset_context-Tells ctx w =
        let ctx₁ = record ctx { stop_sending_or_fin_sent = true } in
        let (ctx', w') = close_send_data ext ctx₁ w in
        ground (
          arith,
          close_send_data-Tells ctx₁ w,
          o.called (World.reset_stream ctx.cnx ctx.id 0) w'.sys,
          o.called (World.reset_stream ctx'.cnx ctx'.id 0) w'.sys,
        )

    recv_message_dropped-Tells :
        (ctx : Context) (w : World Sys) → Tells ctx w [] false (recv_message_dropped ext ctx w)
    unfolding recv_message_dropped
    recv_message_dropped-Tells ctx w =
        ground
          (arith, append-nil (o.log w.sys), o.called (World.stop_sending ctx.cnx ctx.id 0) w.sys)

    handle_event-Tells :
        (ctx : Context) (e : Event) (w : World Sys)
        → ctx.recv_msg ≡ recv
        → Tells ctx w
            (of_event e)
            (not ctx.fin_received_or_recv_msg_dropped && not (ends e))
            (handle_event ext ctx e w)
    unfolding handle_event
    handle_event-Tells ctx stream_reset w h = ground (
      arith,
      recv_message-Tells (record ctx { fin_received_or_recv_msg_dropped = true }) Types.reset w,
    )
    handle_event-Tells ctx stream_fin w h = ground (
      arith,
      recv_message-Tells (record ctx { fin_received_or_recv_msg_dropped = true }) Types.close w,
    )
    handle_event-Tells ctx stop_sending w h =
        ground (arith, close_send_data-Tells (record ctx { stop_sending_or_fin_sent = true }) w)
    handle_event-Tells ctx prepare_to_send w h = ground (arith, append-nil (o.log w.sys))
    handle_event-Tells ctx almost_ready w h = ground (arith, append-nil (o.log w.sys))
    handle_event-Tells ctx callback_close w h = ground (arith, append-nil (o.log w.sys))
    handle_event-Tells ctx application_close w h = ground (arith, append-nil (o.log w.sys))
    handle_event-Tells ctx (other n) w h = ground (arith, append-nil (o.log w.sys))

    handle_connection_error-Tells :
        (ctx : Context) (f : ErrorFn) (w : World Sys)
        → ctx.recv_msg ≡ recv
        → Tells ctx w
            (Types.error (f tt) ∷ [])
            (not ctx.fin_received_or_recv_msg_dropped)
            (handle_connection_error ext ctx f w)
    unfolding handle_connection_error Channel.propagate_error Channel.set_error
    handle_connection_error-Tells ctx f w h =
        let first = recv_message-Tells ctx (Types.error (f tt)) w h in
        let (ctx', w') = recv_message ext ctx (Types.error (f tt)) w in
        elim (Option-cases ctx'.send_data) [
          | inl e ↦ ground (arith, first)
          | inr (s, e) ↦ ground (arith, first)
        ]

    happen-Tells :
        (h : Happening) (ctx : Context) (w : World Sys)
        → ctx.recv_msg ≡ recv
        → let is_open = not ctx.fin_received_or_recv_msg_dropped in
          Tells ctx w (told is_open h) (still_open is_open h) (happen ext h (ctx, w))
    unfolding happen handle_connection_close
    happen-Tells (from_peer b e) ctx w h =
        let is_open = not ctx.fin_received_or_recv_msg_dropped in
        let (ctx', w') = handle_data ext ctx b w in
        let first = handle_data-Tells ctx b w h in
        let second = handle_event-Tells ctx' e w' (first.same ∙ h) in
        record {
          same = second.same ∙ first.same;
          logged =
              second.logged
              ∙ rw first.logged (append_assoc (o.log w.sys) (of_data is_open b) (of_event e));
          opened = second.opened ∙ rw first.opened refl;
        }
    happen-Tells (connection_error e) ctx w h = handle_connection_error-Tells ctx e w h
    happen-Tells connection_close ctx w h = recv_message-Tells ctx Types.close w h
    happen-Tells app_reset ctx w h = reset_context-Tells ctx w
    happen-Tells app_dropped ctx w h = recv_message_dropped-Tells ctx w

    -- Where the channel to the application takes every message, queues it and is changed by nothing
    -- else: over any history of a stream the application is told exactly the non-empty data that came
    -- while the stream was open, each end, reset, close and error of the connection, in the order in
    -- which they came. A stream is open until the peer ends or resets it or the application drops it.
    pub happens-tells :
        (hs : List Happening) (ctx : Context) (w : World Sys)
        → ctx.recv_msg ≡ recv
        → o.log (happens ext hs (ctx, w)).1.sys
          ≡ o.log w.sys ++ tells (not ctx.fin_received_or_recv_msg_dropped) hs
    unfolding happens tells
    happens-tells [] ctx w h = sym (append-nil (o.log w.sys))
    happens-tells (a ∷ hs) ctx w h =
        let is_open = not ctx.fin_received_or_recv_msg_dropped in
        let (ctx', w') = happen ext a (ctx, w) in
        let first = happen-Tells a ctx w h in
        let rest = happens-tells hs ctx' w' (first.same ∙ h) in
        rest
        ∙ rw (first.opened, first.logged)
            (append_assoc (o.log w.sys) (told is_open a) (tells (still_open is_open a) hs))

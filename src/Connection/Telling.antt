-- ===== src/Connection/Telling.antt =====
-- src/connection.rs: what a connection's streams tell the application takes nothing from what waits.
use picoquic_rs.Base.{
  ℕ, ◌≡◌, refl, arith, inl, inr, Bool, true, false, not, ◌&&◌, is_empty, Bool-cases, [], ◌∷◌,
  Option-cases,
}
use picoquic_rs.Errors.{Bytes, ErrorFn}
use picoquic_rs.World
use picoquic_rs.World.{World}
use picoquic_rs.Channel
use picoquic_rs.Stream.Types.{Context, Event, Message}
use picoquic_rs.Stream.Types as Types
use picoquic_rs.Stream.Receive.{
  recv_message, recv_message_dropped, handle_connection_close, handle_connection_error, handle_data,
  handle_event, close_send_data,
}
use picoquic_rs.Stream.Drops.{close_send_data-keeps}
use picoquic_rs.Stream.Controls.{channels_of}
use picoquic_rs.Connection.Types.{Ext, Streams}
use picoquic_rs.Connection.Context.{each}
use picoquic_rs.Connection.Fresh.{Own}
use picoquic_rs.Connection.Waiting.{Rest, Waiting, channels, All, Less, Less-trans, differ}

module _ {Sys : Type 0} (ext : Ext Sys) (k : Waiting ext) where
  recv_message-keeps :
      {A : Type 0} (view : Sys → A) (s : Context) (m : Message) (w : World Sys)
      → Rest ext view
      → ((t : Sys) → view (ext.streams.msgs.unbounded_send s.recv_msg m t).1 ≡ view t)
      → view (recv_message ext.streams s m w).1.sys ≡ view w.sys
  unfolding recv_message recv_message_dropped
  recv_message-keeps view s m w o h = ground (
    arith,
    h w.sys,
    o.ends.calls (World.stop_sending s.cnx s.id 0)
        (ext.streams.msgs.unbounded_send s.recv_msg m w.sys).1,
  )

  pub recv_message-Less :
      (i : ℕ → Bool) (s : Context) (m : Message) (w : World Sys)
      → i s.recv_msg ≡ false
      → Less ext k i w.sys (recv_message ext.streams s m w).1.sys
  recv_message-Less i s m w h = (
    omega (arith, recv_message-keeps k.next s m w k.next_rest (k.next_sends s.recv_msg m)),
    λ d e. inl (
        recv_message-keeps (k.waits d) s m w (k.rest d)
          (λ t. k.sends s.recv_msg d m t (differ i s.recv_msg d h e))),
  )

  pub recv_message-channels :
      (s : Context) (m : Message) (w : World Sys)
      → channels_of (recv_message ext.streams s m w).0 ≡ channels_of s
  unfolding recv_message recv_message_dropped
  recv_message-channels s m w = ground arith

  pub close_send_data-Less :
      (i : ℕ → Bool) (s : Context) (w : World Sys)
      → Less ext k i w.sys (close_send_data ext.streams s w).1.sys
  close_send_data-Less i s w = (
    omega (arith, close_send_data-keeps ext.streams k.next k.next_rest.ends s w),
    λ d e. inl (close_send_data-keeps ext.streams (k.waits d) (k.rest d).ends s w),
  )

  close_send_data-channels :
      (s : Context) (w : World Sys)
      → channels_of (close_send_data ext.streams s w).0 ≡ channels_of s
  unfolding close_send_data
  close_send_data-channels s w = elim (Option-cases s.send_data) [
    | inl e ↦ ground arith
    | inr (b, e) ↦ ground arith
  ]

  -- One step of a stream: its channels stay, and nothing is taken from what waits.
  abbrev pub Tells : Context → World Sys → Context × World Sys → Type 0
  Tells s w x =
      (channels_of x.0 ≡ channels_of s)
      × ((i : ℕ → Bool) → i s.recv_msg ≡ false → Less ext k i w.sys x.1.sys)

  pub handle_connection_close-Tells :
      (s : Context) (w : World Sys) → Tells s w (handle_connection_close ext.streams s w)
  unfolding handle_connection_close
  handle_connection_close-Tells s w =
      (recv_message-channels s Types.close w, λ i h. recv_message-Less i s Types.close w h)

  pub handle_connection_error-Tells :
      (e : ErrorFn) (s : Context) (w : World Sys)
      → Tells s w (handle_connection_error ext.streams s e w)
  unfolding handle_connection_error Channel.propagate_error Channel.set_error
  handle_connection_error-Tells e s w =
      let m = Types.error (e tt) in
      let (s', w') = recv_message ext.streams s m w in
      let same = recv_message-channels s m w in
      elim (Option-cases s'.send_data) [
        | inl n ↦ rw (n, handle_connection_error) (same, λ i h. recv_message-Less i s m w h)
        | inr (b, n) ↦ rw (n, handle_connection_error) (same, λ i h. recv_message-Less i s m w h)
      ]

  pub handle_data-Tells :
      (s : Context) (b : Bytes) (w : World Sys) → Tells s w (handle_data ext.streams s b w)
  unfolding handle_data
  handle_data-Tells s b w =
      let m = Types.recv_data b in
      elim (Bool-cases (not (is_empty b) && not s.fin_received_or_recv_msg_dropped)) [
        | inl e ↦
            rw (e, handle_data) (recv_message-channels s m w, λ i h. recv_message-Less i s m w h)
        | inr e ↦ rw (e, handle_data) (refl, λ i h. (omega arith, λ d t. inl refl))
      ]

  pub handle_event-Tells :
      (s : Context) (e : Event) (w : World Sys) → Tells s w (handle_event ext.streams s e w)
  unfolding handle_event
  handle_event-Tells s Types.stream_reset w =
      let s₁ = record s { fin_received_or_recv_msg_dropped = true } in
      (recv_message-channels s₁ Types.reset w, λ i h. recv_message-Less i s₁ Types.reset w h)
  handle_event-Tells s Types.stream_fin w =
      let s₁ = record s { fin_received_or_recv_msg_dropped = true } in
      (recv_message-channels s₁ Types.close w, λ i h. recv_message-Less i s₁ Types.close w h)
  handle_event-Tells s Types.stop_sending w =
      let s₁ = record s { stop_sending_or_fin_sent = true } in
      (close_send_data-channels s₁ w, λ i h. close_send_data-Less i s₁ w)
  handle_event-Tells s _ w = (refl, λ i h. (omega arith, λ d e. inl refl))

  -- The same step of all streams.
  pub each-Tells :
      (f : Context → World Sys → Context × World Sys) (m : Streams) (w : World Sys)
      → ((s : Context) (v : World Sys) → Tells s v (f s v))
      → let (m', w') = each ext f m w in
        (channels m' ≡ channels m)
        × ((i : ℕ → Bool) → All (λ c. i c.0 ≡ false) (channels m) → Less ext k i w.sys w'.sys)
        × ((c : Bool) (n : ℕ) → Own c n m → Own c n m')
  each-Tells f [] w h = (refl, λ i o. (omega arith, λ d e. inl refl), λ c n p. p)
  each-Tells f ((id, s) ∷ m) w h =
      let (s', w₁) = f s w in
      let (m', w') = each ext f m w₁ in
      let (one, less) = h s w in
      let (same, all, own) = each-Tells f m w₁ h in
      (
        cc (one, same),
        λ i o. Less-trans ext k i w.sys w₁.sys w'.sys (less i o.0) (all i o.1),
        λ c n p. (p.0, own c n p.1),
      )

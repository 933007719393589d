-- ===== src/Stream/Drops.antt =====
-- src/stream.rs: what a stream leaves alone where it ends one of its halves.
use picoquic_rs.Base.{ℕ, true, ◌≡◌, ◌∙◌, Option-cases, none, inl, inr, arith}
use picoquic_rs.World
use picoquic_rs.World.{World}
use picoquic_rs.Channel
use picoquic_rs.Swappable.{SwappableStream}
use picoquic_rs.Stream.Types.{Context, Ext, Receiver}
use picoquic_rs.Stream.Receive.{
  recv_message_dropped, close_send_data, reset_context, drop_swappable,
}
use picoquic_rs.Stream.Drive.{handle_send_data_dropped, swap_receiver}

module _ {Sys : Type 0} (ext : Ext Sys) {A : Type 0} (seen : Sys → A) where
  -- Calls of picoquic, and closing and dropping halves of channels, change nothing that is seen.
  pub record Drops : Type 0 where
    pub calls : (c : World.Call) (s : Sys) → seen (ext.call c s) ≡ seen s
    pub closes : (c : ℕ) (s : Sys) → seen (ext.bytes_close.close c s) ≡ seen s
    pub drops_receiver : (c : ℕ) (s : Sys) → seen (ext.drop_receiver c s) ≡ seen s
    pub drops_sender : (c : ℕ) (s : Sys) → seen (ext.drop_sender c s) ≡ seen s

  module _ (a : Drops) where
    drop_swappable-keeps :
        (b : SwappableStream Receiver) (w : World Sys)
        → seen (drop_swappable ext b w).sys ≡ seen w.sys
    unfolding drop_swappable
    drop_swappable-keeps b w = elim (Option-cases b.swap_to) [
      | inl e ↦ ground (arith, a.drops_receiver b.active_stream.receiver w.sys)
      | inr (r, e) ↦ ground (
        arith,
        a.drops_receiver b.active_stream.receiver w.sys,
        a.drops_receiver r.receiver (ext.drop_receiver b.active_stream.receiver w.sys),
      )
    ]

    pub close_send_data-keeps :
        (ctx : Context) (w : World Sys) → seen (close_send_data ext ctx w).1.sys ≡ seen w.sys
    unfolding close_send_data Channel.close
    close_send_data-keeps ctx w = elim (Option-cases ctx.send_data) [
      | inl e ↦ ground arith
      | inr (b, e) ↦
          let r = b.active_stream.receiver in
          ground (
            arith,
            drop_swappable-keeps b (record w { sys = ext.bytes_close.close r w.sys }),
            a.closes r w.sys,
          )
    ]

    pub reset_context-keeps :
        (ctx : Context) (w : World Sys) → seen (reset_context ext ctx w).1.sys ≡ seen w.sys
    unfolding reset_context
    reset_context-keeps ctx w =
        let ctx₁ = record ctx { stop_sending_or_fin_sent = true } in
        a.calls (World.reset_stream ctx.cnx ctx.id 0) (close_send_data ext ctx₁ w).1.sys
        ∙ close_send_data-keeps ctx₁ w

    pub recv_message_dropped-keeps :
        (ctx : Context) (w : World Sys) → seen (recv_message_dropped ext ctx w).1.sys ≡ seen w.sys
    unfolding recv_message_dropped
    recv_message_dropped-keeps ctx w =
        ground (arith, a.calls (World.stop_sending ctx.cnx ctx.id 0) w.sys)

    pub swap_receiver-keeps :
        (ctx : Context) (r : Receiver) (old : ℕ) (w : World Sys)
        → seen (swap_receiver ext ctx r old w).1.sys ≡ seen w.sys
    unfolding swap_receiver
    swap_receiver-keeps ctx r old w = elim (Option-cases ctx.send_data) [
      | inl e ↦ ground (
        arith,
        a.drops_receiver r.receiver w.sys,
        a.drops_sender old (ext.drop_receiver r.receiver w.sys),
      )
      | inr (b, e) ↦ elim (Option-cases b.swap_to) [
        | inl n ↦ ground (arith, a.drops_sender old w.sys)
        | inr (t, n) ↦ ground (
          arith,
          a.drops_receiver t.receiver w.sys,
          a.drops_sender old (ext.drop_receiver t.receiver w.sys),
        )
      ]
    ]

    pub handle_send_data_dropped-keeps :
        (ctx : Context) (w : World Sys)
        → seen (handle_send_data_dropped ext ctx w).1.sys ≡ seen w.sys
    unfolding handle_send_data_dropped
    handle_send_data_dropped-keeps ctx w = elim (Option-cases ctx.send_data) [
      | inl e ↦ ground (
        arith,
        reset_context-keeps (record ctx { send_data = none }) w,
        a.calls (World.mark_active_stream ctx.cnx ctx.id 1) w.sys,
      )
      | inr (b, e) ↦
          let w' = drop_swappable ext b w in
          ground (
            arith,
            drop_swappable-keeps b w,
            reset_context-keeps (record ctx { send_data = none }) w',
            a.calls (World.mark_active_stream ctx.cnx ctx.id 1) w'.sys,
          )
    ]

-- ===== src/Stream/Unseen.antt =====
-- src/stream.rs: what a stream leaves alone where it runs on fuel: in its callback and its future.
use picoquic_rs.Base.{
  ℕ, zero, suc, ◌≡◌, ◌∙◌, Option-cases, some, inl, inr, Post, Post-bind, Poll-cases, Result-cases,
}
use picoquic_rs.World
use picoquic_rs.World.{World}
use picoquic_rs.Swappable
use picoquic_rs.Swappable.{SwappableStream, poll_loop}
use picoquic_rs.Stream.Types.{Context, Ext, Event, Message, Receiver}
use picoquic_rs.Stream.Types as Types
use picoquic_rs.Stream.Receive.{handle_data, reset_context}
use picoquic_rs.Stream.SendData.{poll_receiver, drop_receiver}
use picoquic_rs.Stream.Drive.{
  handle_callback, swap_receiver, poll, poll_control_msg, poll_send_data,
}
use picoquic_rs.Stream.Drops.{
  reset_context-keeps, recv_message_dropped-keeps, swap_receiver-keeps,
  handle_send_data_dropped-keeps,
}
use picoquic_rs.Stream.Aside.{
  Aside, Aside-Drops, Aside-Supplies, handle_data-keeps, handle_event-keeps,
}
use picoquic_rs.Stream.Supplies.{handle_send_data-keeps, swappable_poll-keeps}

module _ {Sys : Type 0} (ext : Ext Sys) {A : Type 0} (seen : Sys → A) (a : Aside ext seen) where
  module _ (v : A) where
    pub handle_callback-keeps :
        (fuel ptr size : ℕ) (e : Event) (ctx : Context) (w : World Sys)
        → seen w.sys ≡ v
        → Post (λ x. seen x.1.sys ≡ v) (handle_callback ext fuel ptr size e ctx w)
    unfolding handle_callback
    handle_callback-keeps fuel ptr size Types.prepare_to_send ctx w h =
        handle_send_data-keeps ext seen (Aside-Supplies ext seen a) v fuel ptr size ctx w h
    handle_callback-keeps fuel ptr size e ctx w h =
        let bytes = ext.slice ptr size w.sys in
        let (ctx', w') = handle_data ext ctx bytes w in
        handle_event-keeps ext seen a ctx' e w' ∙ handle_data-keeps ext seen a ctx bytes w ∙ h

    poll_control_msg-keeps :
        (fuel : ℕ) (ctx : Context) (w : World Sys)
        → seen w.sys ≡ v
        → Post (λ x. seen x.2.sys ≡ v) (poll_control_msg ext fuel ctx w)
    unfolding poll_control_msg
    poll_control_msg-keeps zero ctx w h = tt
    poll_control_msg-keeps (suc fuel) ctx w h =
        let (r, s) = ext.msgs.poll ctx.control_msg w.sys in
        let w' : World Sys = record w { sys = s } in
        let same = a.apart.poll_message ctx.control_msg w.sys ∙ h in
        elim (Poll-cases r) [
          | inl (Types.reset, got) ↦
              let (ctx', w'') = reset_context ext ctx w' in
              rw (got, poll_control_msg)
                (poll_control_msg-keeps fuel ctx' w''
                  (reset_context-keeps ext seen (Aside-Drops ext seen a) ctx w' ∙ same))
          | inl (Types.swap_send_data b old, got) ↦
              let (ctx', w'') = swap_receiver ext ctx b old.sender w' in
              rw (got, poll_control_msg)
                (poll_control_msg-keeps fuel ctx' w'' (
                  swap_receiver-keeps ext seen (Aside-Drops ext seen a) ctx b old.sender w' ∙ same))
          | inl (Types.close, got) ↦ rw (got, poll_control_msg) tt
          | inl (Types.recv_data b, got) ↦ rw (got, poll_control_msg) tt
          | inl (Types.error e, got) ↦ rw (got, poll_control_msg) tt
          | inr (inl (e, got)) ↦ rw (got, poll_control_msg) same
          | inr (inr (inl got)) ↦ rw (got, poll_control_msg) same
          | inr (inr (inr got)) ↦
              rw (got, poll_control_msg)
                (recv_message_dropped-keeps ext seen (Aside-Drops ext seen a) ctx w' ∙ same)
        ]

    poll_send_data-keeps :
        (ctx : Context) (w : World Sys)
        → seen w.sys ≡ v
        → Post (λ x. seen x.2.sys ≡ v) (poll_send_data ext ctx w)
    unfolding poll_send_data
    poll_send_data-keeps ctx w h = elim (Option-cases ctx.active_buffer) [
      | inr (b, e) ↦ rw (e, poll_send_data) h
      | inl e ↦ elim (Option-cases ctx.send_data) [
        | inl n ↦ rw (e, n, poll_send_data) h
        | inr (b, n) ↦
            rw (e, n, poll_send_data)
              (Post-bind (λ x. seen x.2.sys ≡ v) _
                (Swappable.poll (poll_receiver ext) (drop_receiver ext) b w) _
                (swappable_poll-keeps ext seen (Aside-Supplies ext seen a) v b w h)
                (λ x k.
                  let ctx' = record ctx { send_data = some x.1 } in
                  elim (Poll-cases x.0) [
                    | inl (y, got) ↦
                        rw got
                          (a.apart.called (World.mark_active_stream ctx.cnx ctx.id 1) x.2.sys ∙ k)
                    | inr (inl (e, got)) ↦ rw got k
                    | inr (inr (inl got)) ↦ rw got k
                    | inr (inr (inr got)) ↦ rw got (
                        handle_send_data_dropped-keeps ext seen (Aside-Drops ext seen a) ctx' x.2
                        ∙ k)
                  ]))
      ]
    ]

    pub poll-keeps :
        (fuel : ℕ) (ctx : Context) (w : World Sys)
        → seen w.sys ≡ v
        → Post (λ x. seen x.2.sys ≡ v) (poll ext fuel ctx w)
    unfolding poll
    poll-keeps fuel ctx w h =
        Post-bind (λ x. seen x.2.sys ≡ v) _ (poll_control_msg ext fuel ctx w) _
          (poll_control_msg-keeps fuel ctx w h)
          (λ x k. elim (Result-cases x.0) [
            | inr (e, got) ↦ rw got k
            | inl (u, got) ↦ rw got (
                Post-bind (λ y. seen y.2.sys ≡ v) _ (poll_send_data ext x.1 x.2) _
                  (poll_send_data-keeps x.1 x.2 k)
                  (λ y l. elim (Result-cases y.0) [
                    | inr (e, got') ↦ rw got' l
                    | inl (u', got') ↦ rw got' l
                  ]))
          ])

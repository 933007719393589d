-- ===== src/Stream/Returns.antt =====
-- src/stream.rs: the future of a stream's context returns.
use picoquic_rs.Base.{
  ℕ, ◌<◌, ◌≡◌, refl, ap, ◌∙◌, arith, inl, inr, Option-cases, Poll-cases, [], length, Option, none,
  some, Result, ok, ready, not_ready, Poll, Exec, done, ◌>>=◌, if◌then◌else◌, ◌&&◌,
}
use picoquic_rs.Errors.{Error, Bytes}
use picoquic_rs.World
use picoquic_rs.World.{World, on_sys, perform}
use picoquic_rs.Swappable
use picoquic_rs.Swappable.{SwappableStream}
use picoquic_rs.Swappable.Laws.{settle, settle-keeps, settle-ok, poll-settle}
use picoquic_rs.Stream.Types.{Context, Ext, Receiver}
use picoquic_rs.Stream.Receive.{drop_swappable}
use picoquic_rs.Stream.SendData.{poll_receiver, drop_receiver}
use picoquic_rs.Stream.Drive.{
  handle_send_data_dropped, poll_send_data, poll, sent_or_dropped, finished,
}
use picoquic_rs.Stream.Drops.{handle_send_data_dropped-keeps}
use picoquic_rs.Stream.Controls.{
  AreControls, Controlled, AllBesides, channels_of, reset_context-channels,
  poll_control_msg-returns,
}

module _ {Sys : Type 0} (ext : Ext Sys) where
  -- Where no buffer is active and the stream still sends, its swappable stream is polled.
  poll_send_data-polled :
      (ctx : Context) (s : SwappableStream Receiver) (w : World Sys)
      (out : Poll (Option Bytes) Error × SwappableStream Receiver × World Sys)
      → ctx.active_buffer ≡ none
      → ctx.send_data ≡ some s
      → Swappable.poll (poll_receiver ext) (drop_receiver ext) s w ≡ done out
      → poll_send_data ext ctx w
        ≡ done (sent_or_dropped ext (record ctx { send_data = some out.1 }) out.2 out.0)
  unfolding poll_send_data
  poll_send_data-polled ctx s w out e n polled =
      let after : Poll (Option Bytes) Error × SwappableStream Receiver × World Sys
          → Exec (Result (Unit {0}) Error × Context × World Sys) =
        λ x. done (sent_or_dropped ext (record ctx { send_data = some x.1 }) x.2 x.0) in
      let run : Option Bytes
          → Option (SwappableStream Receiver)
          → Exec (Result (Unit {0}) Error × Context × World Sys) =
        λ a b. elim a [
          | some buf ↦ done (ok tt, ctx, w)
          | none ↦ elim b [
            | none ↦ done (ok tt, ctx, w)
            | some recv ↦ Swappable.poll (poll_receiver ext) (drop_receiver ext) recv w >>= after
          ]
        ] in
      ap (λ a. run a ctx.send_data) e ∙ ap (run none) n ∙ ap (λ m. m >>= after) polled

  handle_send_data_dropped-channels :
      (ctx : Context) (w : World Sys)
      → channels_of (handle_send_data_dropped ext ctx w).0 ≡ channels_of ctx
  unfolding handle_send_data_dropped
  handle_send_data_dropped-channels ctx w = elim (Option-cases ctx.send_data) [
    | inl e ↦ ground (arith, reset_context-channels ext (record ctx { send_data = none }) w)
    | inr (b, e) ↦ ground (
      arith,
      reset_context-channels ext (record ctx { send_data = none }) (drop_swappable ext b w),
    )
  ]

  module _ (c : ℕ) (k : Controlled ext c) where
    poll_send_data-returns :
        (ctx : Context) (w : World Sys)
        → (ctx' : Context) × (w' : World Sys) × (poll_send_data ext ctx w ≡ done (ok tt, ctx', w'))
          × (k.controls w'.sys ≡ k.controls w.sys)
          × (channels_of ctx' ≡ channels_of ctx)
          × AllBesides ext c w w'
    unfolding poll_send_data
    poll_send_data-returns ctx w = elim (Option-cases ctx.active_buffer) [
      | inr (b, e) ↦ (ctx, w, ground (arith, e), refl, refl, λ A view b. refl)
      | inl e ↦ elim (Option-cases ctx.send_data) [
        | inl n ↦ (ctx, w, ground (arith, e, n), refl, refl, λ A view b. refl)
        | inr (s, n) ↦
            let (r, v) = poll_receiver ext s.active_stream w in
            let out =
              settle (poll_receiver ext) (drop_receiver ext) r s.active_stream s.swap_to v in
            let kept =
              settle-keeps (poll_receiver ext) (drop_receiver ext) (λ u. k.controls u.sys) k.polls
                (λ t u. k.drops.drops_receiver t.receiver u.sys) s.active_stream s.swap_to w in
            let alone : AllBesides ext c w out.2 = λ A view b.
              settle-keeps (poll_receiver ext) (drop_receiver ext) (λ u. view u.sys) b.bytes
                (λ t u. b.ends.drops_receiver t.receiver u.sys) s.active_stream s.swap_to w in
            let ctx₁ : Context = record ctx { send_data = some out.1 } in
            let step =
              poll_send_data-polled ctx s w out e n
                (poll-settle (poll_receiver ext) (drop_receiver ext) s w) in
            elim (Poll-cases out.0) [
              | inl (y, got) ↦
                  let call = World.mark_active_stream ctx.cnx ctx.id 1 in
                  (
                    record ctx₁ { active_buffer = some y },
                    perform ext.call call out.2,
                    step ∙ ap (λ r. done (sent_or_dropped ext ctx₁ out.2 r)) got,
                    k.drops.calls call out.2.sys ∙ kept,
                    refl,
                    λ A view b. b.ends.calls call out.2.sys ∙ alone A view b,
                  )
              | inr (inl (x, got)) ↦ absurd (
                  settle-ok (poll_receiver ext) (drop_receiver ext) k.no_error s.active_stream
                    s.swap_to w x got)
              | inr (inr (inl got)) ↦ (
                ctx₁,
                out.2,
                step ∙ ap (λ r. done (sent_or_dropped ext ctx₁ out.2 r)) got,
                kept,
                refl,
                alone,
              )
              | inr (inr (inr got)) ↦
                  let (ctx', w') = handle_send_data_dropped ext ctx₁ out.2 in
                  (
                    ctx',
                    w',
                    step ∙ ap (λ r. done (sent_or_dropped ext ctx₁ out.2 r)) got,
                    handle_send_data_dropped-keeps ext k.controls k.drops ctx₁ out.2 ∙ kept,
                    handle_send_data_dropped-channels ctx₁ out.2,
                    λ A view b.
                        handle_send_data_dropped-keeps ext view b.ends ctx₁ out.2 ∙ alone A view b,
                  )
            ]
      ]
    ]

    -- As `poll-finishes` below, with what the poll leaves alone.
    pub poll-leaves :
        (fuel : ℕ) (ctx : Context) (w : World Sys)
        → ctx.control_msg ≡ c
        → AreControls (k.controls w.sys)
        → length (k.controls w.sys) < fuel
        → (ctx' : Context) × (w' : World Sys) × (poll ext fuel ctx w
            ≡ done (finished ext ctx', ctx', w'))
          × (k.controls w'.sys ≡ [])
          × (channels_of ctx' ≡ channels_of ctx)
          × AllBesides ext c w w'
    unfolding poll
    poll-leaves fuel ctx w n t h =
        let (a, ctx₁, w₁, run, over, recv, alone) =
          poll_control_msg-returns ext c k (k.controls w.sys) fuel ctx w n refl t h in
        let (ctx', w', sent, same, recv', alone') = poll_send_data-returns ctx₁ w₁ in
        (
          ctx',
          w',
          rw (run, poll, sent) refl,
          same ∙ over,
          recv' ∙ recv,
          λ A view b. alone' A view b ∙ alone A view b,
        )

    -- Where the control messages of a context are a queue that nothing else changes, with resets and
    -- swaps of the sending channel only, and the channels of bytes have no errors of their own: with
    -- fuel for more rounds than control messages wait, a poll of the context returns and does not
    -- panic, it takes all control messages, and it is ready exactly if in the new context the sending
    -- half has ended or was stopped and the receiving half has ended or was dropped; otherwise it is
    -- not ready.
    pub poll-finishes :
        (fuel : ℕ) (ctx : Context) (w : World Sys)
        → ctx.control_msg ≡ c
        → AreControls (k.controls w.sys)
        → length (k.controls w.sys) < fuel
        → (ctx' : Context) × (w' : World Sys) × (poll ext fuel ctx w
            ≡ done (
              if ctx'.stop_sending_or_fin_sent && ctx'.fin_received_or_recv_msg_dropped
                  then ok (ready tt)
                  else ok not_ready,
              ctx',
              w',
            ))
          × (k.controls w'.sys ≡ [])
    poll-finishes fuel ctx w n t h =
        let (ctx', w', run, over, recv, alone) = poll-leaves fuel ctx w n t h in
        (ctx', w', run, over)

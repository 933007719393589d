-- ===== src/Connection/Failing.antt =====
-- src/connection.rs: what an error of a connection keeps of what waits for its streams.
use picoquic_rs.Base.{
  ℕ, zero, suc, sym, subst, arith, inl, inr, Bool, List, [], err, Option-cases, Poll-cases, Post,
  Post-bind, Post-mono,
}
use picoquic_rs.Errors.{ErrorFn}
use picoquic_rs.World.{World}
use picoquic_rs.Channel
use picoquic_rs.Stream.Types.{Event, Message, almost_ready, callback_close, application_close}
use picoquic_rs.Stream.Types as StreamTypes
use picoquic_rs.Stream.Receive.{handle_connection_error}
use picoquic_rs.Ffi.Cnx as Cnx
use picoquic_rs.Connection.Types.{Context, Ext, Streams, build, insert, lookup}
use picoquic_rs.Connection.Types as Types
use picoquic_rs.Connection.Context.{each, refuse_requests, handle_error, check_and_handle_error}
use picoquic_rs.Connection.Fresh.{OwnBelow}
use picoquic_rs.Connection.Waiting.{
  Waiting, Channels, channels, All-map, Good, Good-Less, Less, Less-trans,
}
use picoquic_rs.Connection.Answering.{polled-Less}
use picoquic_rs.Connection.Telling.{each-Tells, handle_connection_error-Tells}

module _ {Sys : Type 0} (ext : Ext Sys) (k : Waiting ext) where
  refuse_requests-Less :
      (i : ℕ → Bool) (fuel : ℕ) (ctx : Context) (e : ErrorFn) (w : World Sys)
      → Post (λ v. Less ext k i w.sys v.sys) (refuse_requests ext fuel ctx e w)
  unfolding refuse_requests
  refuse_requests-Less i zero ctx e w = tt
  refuse_requests-Less i (suc fuel) ctx e w =
      let r = ctx.recv_create_stream in
      let w₁ = (Channel.poll ext.requests_stream r w).1 in
      let less = polled-Less ext k i r w in
      elim (Poll-cases (Channel.poll ext.requests_stream r w).0) [
        | inr (inl (x, got)) ↦ rw (got, refuse_requests) less
        | inr (inr (inl got)) ↦ rw (got, refuse_requests) less
        | inr (inr (inr got)) ↦ rw (got, refuse_requests) less
        | inl ((t, sender), got) ↦
            let s₂ = ext.answer_stream sender (err (e tt)) w₁.sys in
            let w₂ : World Sys = record w₁ { sys = s₂ } in
            let answered : Less ext k i w₁.sys s₂ = (
              omega (arith, k.next_rest.answers sender (err (e tt)) w₁.sys),
              λ d h. inl ((k.rest d).answers sender (err (e tt)) w₁.sys),
            ) in
            rw (got, refuse_requests)
              (Post-mono _ _ (refuse_requests ext fuel ctx e w₂)
                (λ v more.
                  Less-trans ext k i w.sys w₁.sys v.sys less
                    (Less-trans ext k i w₁.sys s₂ v.sys answered more))
                (refuse_requests-Less i fuel ctx e w₂))
      ]

  module _ (Q : List Message → Type 0) (q : Q []) (others : List Channels) where
    -- What is good stays good, with ids of ours below the next number.
    abbrev pub Sound : Context → World Sys → Type 0
    Sound ctx w = Good ext k Q (channels ctx.streams) others w.sys × OwnBelow ctx

    abbrev pub SoundAt : Context × World Sys → Type 0
    SoundAt x = Sound x.0 x.1

    handle_error-Sound :
        (fuel : ℕ) (e : ErrorFn) (ctx : Context) (w : World Sys)
        → Sound ctx w
        → Post SoundAt (handle_error ext fuel e ctx w)
    unfolding handle_error Channel.propagate_error Channel.set_error Channel.close
    handle_error-Sound fuel e ctx w (g, o) =
        let i = g.is_control in
        let f : StreamTypes.Context → World Sys → StreamTypes.Context × World Sys =
          λ s v. handle_connection_error ext.streams s e v in
        let (m, w₁) = each ext f ctx.streams w in
        let (same, all, own) =
          each-Tells ext k f ctx.streams w (handle_connection_error-Tells ext k e) in
        let less = all i (All-map _ _ (channels ctx.streams) (λ c x. x.0) g.mine) in
        let ctx₁ : Context = record ctx { streams = m } in
        let w₂ = Channel.propagate_error ctx.recv_create_stream e w₁ in
        let w₃ = Channel.close ext.requests_close ctx.recv_create_stream w₂ in
        let c = ctx.recv_create_stream.receiver in
        let closed : Less ext k i w₁.sys w₃.sys = (
          omega (arith, k.next_rest.closes_requests c w₁.sys),
          λ d h. inl ((k.rest d).closes_requests c w₁.sys),
        ) in
        Post-bind (λ v. Less ext k i w₃.sys v.sys) SoundAt (refuse_requests ext fuel ctx₁ e w₃) _
          (refuse_requests-Less i fuel ctx₁ e w₃)
          (λ w₄ refused.
            let before =
              Less-trans ext k i w.sys w₁.sys w₄.sys less
                (Less-trans ext k i w₁.sys w₃.sys w₄.sys closed refused) in
            let good : (s : Sys) → Less ext k i w₄.sys s → Good ext k Q (channels m) others s =
              λ s last.
                subst (λ l. Good ext k Q l others s) (sym same)
                  (Good-Less ext k Q q (channels ctx.streams) others w.sys s g
                    (Less-trans ext k i w.sys w₄.sys s before last)) in
            elim (Option-cases ctx.wait_for_ready_state) [
              | inr ((builder, send), there) ↦ rw there (
                good (ext.answer_connection send (err (e tt)) w₄.sys) (
                  omega (arith, k.next_rest.connects send (err (e tt)) w₄.sys),
                  λ d h. inl ((k.rest d).connects send (err (e tt)) w₄.sys),
                ),
                own ctx.is_client ctx.next_stream_id o,
              )
              | inl nobody ↦ rw nobody (
                good (ext.msgs.unbounded_send ctx.send_msg (Types.error (e tt)) w₄.sys).1 (
                  omega (arith, k.next_rest.tells ctx.send_msg (Types.error (e tt)) w₄.sys),
                  λ d h. inl ((k.rest d).tells ctx.send_msg (Types.error (e tt)) w₄.sys),
                ),
                own ctx.is_client ctx.next_stream_id o,
              )
            ])

    pub check_and_handle_error-Sound :
        (fuel : ℕ) (ctx : Context) (w : World Sys)
        → Sound ctx w
        → Post SoundAt (check_and_handle_error ext fuel ctx w)
    unfolding check_and_handle_error
    check_and_handle_error-Sound fuel ctx w h =
        elim (Option-cases (
          Cnx.error ext.is_handshake_error (ext.local_error ctx.cnx w.sys)
            (ext.remote_error ctx.cnx w.sys))) [
              | inl fine ↦ rw (fine, check_and_handle_error) h
              | inr (e, failed) ↦
                  rw (failed, check_and_handle_error) (handle_error-Sound fuel e ctx w h)
            ]

-- ===== src/Connection/Announced.antt =====
-- src/connection.rs: what picoquic's callbacks of a connection hand to the application, and which
-- streams are then served.
use picoquic_rs.Base.{
  ℕ, ◌≡◌, refl, ap, ◌∙◌, [], ◌∷◌, ◌++◌, Option-cases, inl, inr, ok, err, done, Post, Post-bind,
  Post-if, ◌==◌,
}
use picoquic_rs.Errors.{ErrorFn}
use picoquic_rs.World
use picoquic_rs.World.{World}
use picoquic_rs.Channel
use picoquic_rs.Stream.Types.{Stream, Event, almost_ready, callback_close, application_close}
use picoquic_rs.Stream.Types as StreamTypes
use picoquic_rs.Stream.Receive.{new_stream, handle_connection_close, handle_connection_error}
use picoquic_rs.Stream.Frame.{
  new_stream-keeps, handle_connection_close-keeps, handle_connection_error-keeps,
}
use picoquic_rs.Stream.Drive as Stream
use picoquic_rs.Stream.Unseen.{handle_callback-keeps}
use picoquic_rs.Ffi.Cnx as Cnx
use picoquic_rs.Connection.Types.{Context, Ext, Message, lookup, insert, build}
use picoquic_rs.Connection.Context as Ctx
use picoquic_rs.Connection.Context.{
  each, keeps, refuse_requests, handle_error, check_and_handle_error, handle_stream_callback,
  handle_callback, process_wait_for_ready_state, create_stream, check_create_stream_requests,
  retain_streams, poll_open, close_if_asked,
}
use picoquic_rs.Connection.Callback.{Shared, connection_callback, release}
use picoquic_rs.Connection.Released.{release-keeps}
use picoquic_rs.Connection.Seen.{each-keeps}
use picoquic_rs.Connection.Quiet.{refuse_requests-keeps}
use picoquic_rs.Connection.Serves.{insert-found}
use picoquic_rs.Connection.Handing.{Handing, HandsTo, Hands-trans, Hands-same, Hands-new, ids-each}

module _ {Sys : Type 0} (ext : Ext Sys) (k : Handing ext) where
  handle_stream_callback-Hands :
      (fuel id ptr size : ℕ) (e : Event) (ctx : Context) (w : World Sys)
      → Post (HandsTo ext k ctx w) (handle_stream_callback ext fuel id ptr size e ctx w)
  unfolding handle_stream_callback new_stream
  handle_stream_callback-Hands fuel id ptr size e ctx w =
      let c = k.handed w.sys in
      let aside = k.quiet.aside in
      elim (Option-cases (lookup id ctx.streams)) [
        | inr (s, got) ↦
            rw (got, handle_stream_callback)
              (Post-bind (λ x. k.handed x.1.sys ≡ c) (HandsTo ext k ctx w)
                (Stream.handle_callback ext.streams fuel ptr size e s w) _
                (handle_callback-keeps ext.streams k.handed aside c fuel ptr size e s w refl)
                (λ x l.
                  Hands-same ext k ctx.streams (insert id x.0 ctx.streams) w x.1 l
                    (insert-found id x.0 s ctx.streams got)))
        | inl got ↦
            let (both, w₁) =
              new_stream ext.streams id ctx.cnx ctx.local_addr ctx.is_client
                ctx.stream_send_channel_default_size w in
            rw (got, handle_stream_callback)
              (Post-bind (λ x. k.handed x.1.sys ≡ c) (HandsTo ext k ctx w)
                (Stream.handle_callback ext.streams fuel ptr size e both.1 w₁) _
                (handle_callback-keeps ext.streams k.handed aside c fuel ptr size e both.1 w₁ (
                  new_stream-keeps ext.streams k.handed aside.apart id ctx.cnx ctx.local_addr
                    ctx.is_client ctx.stream_send_channel_default_size w))
                (λ x l.
                  let new = Message.new_stream both.0 in
                  let v : World Sys = record x.1 {
                    sys = (ext.msgs.unbounded_send ctx.send_msg new x.1.sys).1;
                  } in
                  Hands-new ext k id x.0 ctx.streams w v got
                    (k.announces ctx.send_msg both.0 x.1.sys ∙ ap (λ h. h ++ id ∷ []) l)))
      ]

  handle_callback-Hands :
      (fuel id ptr size : ℕ) (e : Event) (ctx : Context) (w : World Sys)
      → Post (HandsTo ext k ctx w) (handle_callback ext fuel id ptr size e ctx w)
  unfolding handle_callback process_wait_for_ready_state
  handle_callback-Hands fuel id ptr size almost_ready ctx w =
      elim (Option-cases ctx.wait_for_ready_state) [
        | inl n ↦ rw (n, handle_callback) (Hands-same ext k ctx.streams ctx.streams w w refl refl)
        | inr ((b, sender), n) ↦
            rw (n, handle_callback, process_wait_for_ready_state)
              (let con = build b (ext.local_cnxid ctx.cnx w.sys) in
                Hands-same ext k ctx.streams ctx.streams w
                  (record w { sys = ext.answer_connection sender (ok con) w.sys })
                  (k.connects sender (ok con) w.sys) refl)
      ]
  handle_callback-Hands fuel id ptr size e ctx w =
      Post-if (HandsTo ext k ctx w) (id == 0) (done (ctx, w))
        (handle_stream_callback ext fuel id ptr size e ctx w)
        (Hands-same ext k ctx.streams ctx.streams w w refl refl)
        (handle_stream_callback-Hands fuel id ptr size e ctx w)

  handle_error-Hands :
      (fuel : ℕ) (e : ErrorFn) (ctx : Context) (w : World Sys)
      → Post (HandsTo ext k ctx w) (handle_error ext fuel e ctx w)
  unfolding handle_error Channel.propagate_error Channel.set_error Channel.close
  handle_error-Hands fuel e ctx w =
      let f : StreamTypes.Context → World Sys → StreamTypes.Context × World Sys =
        λ s v. handle_connection_error ext.streams s e v in
      let (m, w₁) = each ext f ctx.streams w in
      let w₂ = Channel.propagate_error ctx.recv_create_stream e w₁ in
      let w₃ = Channel.close ext.requests_close ctx.recv_create_stream w₂ in
      let c = k.handed w.sys in
      let kept : k.handed w₃.sys ≡ c =
        k.quiet.closes ctx.recv_create_stream.receiver w₁.sys
        ∙ each-keeps ext k.handed f
            (handle_connection_error-keeps ext.streams k.handed k.quiet.aside.apart e) ctx.streams
            w in
      Post-bind (λ v. k.handed v.sys ≡ c) (HandsTo ext k ctx w)
        (refuse_requests ext fuel (record ctx { streams = m }) e w₃) _
        (refuse_requests-keeps ext k.handed k.quiet c fuel (record ctx { streams = m }) e w₃ kept)
        (λ v h. elim (Option-cases ctx.wait_for_ready_state) [
          | inl n ↦ rw n (
              Hands-same ext k ctx.streams m w
                (record v {
                  sys = (ext.msgs.unbounded_send ctx.send_msg (Message.error (e tt)) v.sys).1;
                })
                (k.tells_error ctx.send_msg (e tt) v.sys ∙ h) (ids-each ext f ctx.streams w))
          | inr ((b, sender), n) ↦ rw n (
              Hands-same ext k ctx.streams m w
                (record v { sys = ext.answer_connection sender (err (e tt)) v.sys })
                (k.connects sender (err (e tt)) v.sys ∙ h) (ids-each ext f ctx.streams w))
        ])

  check_and_handle_error-Hands :
      (fuel : ℕ) (ctx : Context) (w : World Sys)
      → Post (HandsTo ext k ctx w) (check_and_handle_error ext fuel ctx w)
  unfolding check_and_handle_error
  check_and_handle_error-Hands fuel ctx w =
      elim (Option-cases (
        Cnx.error ext.is_handshake_error (ext.local_error ctx.cnx w.sys)
          (ext.remote_error ctx.cnx w.sys))) [
            | inl n ↦
                rw (n, check_and_handle_error)
                  (Hands-same ext k ctx.streams ctx.streams w w refl refl)
            | inr (e, n) ↦ rw (n, check_and_handle_error) (handle_error-Hands fuel e ctx w)
          ]

  pub close-Hands : (ctx : Context) (w : World Sys) → HandsTo ext k ctx w (Ctx.close ext ctx w)
  unfolding Ctx.close
  close-Hands ctx w =
      let call = World.close_cnx ctx.cnx 0 in
      let w₁ : World Sys = record w { sys = ext.streams.call call w.sys; calls = call ∷ w.calls } in
      let f = handle_connection_close ext.streams in
      let (m, w₂) = each ext f ctx.streams w₁ in
      let w₃ : World Sys = record w₂ {
        sys = (ext.msgs.unbounded_send ctx.send_msg Message.close w₂.sys).1;
      } in
      Hands-same ext k ctx.streams m w w₃
        (k.tells_close ctx.send_msg w₂.sys
          ∙ each-keeps ext k.handed f
              (handle_connection_close-keeps ext.streams k.handed k.quiet.aside.apart) ctx.streams
              w₁
          ∙ k.quiet.aside.apart.called call w.sys)
        (ids-each ext f ctx.streams w₁)

  -- `connection_callback` for the end of the connection.
  ending-Hands :
      (fuel : ℕ) (s : Shared) (w : World Sys)
      → Post
          (λ x. HandsTo ext k s.context w (x.0.context, x.1))
          (connection_callback ext fuel 0 0 0 callback_close s w)
  unfolding connection_callback release
  ending-Hands fuel s w =
      Post-bind (HandsTo ext k s.context w) (λ x. HandsTo ext k s.context w (x.0.context, x.1))
        (check_and_handle_error ext fuel s.context w) _
        (check_and_handle_error-Hands fuel s.context w)
        (λ x h.
          let (ctx₂, w₂) = Ctx.close ext x.0 x.1 in
          let t : Shared = record { context = ctx₂; strong = s.strong } in
          let w₃ = (release ext t w₂).1 in
          let m = ctx₂.streams in
          Hands-trans ext k s.context.streams m m w w₂ w₃
            (Hands-trans ext k s.context.streams x.0.streams m w x.1 w₂ h (close-Hands x.0 x.1))
            (Hands-same ext k m m w₂ w₃ (release-keeps ext k.handed k.quiet.aside t w₂) refl))

  pub connection_callback-Hands :
      (fuel id ptr size : ℕ) (e : Event) (s : Shared) (w : World Sys)
      → Post
          (λ x. HandsTo ext k s.context w (x.0.context, x.1))
          (connection_callback ext fuel id ptr size e s w)
  unfolding connection_callback
  connection_callback-Hands fuel id ptr size callback_close s w = ending-Hands fuel s w
  connection_callback-Hands fuel id ptr size application_close s w = ending-Hands fuel s w
  connection_callback-Hands fuel id ptr size e s w =
      Post-bind (HandsTo ext k s.context w) (λ x. HandsTo ext k s.context w (x.0.context, x.1))
        (handle_callback ext fuel id ptr size e s.context w) _
        (handle_callback-Hands fuel id ptr size e s.context w) (λ x h. h)

-- ===== src/Connection/Lasts.antt =====
-- src/connection.rs: what picoquic's callbacks for a connection keep of what waits for its streams.
use picoquic_rs.Base.{
  ℕ, ◌≤◌, ◌/◌, ◌≡◌, sym, ap, subst, ◌∙◌, arith, inl, inr, List, [], ◌∷◌, ◌++◌, ok, Option-cases,
  ◌==◌, is_some, done, ◌>>=◌, Post, Post-bind, Post-if,
}
use picoquic_rs.World.{World}
use picoquic_rs.Stream.Id.{is_client_initiated}
use picoquic_rs.Stream.Types.{Event, Message, almost_ready, callback_close, application_close}
use picoquic_rs.Stream.Receive.{new_stream}
use picoquic_rs.Stream.Drive as Stream
use picoquic_rs.Stream.Controls.{channels_of}
use picoquic_rs.Connection.Types.{Context, Ext, Streams, build, insert, lookup}
use picoquic_rs.Connection.Types as Types
use picoquic_rs.Connection.Context.{
  check_and_handle_error, handle_stream_callback, process_wait_for_ready_state, handle_callback,
  close,
}
use picoquic_rs.Connection.Callback.{Shared, connection_callback, release}
use picoquic_rs.Connection.Released.{release-Less}
use picoquic_rs.Connection.Fresh.{insert-Own}
use picoquic_rs.Connection.Waiting.{
  Waiting, Channels, channels, All-map, Good, Good-Less, Less, Less-trans,
}
use picoquic_rs.Connection.Newcomers.{channels-new, channels-found, new_stream-Good}
use picoquic_rs.Connection.Called.{Steady, stream_callback-Steady, lookup-All, All-last}
use picoquic_rs.Connection.Returns.{close-Less, close-Good}
use picoquic_rs.Connection.Failing.{Sound, SoundAt, check_and_handle_error-Sound}

-- An event for a stream: one of ours has a number that was given.
abbrev pub Known : ℕ → Context → Type 0
Known id ctx = is_client_initiated id ≡ ctx.is_client → id / 4 ≤ ctx.next_stream_id

module _ {Sys : Type 0} (ext : Ext Sys) (k : Waiting ext) (Q : List Message → Type 0) (q : Q [])
    (others : List Channels) where
  handle_stream_callback-Sound :
      (fuel id ptr size : ℕ) (e : Event) (ctx : Context) (w : World Sys)
      → Known id ctx
      → Sound ext k Q q others ctx w
      → Post (SoundAt ext k Q q others) (handle_stream_callback ext fuel id ptr size e ctx w)
  unfolding handle_stream_callback
  handle_stream_callback-Sound fuel id ptr size e ctx w known (g, o) =
      elim (Option-cases (lookup id ctx.streams)) [
        | inr (s, there) ↦
            let i = g.is_control in
            let fine = lookup-All _ id s ctx.streams there g.mine in
            rw (there, handle_stream_callback)
              (Post-bind (Steady ext k i s w) (SoundAt ext k Q q others)
                (Stream.handle_callback ext.streams fuel ptr size e s w) _
                (stream_callback-Steady ext k i fuel ptr size e s w fine.0)
                (λ x (same, less). (
                  subst (λ l. Good ext k Q l others x.1.sys)
                      (sym (channels-found id x.0 s ctx.streams there same))
                      (Good-Less ext k Q q (channels ctx.streams) others w.sys x.1.sys g less),
                  insert-Own ctx.is_client ctx.next_stream_id id x.0 ctx.streams known o,
                )))
        | inl free ↦
            let made =
              new_stream ext.streams id ctx.cnx ctx.local_addr ctx.is_client
                ctx.stream_send_channel_default_size w in
            let s = made.0.1 in
            let w₁ = made.1 in
            let l = channels ctx.streams ++ channels_of s ∷ [] in
            let g₁ =
              new_stream-Good ext k Q q (channels ctx.streams) others id ctx.cnx ctx.local_addr
                ctx.is_client ctx.stream_send_channel_default_size w g in
            let i = g₁.is_control in
            let fine = All-last _ (channels ctx.streams) (channels_of s) g₁.mine in
            rw (free, handle_stream_callback)
              (Post-bind (Steady ext k i s w₁) (SoundAt ext k Q q others)
                (Stream.handle_callback ext.streams fuel ptr size e s w₁) _
                (stream_callback-Steady ext k i fuel ptr size e s w₁ fine.0)
                (λ x (same, less).
                  let m = Types.new_stream made.0.0 in
                  let s₂ = (ext.msgs.unbounded_send ctx.send_msg m x.1.sys).1 in
                  let told : Less ext k i x.1.sys s₂ = (
                    omega (arith, k.next_rest.tells ctx.send_msg m x.1.sys),
                    λ d h. inl ((k.rest d).tells ctx.send_msg m x.1.sys),
                  ) in
                  let entry =
                    channels-new id x.0 ctx.streams free
                    ∙ ap (λ c. channels ctx.streams ++ c ∷ []) same in
                  (
                    subst (λ l. Good ext k Q l others s₂) (sym entry)
                        (Good-Less ext k Q q l others w₁.sys s₂ g₁
                          (Less-trans ext k i w₁.sys x.1.sys s₂ less told)),
                    insert-Own ctx.is_client ctx.next_stream_id id x.0 ctx.streams known o,
                  )))
      ]

  process_wait_for_ready_state-Sound :
      (ctx : Context) (w : World Sys)
      → Sound ext k Q q others ctx w
      → Post (SoundAt ext k Q q others) (process_wait_for_ready_state ext ctx w)
  unfolding process_wait_for_ready_state
  process_wait_for_ready_state-Sound ctx w (g, o) = elim (Option-cases ctx.wait_for_ready_state) [
    | inl e ↦ rw (e, process_wait_for_ready_state) tt
    | inr ((b, sender), e) ↦
        let r = ok (build b (ext.local_cnxid ctx.cnx w.sys)) in
        rw (e, process_wait_for_ready_state)
          (
            Good-Less ext k Q q (channels ctx.streams) others w.sys
                (ext.answer_connection sender r w.sys) g
                (
                  omega (arith, k.next_rest.connects sender r w.sys),
                  λ d h. inl ((k.rest d).connects sender r w.sys),
                ),
            o,
          )
  ]

  handle_callback-Sound :
      (fuel id ptr size : ℕ) (e : Event) (ctx : Context) (w : World Sys)
      → Known id ctx
      → Sound ext k Q q others ctx w
      → Post (SoundAt ext k Q q others) (handle_callback ext fuel id ptr size e ctx w)
  unfolding handle_callback
  handle_callback-Sound fuel id ptr size almost_ready ctx w known h =
      Post-if (SoundAt ext k Q q others) (is_some ctx.wait_for_ready_state) _ _
        (process_wait_for_ready_state-Sound ctx w h) h
  handle_callback-Sound fuel id ptr size e ctx w known h =
      Post-if (SoundAt ext k Q q others) (id == 0) _ _ h
        (handle_stream_callback-Sound fuel id ptr size e ctx w known h)

  close-Sound :
      (ctx : Context) (w : World Sys)
      → Sound ext k Q q others ctx w
      → let (ctx', w') = close ext ctx w in Sound ext k Q q others ctx' w'
  close-Sound ctx w (g, o) = (close-Good ext k Q q others ctx w g, (close-Less ext k ctx w).2 o)

  pub release-Sound :
      (s : Shared) (w : World Sys)
      → Sound ext k Q q others s.context w
      → let (s', w') = release ext s w in Sound ext k Q q others s'.context w'
  unfolding release
  release-Sound s w (g, o) =
      let l = channels s.context.streams in
      (
        Good-Less ext k Q q l others w.sys (release ext s w).1.sys g
            (release-Less ext k g.is_control s w (All-map _ _ l (λ c x. x.0) g.mine)),
        o,
      )

  ending-Sound :
      (fuel : ℕ) (s : Shared) (w : World Sys)
      → Sound ext k Q q others s.context w
      → Post {A = Shared × World Sys}
          (λ x. Sound ext k Q q others x.0.context x.1)
          (check_and_handle_error ext fuel s.context w >>= λ (c, v).
            let (c', v') = close ext c v in
            done (release ext (record { context = c'; strong = s.strong }) v'))
  ending-Sound fuel s w h =
      Post-bind (SoundAt ext k Q q others) _ (check_and_handle_error ext fuel s.context w) _
        (check_and_handle_error-Sound ext k Q q others fuel s.context w h)
        (λ x l.
          let (c, v) = close ext x.0 x.1 in
          release-Sound (record { context = c; strong = s.strong }) v (close-Sound x.0 x.1 l))

  pub connection_callback-Sound :
      (fuel id ptr size : ℕ) (e : Event) (s : Shared) (w : World Sys)
      → Known id s.context
      → Sound ext k Q q others s.context w
      → Post
          (λ x. Sound ext k Q q others x.0.context x.1)
          (connection_callback ext fuel id ptr size e s w)
  unfolding connection_callback
  connection_callback-Sound fuel id ptr size callback_close s w known h = ending-Sound fuel s w h
  connection_callback-Sound fuel id ptr size application_close s w known h = ending-Sound fuel s w h
  connection_callback-Sound fuel id ptr size e s w known h =
      Post-bind (SoundAt ext k Q q others) _ (handle_callback ext fuel id ptr size e s.context w) _
        (handle_callback-Sound fuel id ptr size e s.context w known h) (λ x l. l)

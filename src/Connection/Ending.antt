-- ===== src/Connection/Ending.antt =====
-- src/connection.rs: how a connection ends, and what it leaves.
use picoquic_rs.Base.{
  ℕ, ◌-◌, ◌<◌, ◌≡◌, refl, ap, ◌∙◌, Bool, true, false, ◌∷◌, length, Option, none, some, err, ready,
  done, arith,
}
use picoquic_rs.Errors.{ErrorFn}
use picoquic_rs.World
use picoquic_rs.World.{World}
use picoquic_rs.Channel
use picoquic_rs.Stream.Types.{Stream, Event, callback_close, application_close}
use picoquic_rs.Stream.Types as StreamTypes
use picoquic_rs.Stream.Receive.{handle_connection_error, handle_connection_close}
use picoquic_rs.Stream.Frame.{handle_connection_close-keeps, handle_connection_error-keeps}
use picoquic_rs.Ffi.Cnx as Cnx
use picoquic_rs.Connection.Types.{ConnectionBuilder, Context, Ext, Streams, close, error}
use picoquic_rs.Connection.Context as Ctx
use picoquic_rs.Connection.Context.{each, refuse_requests, handle_error, check_and_handle_error}
use picoquic_rs.Connection.Callback.{Shared, connection_callback, release}
use picoquic_rs.Connection.Released.{release-keeps}
use picoquic_rs.Connection.Seen.{Outside, ended, fail, refuse, tell, each-keeps, refuse-all}

abbrev pub ends : Event → Bool
ends callback_close = true
ends application_close = true
ends _ = false

module _ {Sys : Type 0} (ext : Ext Sys) where
  module _ (ctx : Context) (o : Outside ext ctx) where
    close-seen :
        (m : Streams) (wait : Option (ConnectionBuilder × ℕ)) (w : World Sys)
        → let (ctx', w') =
            Ctx.close ext (record ctx { streams = m; wait_for_ready_state = wait }) w in
          (ctx'.closed ≡ true) × (o.seen w'.sys ≡ tell close (o.seen w.sys))
    unfolding Ctx.close
    close-seen m wait w =
        let w₁ : World Sys = record w {
          sys = ext.streams.call (World.close_cnx ctx.cnx 0) w.sys;
        } in
        let w₂ : World Sys = record w₁ { calls = World.close_cnx ctx.cnx 0 ∷ w₁.calls } in
        let f = handle_connection_close ext.streams in
        (
          refl,
          o.tells close (each ext f m w₂).1.sys
              ∙ ap (tell close) (
                  each-keeps ext o.seen f
                    (handle_connection_close-keeps ext.streams o.seen o.aside.apart) m w₂
                  ∙ o.aside.apart.called (World.close_cnx ctx.cnx 0) w.sys),
        )

    abbrev failed : ErrorFn → Option (ConnectionBuilder × ℕ) → World Sys → World Sys
    failed e none w = record w {
      sys = (ext.msgs.unbounded_send ctx.send_msg (error (e tt)) w.sys).1;
    }
    failed e (some (b, send)) w = record w { sys = ext.answer_connection send (err (e tt)) w.sys }

    failed-elim :
        (e : ErrorFn) (wait : Option (ConnectionBuilder × ℕ)) (w : World Sys)
        → (elim wait as (λ x. World Sys) [
          | some x ↦ record w { sys = ext.answer_connection x.1 (err (e tt)) w.sys }
          | none ↦ record w { sys = (ext.msgs.unbounded_send ctx.send_msg (error (e tt)) w.sys).1 }
        ])
          ≡ failed e wait w
    failed-elim e none w = refl
    failed-elim e (some x) w = refl

    failed-seen :
        (e : ErrorFn) (wait : Option (ConnectionBuilder × ℕ)) (w : World Sys)
        → o.seen (failed e wait w).sys ≡ fail e wait (o.seen w.sys)
    failed-seen e none w = o.tells (error (e tt)) w.sys
    failed-seen e (some (b, send)) w = o.connects send (err (e tt)) w.sys

    handle_error-seen :
        (fuel : ℕ) (e : ErrorFn) (w : World Sys)
        → length (o.seen w.sys).waiting < fuel
        → (m : Streams) × (w' : World Sys) × (handle_error ext fuel e ctx w
            ≡ done (record ctx { streams = m; wait_for_ready_state = none }, w'))
          × (o.seen w'.sys ≡ fail e ctx.wait_for_ready_state (refuse e (o.seen w.sys)))
    unfolding handle_error Channel.propagate_error Channel.set_error Channel.close
    handle_error-seen fuel e w k =
        let f : StreamTypes.Context → World Sys → StreamTypes.Context × World Sys =
          λ s v. handle_connection_error ext.streams s e v in
        let (m, w₁) = each ext f ctx.streams w in
        let w₂ = Channel.propagate_error ctx.recv_create_stream e w₁ in
        let w₃ = Channel.close ext.requests_close ctx.recv_create_stream w₂ in
        let kept : o.seen w₃.sys ≡ o.seen w.sys =
          o.closes w₁.sys
          ∙ each-keeps ext o.seen f
              (handle_connection_error-keeps ext.streams o.seen o.aside.apart e) ctx.streams w in
        let (w₄, run, all) =
          refuse-all ext ctx o (o.seen w₃.sys).waiting fuel e m w₃ refl
            (rw (ap (λ v. length v.waiting) kept) k) in
        (
          m,
          failed e ctx.wait_for_ready_state w₄,
          rw (handle_error, run)
              (ap (λ v. done (record ctx { streams = m; wait_for_ready_state = none }, v))
                (failed-elim e ctx.wait_for_ready_state w₄)),
          failed-seen e ctx.wait_for_ready_state w₄
              ∙ ap (fail e ctx.wait_for_ready_state) (all ∙ ap (refuse e) kept),
        )

    checked-and-closed :
        (fuel : ℕ) (failure : Option ErrorFn) (w : World Sys)
        → Cnx.error ext.is_handshake_error
            (ext.local_error ctx.cnx w.sys)
            (ext.remote_error ctx.cnx w.sys)
          ≡ failure
        → length (o.seen w.sys).waiting < fuel
        → (ctx₁ : Context) × (w₁ : World Sys) × (check_and_handle_error ext fuel ctx w
            ≡ done (ctx₁, w₁))
          × ((Ctx.close ext ctx₁ w₁).0.closed ≡ true)
          × (o.seen (Ctx.close ext ctx₁ w₁).1.sys ≡ ended failure ctx (o.seen w.sys))
    unfolding check_and_handle_error
    checked-and-closed fuel none w h k =
        let (shut, all) = close-seen ctx.streams ctx.wait_for_ready_state w in
        (ctx, w, rw (h, check_and_handle_error) refl, shut, all)
    checked-and-closed fuel (some e) w h k =
        let (m, w₁, run, all) = handle_error-seen fuel e w k in
        let (shut, told) = close-seen m none w₁ in
        (
          record ctx { streams = m; wait_for_ready_state = none },
          w₁,
          rw (h, check_and_handle_error) run,
          shut,
          told ∙ ap (tell close) all,
        )

    -- From `s` and `w` to `s'` and `w'` by a callback that ends the connection.
    pub record Closed (s : Shared) (w : World Sys) (s' : Shared) (w' : World Sys) : Type 0 where
      pub closed : s'.context.closed ≡ true
      pub released : s'.strong ≡ s.strong - 1
      pub left :
          let failure =
            Cnx.error ext.is_handshake_error
              (ext.local_error ctx.cnx w.sys)
              (ext.remote_error ctx.cnx w.sys) in
          o.seen w'.sys ≡ ended failure ctx (o.seen w.sys)
      pub polled :
          (fuel : ℕ) (v : World Sys)
          → Ctx.poll ext fuel s'.context v ≡ done (ready tt, s'.context, v)

    closed-poll :
        (c : Context)
        → c.closed ≡ true
        → (fuel : ℕ) (v : World Sys) → Ctx.poll ext fuel c v ≡ done (ready tt, c, v)
    unfolding Ctx.poll
    closed-poll c h fuel v = rw (h, Ctx.poll) refl

  callback_close-Closed :
      (fuel id ptr length' : ℕ) (s : Shared) (w : World Sys) (o : Outside ext s.context)
      → length (o.seen w.sys).waiting < fuel
      → (s' : Shared) × (w' : World Sys) × (connection_callback ext fuel id ptr length'
            callback_close s w
          ≡ done (s', w'))
        × Closed s.context o s w s' w'
  unfolding connection_callback release
  callback_close-Closed fuel id ptr n s w o k =
      let (ctx₁, w₁, run, shut, left) = checked-and-closed s.context o fuel _ w refl k in
      let (ctx₂, w₂) = Ctx.close ext ctx₁ w₁ in
      let t : Shared = record { context = ctx₂; strong = s.strong } in
      (
        (release ext t w₂).0,
        (release ext t w₂).1,
        rw run refl,
        record {
          closed = shut;
          released = refl;
          left = release-keeps ext o.seen o.aside t w₂ ∙ left;
          polled = closed-poll s.context o ctx₂ shut;
        },
      )

  -- Where the channels are queues and the fuel exceeds the requests for streams that wait, a callback
  -- with the end of the connection returns. The connection is closed, gives up picoquic's reference
  -- to it and is ready whenever it is polled; the application is told of the close, and that last. If
  -- picoquic has an error for the connection, then before that every request for a stream is refused
  -- with it, in order and once, and who waits for the connection is answered with it or, if nobody
  -- does, the application is told of it. Without an error nothing else is answered.
  pub connection_callback-Closed :
      (fuel id ptr length' : ℕ) (event : Event) (s : Shared) (w : World Sys)
      (o : Outside ext s.context)
      → ends event ≡ true
      → length (o.seen w.sys).waiting < fuel
      → (s' : Shared) × (w' : World Sys) × (connection_callback ext fuel id ptr length' event s w
          ≡ done (s', w'))
        × Closed s.context o s w s' w'
  unfolding connection_callback
  connection_callback-Closed fuel id ptr n callback_close s w o h k =
      callback_close-Closed fuel id ptr n s w o k
  connection_callback-Closed fuel id ptr n application_close s w o h k =
      callback_close-Closed fuel id ptr n s w o k
  connection_callback-Closed fuel id ptr n _ s w o h k = ground arith

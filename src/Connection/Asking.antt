-- ===== src/Connection/Asking.antt =====
-- src/connection.rs: what leaves alone who asked for a connection.
use picoquic_rs.Base.{
  ℕ, zero, suc, ◌+◌, ◌%◌, ◌^◌, ◌≡◌, refl, ◌∙◌, List, [], ◌∷◌, ◌++◌, Option, Option-cases, inl, inr,
  Result, ok, err, ready, not_ready, done, Post, Poll, Async, Post-bind, Post-if, Poll-cases,
}
use picoquic_rs.Errors.{Error}
use picoquic_rs.World
use picoquic_rs.World.{World}
use picoquic_rs.Channel
use picoquic_rs.Stream.Types.{Stream, Event, almost_ready, callback_close, application_close}
use picoquic_rs.Stream.Types as StreamTypes
use picoquic_rs.Stream.Receive.{new_stream, handle_connection_close}
use picoquic_rs.Stream.Frame.{new_stream-keeps, handle_connection_close-keeps}
use picoquic_rs.Stream.Drive as Stream
use picoquic_rs.Stream.Aside.{Aside}
use picoquic_rs.Stream.Unseen.{handle_callback-keeps}
use picoquic_rs.Ffi.StreamId.{generate_stream_id}
use picoquic_rs.Connection.Types.{Connection, ConnectionBuilder, Context, Ext, Message, lookup}
use picoquic_rs.Connection.Context as Ctx
use picoquic_rs.Connection.Context.{
  each, keeps, refuse_requests, handle_error, check_and_handle_error, handle_stream_callback,
  handle_callback, process_wait_for_ready_state, create_stream, check_create_stream_requests,
  retain_streams, poll_open, close_if_asked,
}
use picoquic_rs.Connection.Seen.{each-keeps}
use picoquic_rs.Connection.Quiet.{Quiet, polled-keeps, retain_streams-keeps}

module _ {Sys : Type 0} (ext : Ext Sys) where
  -- The answers to who asked for a connection, the newest last, which nothing else changes.
  pub record Asking : Type 0 where
    pub connected : Sys → List (ℕ × Result Connection Error)
    pub aside : Aside ext.streams connected
    pub polls : (c : ℕ) (s : Sys) → connected (ext.requests_stream.poll c s).1 ≡ connected s
    pub closes : (c : ℕ) (s : Sys) → connected (ext.requests_close.close c s) ≡ connected s
    pub polls_close : (c : ℕ) (s : Sys) → connected (ext.poll_close c s).1 ≡ connected s
    pub answers :
        (n : ℕ) (r : Result Stream Error) (s : Sys)
        → connected (ext.answer_stream n r s) ≡ connected s
    pub tells :
        (c : ℕ) (m : Message) (s : Sys) → connected (ext.msgs.unbounded_send c m s).1 ≡ connected s
    pub connects :
        (n : ℕ) (r : Result Connection Error) (s : Sys)
        → connected (ext.answer_connection n r s) ≡ connected s ++ (n, r) ∷ []

  pub Asking-Quiet : (k : Asking) → Quiet ext k.connected
  Asking-Quiet k = record {
    aside = k.aside;
    polls = k.polls;
    closes = k.closes;
    polls_close = k.polls_close;
    refuses = λ n e s. k.answers n (err e) s;
  }

  module _ (k : Asking) (c : List (ℕ × Result Connection Error)) where
    -- The answers are the same, and so is who waits.
    abbrev pub Still : Option (ConnectionBuilder × ℕ) → Context × World Sys → Type 0
    Still t (ctx, w) = (k.connected w.sys ≡ c) × (ctx.wait_for_ready_state ≡ t)

    pub handle_stream_callback-Still :
        (fuel id ptr size : ℕ) (e : Event) (ctx : Context) (w : World Sys)
        → k.connected w.sys ≡ c
        → Post
            (Still ctx.wait_for_ready_state)
            (handle_stream_callback ext fuel id ptr size e ctx w)
    unfolding handle_stream_callback
    handle_stream_callback-Still fuel id ptr size e ctx w h =
        elim (Option-cases (lookup id ctx.streams)) [
          | inr (s, got) ↦
              rw (got, handle_stream_callback)
                (Post-bind (λ x. k.connected x.1.sys ≡ c) (Still ctx.wait_for_ready_state)
                  (Stream.handle_callback ext.streams fuel ptr size e s w) _
                  (handle_callback-keeps ext.streams k.connected k.aside c fuel ptr size e s w h)
                  (λ x l. (l, refl)))
          | inl got ↦
              let (both, w₁) =
                new_stream ext.streams id ctx.cnx ctx.local_addr ctx.is_client
                  ctx.stream_send_channel_default_size w in
              rw (got, handle_stream_callback)
                (Post-bind (λ x. k.connected x.1.sys ≡ c) (Still ctx.wait_for_ready_state)
                  (Stream.handle_callback ext.streams fuel ptr size e both.1 w₁) _
                  (handle_callback-keeps ext.streams k.connected k.aside c fuel ptr size e both.1 w₁
                    (new_stream-keeps ext.streams k.connected k.aside.apart id ctx.cnx
                        ctx.local_addr ctx.is_client ctx.stream_send_channel_default_size w
                      ∙ h))
                  (λ x l. (k.tells ctx.send_msg (Message.new_stream both.0) x.1.sys ∙ l, refl)))
        ]

    create_stream-Still :
        (ctx : Context) (both : StreamTypes.Stream × StreamTypes.Context) (id sender : ℕ)
        (w : World Sys)
        → k.connected w.sys ≡ c
        → Post (Still ctx.wait_for_ready_state) (create_stream ext ctx both id sender w)
    unfolding create_stream
    create_stream-Still ctx (stream, s) id sender w h =
        elim (Option-cases (lookup id ctx.streams)) [
          | inr (x, got) ↦ rw (got, create_stream) tt
          | inl got ↦ rw (got, create_stream) (k.answers sender (ok stream) w.sys ∙ h, refl)
        ]

    check_create_stream_requests-Still :
        (t : Option (ConnectionBuilder × ℕ)) (fuel : ℕ) (ctx : Context) (w : World Sys)
        → Still t (ctx, w)
        → Post (Still t) (check_create_stream_requests ext fuel ctx w)
    unfolding check_create_stream_requests
    check_create_stream_requests-Still t zero ctx w h = tt
    check_create_stream_requests-Still t (suc fuel) ctx w (h, wait) =
        let (r, w₁) = Channel.poll ext.requests_stream ctx.recv_create_stream w in
        let same = polled-keeps ext k.connected (Asking-Quiet k) c ctx.recv_create_stream w ∙ h in
        elim (Poll-cases r) [
          | inl ((stype, sender), got) ↦
              let id = generate_stream_id ctx.next_stream_id ctx.is_client stype in
              let ctx₁ : Context = record ctx {
                next_stream_id = (ctx.next_stream_id + 1) % 2 ^ 64;
              } in
              let (both, w₂) =
                new_stream ext.streams id ctx.cnx ctx.local_addr ctx.is_client
                  ctx.stream_send_channel_default_size w₁ in
              rw (got, check_create_stream_requests)
                (Post-bind (Still ctx.wait_for_ready_state) (Still t)
                  (create_stream ext ctx₁ both id sender w₂) _
                  (create_stream-Still ctx₁ both id sender w₂ (
                    new_stream-keeps ext.streams k.connected k.aside.apart id ctx.cnx ctx.local_addr
                      ctx.is_client ctx.stream_send_channel_default_size w₁
                    ∙ same))
                  (λ x l. check_create_stream_requests-Still t fuel x.0 x.1 (l.0, l.1 ∙ wait)))
          | inr (inl (x, got)) ↦ rw (got, check_create_stream_requests) (same, wait)
          | inr (inr (inl got)) ↦ rw (got, check_create_stream_requests) (same, wait)
          | inr (inr (inr got)) ↦ rw (got, check_create_stream_requests) (same, wait)
        ]

    pub close-Still :
        (ctx : Context) (w : World Sys)
        → k.connected w.sys ≡ c
        → Still ctx.wait_for_ready_state (Ctx.close ext ctx w)
    unfolding Ctx.close
    close-Still ctx w h =
        let call = World.close_cnx ctx.cnx 0 in
        let w₁ : World Sys = record w {
          sys = ext.streams.call call w.sys;
          calls = call ∷ w.calls;
        } in
        let f = handle_connection_close ext.streams in
        (
          k.tells ctx.send_msg Message.close (each ext f ctx.streams w₁).1.sys
              ∙ each-keeps ext k.connected f
                  (handle_connection_close-keeps ext.streams k.connected k.aside.apart) ctx.streams
                  w₁
              ∙ k.aside.apart.called call w.sys
              ∙ h,
          refl,
        )

    close_if_asked-Still :
        (r : Poll (Unit {0}) (Unit {0})) (ctx : Context) (w : World Sys)
        → k.connected w.sys ≡ c
        → Still ctx.wait_for_ready_state (close_if_asked ext r ctx w)
    close_if_asked-Still (ok (ready x)) ctx w h = close-Still ctx w h
    close_if_asked-Still (ok not_ready) ctx w h = (h, refl)
    close_if_asked-Still (err x) ctx w h = (h, refl)

    poll_open-Still :
        (fuel : ℕ) (ctx : Context) (w : World Sys)
        → k.connected w.sys ≡ c
        → Post (Still ctx.wait_for_ready_state) (poll_open ext fuel ctx w)
    unfolding poll_open
    poll_open-Still fuel ctx w h =
        let t = ctx.wait_for_ready_state in
        Post-bind (λ x. k.connected x.1.sys ≡ c) (Still t) (retain_streams ext fuel ctx.streams w) _
          (retain_streams-keeps ext k.connected (Asking-Quiet k) c fuel ctx.streams w h)
          (λ x l.
            Post-bind (Still t) (Still t)
              (check_create_stream_requests ext fuel (record ctx { streams = x.0 }) x.1) _
              (check_create_stream_requests-Still t fuel (record ctx { streams = x.0 }) x.1
                (l, refl))
              (λ y o.
                let (r, s) = ext.poll_close y.0.close_recv y.1.sys in
                let (same, wait) =
                  close_if_asked-Still r y.0 (record y.1 { sys = s })
                    (k.polls_close y.0.close_recv y.1.sys ∙ o.0) in
                (same, wait ∙ o.1)))

    pub poll-Still :
        (fuel : ℕ) (ctx : Context) (w : World Sys)
        → k.connected w.sys ≡ c
        → Post (λ x. Still ctx.wait_for_ready_state (x.1, x.2)) (Ctx.poll ext fuel ctx w)
    unfolding Ctx.poll
    poll-Still fuel ctx w h =
        let P : Async (Unit {0}) × Context × World Sys → Type 0 =
          λ x. Still ctx.wait_for_ready_state (x.1, x.2) in
        Post-if P ctx.closed (done (ready tt, ctx, w)) _ (h, refl)
          (Post-bind (Still ctx.wait_for_ready_state) P (poll_open ext fuel ctx w) _
            (poll_open-Still fuel ctx w h) (λ x l. l))

-- ===== src/Connection/Handed.antt =====
-- src/connection.rs: every stream that a connection serves was handed to the application, when it was
-- opened.
use picoquic_rs.Base.{
  ℕ, zero, suc, ◌+◌, ◌%◌, ◌^◌, ◌≡◌, refl, ap, subst, ◌∙◌, List, [], ◌∷◌, ◌++◌, Option-cases, inl,
  inr, ok, err, ready, not_ready, done, Post, Poll, Async, Post-bind, Post-if, Post-mono, Post-both,
  Poll-cases,
}
use picoquic_rs.World.{World}
use picoquic_rs.Channel
use picoquic_rs.Stream.Types.{Stream, Event, almost_ready, callback_close, application_close}
use picoquic_rs.Stream.Types as StreamTypes
use picoquic_rs.Stream.Receive.{new_stream}
use picoquic_rs.Stream.Frame.{new_stream-keeps}
use picoquic_rs.Ffi.StreamId.{generate_stream_id}
use picoquic_rs.Connection.Types.{Context, Ext, lookup, insert}
use picoquic_rs.Connection.Context as Ctx
use picoquic_rs.Connection.Context.{
  each, keeps, refuse_requests, handle_error, check_and_handle_error, handle_stream_callback,
  handle_callback, process_wait_for_ready_state, create_stream, check_create_stream_requests,
  retain_streams, poll_open, close_if_asked,
}
use picoquic_rs.Connection.Callback.{Shared}
use picoquic_rs.Connection.Steps.{Steps, stay, called, polled, meanwhile}
use picoquic_rs.Connection.Quiet.{polled-keeps, retain_streams-keeps}
use picoquic_rs.Connection.Serves.{ids, Serves}
use picoquic_rs.Connection.Handing.{
  Handing, Hands, HandsTo, Hands-trans, Hands-none, Hands-same, Hands-new, retain_streams-ids,
}
use picoquic_rs.Connection.Announced.{close-Hands, connection_callback-Hands}

module _ {Sys : Type 0} (ext : Ext Sys) (k : Handing ext) where
  create_stream-Hands :
      (ctx ctx₁ : Context) (w w₂ : World Sys) (both : StreamTypes.Stream × StreamTypes.Context)
      (id sender : ℕ)
      → k.handed w₂.sys ≡ k.handed w.sys
      → ctx₁.streams ≡ ctx.streams
      → both.0.id ≡ id
      → Post (HandsTo ext k ctx w) (create_stream ext ctx₁ both id sender w₂)
  unfolding create_stream
  create_stream-Hands ctx ctx₁ w w₂ both id sender h e same =
      elim (Option-cases (lookup id ctx₁.streams)) [
        | inr (x, got) ↦ rw (got, create_stream) tt
        | inl got ↦
            let v : World Sys = record w₂ { sys = ext.answer_stream sender (ok both.0) w₂.sys } in
            rw (got, create_stream)
              (subst (λ m. Hands ext k m w (insert id both.1 ctx₁.streams) v) e
                (Hands-new ext k id both.1 ctx₁.streams w v got (
                  k.grants sender both.0 w₂.sys
                  ∙ ap (λ l. l ++ both.0.id ∷ []) h
                  ∙ ap (λ i. k.handed w.sys ++ i ∷ []) same)))
      ]

  check_create_stream_requests-Hands :
      (fuel : ℕ) (ctx : Context) (w : World Sys)
      → Post (HandsTo ext k ctx w) (check_create_stream_requests ext fuel ctx w)
  unfolding check_create_stream_requests new_stream
  check_create_stream_requests-Hands zero ctx w = tt
  check_create_stream_requests-Hands (suc fuel) ctx w =
      let (r, w₁) = Channel.poll ext.requests_stream ctx.recv_create_stream w in
      let kept = polled-keeps ext k.handed k.quiet (k.handed w.sys) ctx.recv_create_stream w in
      let none_handed = Hands-same ext k ctx.streams ctx.streams w w₁ kept refl in
      elim (Poll-cases r) [
        | inl ((stype, sender), got) ↦
            let id = generate_stream_id ctx.next_stream_id ctx.is_client stype in
            let ctx₁ : Context = record ctx {
              next_stream_id = (ctx.next_stream_id + 1) % 2 ^ 64;
            } in
            let (both, w₂) =
              new_stream ext.streams id ctx.cnx ctx.local_addr ctx.is_client
                ctx.stream_send_channel_default_size w₁ in
            let same =
              new_stream-keeps ext.streams k.handed k.quiet.aside.apart id ctx.cnx ctx.local_addr
                ctx.is_client ctx.stream_send_channel_default_size w₁ in
            rw (got, check_create_stream_requests)
              (Post-bind (HandsTo ext k ctx w) (HandsTo ext k ctx w)
                (create_stream ext ctx₁ both id sender w₂) _
                (create_stream-Hands ctx ctx₁ w w₂ both id sender (same ∙ kept) refl refl)
                (λ x l.
                  Post-mono (HandsTo ext k x.0 x.1) (HandsTo ext k ctx w)
                    (check_create_stream_requests ext fuel x.0 x.1)
                    (λ y o. Hands-trans ext k ctx.streams x.0.streams y.0.streams w x.1 y.1 l o)
                    (check_create_stream_requests-Hands fuel x.0 x.1)))
        | inr (inl (x, got)) ↦ rw (got, check_create_stream_requests) none_handed
        | inr (inr (inl got)) ↦ rw (got, check_create_stream_requests) none_handed
        | inr (inr (inr got)) ↦ rw (got, check_create_stream_requests) none_handed
      ]

  close_if_asked-Hands :
      (r : Poll (Unit {0}) (Unit {0})) (ctx : Context) (w : World Sys)
      → HandsTo ext k ctx w (close_if_asked ext r ctx w)
  close_if_asked-Hands (ok (ready x)) ctx w = close-Hands ext k ctx w
  close_if_asked-Hands (ok not_ready) ctx w = Hands-same ext k ctx.streams ctx.streams w w refl refl
  close_if_asked-Hands (err x) ctx w = Hands-same ext k ctx.streams ctx.streams w w refl refl

  poll_open-Hands :
      (fuel : ℕ) (ctx : Context) (w : World Sys)
      → Post (HandsTo ext k ctx w) (poll_open ext fuel ctx w)
  unfolding poll_open
  poll_open-Hands fuel ctx w =
      let c = k.handed w.sys in
      Post-bind (λ x. (k.handed x.1.sys ≡ c) × Serves (ids ctx.streams) [] (ids x.0))
        (HandsTo ext k ctx w) (retain_streams ext fuel ctx.streams w) _
        (Post-both (λ x. k.handed x.1.sys ≡ c) (λ x. Serves (ids ctx.streams) [] (ids x.0))
          (retain_streams ext fuel ctx.streams w)
          (retain_streams-keeps ext k.handed k.quiet c fuel ctx.streams w refl)
          (retain_streams-ids ext fuel ctx.streams w))
        (λ x l.
          let ctx₁ : Context = record ctx { streams = x.0 } in
          Post-bind (HandsTo ext k ctx₁ x.1) (HandsTo ext k ctx w)
            (check_create_stream_requests ext fuel ctx₁ x.1) _
            (check_create_stream_requests-Hands fuel ctx₁ x.1)
            (λ y o.
              let (r, s) = ext.poll_close y.0.close_recv y.1.sys in
              let w₃ : World Sys = record y.1 { sys = s } in
              let (ctx₂, w₄) = close_if_asked ext r y.0 w₃ in
              let first = Hands-none ext k ctx.streams x.0 w x.1 l.0 l.1 in
              let second = Hands-trans ext k ctx.streams x.0 y.0.streams w x.1 y.1 first o in
              let third =
                Hands-same ext k y.0.streams y.0.streams y.1 w₃
                  (k.quiet.polls_close y.0.close_recv y.1.sys) refl in
              Hands-trans ext k ctx.streams y.0.streams ctx₂.streams w y.1 w₄ second (
                Hands-trans ext k y.0.streams y.0.streams ctx₂.streams y.1 w₃ w₄ third
                  (close_if_asked-Hands r y.0 w₃))))

  poll-Hands :
      (fuel : ℕ) (ctx : Context) (w : World Sys)
      → Post (λ x. HandsTo ext k ctx w (x.1, x.2)) (Ctx.poll ext fuel ctx w)
  unfolding Ctx.poll
  poll-Hands fuel ctx w =
      let P : Async (Unit {0}) × Context × World Sys → Type 0 =
        λ x. HandsTo ext k ctx w (x.1, x.2) in
      Post-if P ctx.closed (done (ready tt, ctx, w)) _
        (Hands-same ext k ctx.streams ctx.streams w w refl refl)
        (Post-bind (HandsTo ext k ctx w) P (poll_open ext fuel ctx w) _ (poll_open-Hands fuel ctx w)
          (λ x l. l))

  -- Where the answer to a request with a stream, and the message that announces one, append the
  -- stream's id to the list of the ids handed to the application, and nothing else changes that list:
  -- over any sequence of picoquic's callbacks, with any events, and of polls of a connection, each of
  -- which returns, with anything outside in between that leaves the list alone, some ids are handed
  -- over, and the ids of the streams that are served come from the old ones in these steps only: a
  -- stream is opened under an id that no stream has that is served, and it is handed over then, once
  -- and in that order; or a stream that is served ends.
  pub Steps-Hands :
      (Elsewhere : World Sys → World Sys → Type 0) (s s' : Shared) (w w' : World Sys)
      → ((v v' : World Sys) → Elsewhere v v' → k.handed v'.sys ≡ k.handed v.sys)
      → Steps ext Elsewhere s w s' w'
      → (hs : List ℕ) × (k.handed w'.sys ≡ k.handed w.sys ++ hs)
        × Serves (ids s.context.streams) hs (ids s'.context.streams)
  Steps-Hands E s _ w _ h stay = Hands-same ext k s.context.streams s.context.streams w w refl refl
  Steps-Hands E s s' w w' h (called {s' = t} {w' = v} fuel id ptr size e run more) =
      Hands-trans ext k s.context.streams t.context.streams s'.context.streams w v w'
        (subst (Post (λ x. HandsTo ext k s.context w (x.0.context, x.1))) run
          (connection_callback-Hands ext k fuel id ptr size e s w))
        (Steps-Hands E t s' v w' h more)
  Steps-Hands E s s' w w' h (polled {w' = v} fuel r ctx' run more) =
      Hands-trans ext k s.context.streams ctx'.streams s'.context.streams w v w'
        (subst (Post (λ x. HandsTo ext k s.context w (x.1, x.2))) run (poll-Hands fuel s.context w))
        (Steps-Hands E (record s { context = ctx' }) s' v w' h more)
  Steps-Hands E s s' w w' h (meanwhile {w' = v} other more) =
      Hands-trans ext k s.context.streams s.context.streams s'.context.streams w v w'
        (Hands-same ext k s.context.streams s.context.streams w v (h w v other) refl)
        (Steps-Hands E s s' v w' h more)

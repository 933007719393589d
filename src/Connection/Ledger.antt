-- ===== src/Connection/Ledger.antt =====
-- src/connection.rs: who asked for a connection is answered once.
use picoquic_rs.Base.{
  ℕ, ◌≡◌, refl, ap, subst, ◌∙◌, List, [], ◌∷◌, ◌++◌, map, append-nil, map-append, Option, none,
  some, Option-cases, inl, inr, Result, ok, err, Exec, done, Post, Post-bind, Post-if, Post-mono,
  ◌==◌,
}
use picoquic_rs.Errors.{Error, ErrorFn}
use picoquic_rs.World.{World}
use picoquic_rs.Channel
use picoquic_rs.Stream.Types.{Event, almost_ready, callback_close, application_close}
use picoquic_rs.Stream.Types as StreamTypes
use picoquic_rs.Stream.Receive.{handle_connection_error}
use picoquic_rs.Stream.Frame.{handle_connection_error-keeps}
use picoquic_rs.Ffi.Cnx as Cnx
use picoquic_rs.Connection.Types.{Connection, ConnectionBuilder, Context, Ext, build, error}
use picoquic_rs.Connection.Context as Ctx
use picoquic_rs.Connection.Context.{
  each, refuse_requests, handle_error, check_and_handle_error, handle_stream_callback,
  handle_callback, process_wait_for_ready_state,
}
use picoquic_rs.Connection.Callback.{Shared, connection_callback, release}
use picoquic_rs.Connection.Released.{release-keeps}
use picoquic_rs.Connection.Steps.{Steps, stay, called, polled, meanwhile}
use picoquic_rs.Connection.Seen.{each-keeps}
use picoquic_rs.Connection.Asking.{
  Asking, Still, close-Still, poll-Still, handle_stream_callback-Still, Asking-Quiet,
}
use picoquic_rs.Connection.Quiet.{refuse_requests-keeps}

-- Who still waits for a connection.
abbrev pub pending : Option (ConnectionBuilder × ℕ) → List ℕ
pending none = []
pending (some (builder, sender)) = sender ∷ []

module _ {Sys : Type 0} (ext : Ext Sys) where
  module _ (k : Asking ext) where
    -- Who was answered, in order, and then who still waits.
    abbrev pub ledger : Context → World Sys → List ℕ
    ledger ctx w = map (λ a. a.0) (k.connected w.sys) ++ pending ctx.wait_for_ready_state

    Still-ledger :
        (ctx : Context) (w : World Sys) (m : Exec (Context × World Sys))
        → Post (Still ext k (k.connected w.sys) ctx.wait_for_ready_state) m
        → Post (λ x. ledger x.0 x.1 ≡ ledger ctx w) m
    Still-ledger ctx w m p =
        Post-mono (Still ext k (k.connected w.sys) ctx.wait_for_ready_state)
          (λ x. ledger x.0 x.1 ≡ ledger ctx w) m (λ x h. cc (h.0, h.1)) p

    -- Who waits is answered, and waits no more.
    answered-ledger :
        (sender : ℕ) (r : Result Connection Error) (w v : World Sys)
        → k.connected v.sys ≡ k.connected w.sys
        → map (λ a. a.0) (k.connected (ext.answer_connection sender r v.sys)) ++ []
          ≡ map (λ a. a.0) (k.connected w.sys) ++ sender ∷ []
    answered-ledger sender r w v same =
        append-nil (map (λ a. a.0) (k.connected (ext.answer_connection sender r v.sys)))
        ∙ ap (map (λ a. a.0)) (k.connects sender r v.sys)
        ∙ ap (λ l. map (λ a. a.0) (l ++ (sender, r) ∷ [])) same
        ∙ map-append (λ a. a.0) (k.connected w.sys) ((sender, r) ∷ [])

    handle_callback-ledger :
        (fuel id ptr size : ℕ) (e : Event) (ctx : Context) (w : World Sys)
        → Post (λ x. ledger x.0 x.1 ≡ ledger ctx w) (handle_callback ext fuel id ptr size e ctx w)
    unfolding handle_callback process_wait_for_ready_state
    handle_callback-ledger fuel id ptr size almost_ready ctx w =
        elim (Option-cases ctx.wait_for_ready_state) [
          | inl n ↦ rw (n, handle_callback) refl
          | inr ((b, sender), n) ↦
              rw (n, handle_callback, process_wait_for_ready_state)
                (answered-ledger sender (ok (build b (ext.local_cnxid ctx.cnx w.sys))) w w refl)
        ]
    handle_callback-ledger fuel id ptr size e ctx w =
        Post-if (λ x. ledger x.0 x.1 ≡ ledger ctx w) (id == 0) (done (ctx, w))
          (handle_stream_callback ext fuel id ptr size e ctx w) refl
          (Still-ledger ctx w (handle_stream_callback ext fuel id ptr size e ctx w)
            (handle_stream_callback-Still ext k (k.connected w.sys) fuel id ptr size e ctx w refl))

    handle_error-ledger :
        (fuel : ℕ) (e : ErrorFn) (ctx : Context) (w : World Sys)
        → Post (λ x. ledger x.0 x.1 ≡ ledger ctx w) (handle_error ext fuel e ctx w)
    unfolding handle_error Channel.propagate_error Channel.set_error Channel.close
    handle_error-ledger fuel e ctx w =
        let f : StreamTypes.Context → World Sys → StreamTypes.Context × World Sys =
          λ s v. handle_connection_error ext.streams s e v in
        let (m, w₁) = each ext f ctx.streams w in
        let w₂ = Channel.propagate_error ctx.recv_create_stream e w₁ in
        let w₃ = Channel.close ext.requests_close ctx.recv_create_stream w₂ in
        let kept : k.connected w₃.sys ≡ k.connected w.sys =
          k.closes ctx.recv_create_stream.receiver w₁.sys
          ∙ each-keeps ext k.connected f
              (handle_connection_error-keeps ext.streams k.connected k.aside.apart e) ctx.streams
              w in
        Post-bind (λ v. k.connected v.sys ≡ k.connected w.sys) (λ x. ledger x.0 x.1 ≡ ledger ctx w)
          (refuse_requests ext fuel (record ctx { streams = m }) e w₃) _
          (refuse_requests-keeps ext k.connected (Asking-Quiet ext k) (k.connected w.sys) fuel
            (record ctx { streams = m }) e w₃ kept)
          (λ v h. elim (Option-cases ctx.wait_for_ready_state) [
            | inl n ↦
                rw n
                  (ap (λ l. map (λ a. a.0) l ++ []) (k.tells ctx.send_msg (error (e tt)) v.sys ∙ h))
            | inr ((b, sender), n) ↦ rw n (answered-ledger sender (err (e tt)) w v h)
          ])

    check_and_handle_error-ledger :
        (fuel : ℕ) (ctx : Context) (w : World Sys)
        → Post (λ x. ledger x.0 x.1 ≡ ledger ctx w) (check_and_handle_error ext fuel ctx w)
    unfolding check_and_handle_error
    check_and_handle_error-ledger fuel ctx w =
        elim (Option-cases (
          Cnx.error ext.is_handshake_error (ext.local_error ctx.cnx w.sys)
            (ext.remote_error ctx.cnx w.sys))) [
              | inl n ↦ rw (n, check_and_handle_error) refl
              | inr (e, n) ↦ rw (n, check_and_handle_error) (handle_error-ledger fuel e ctx w)
            ]

    -- `connection_callback` for the end of the connection.
    close-ledger :
        (fuel : ℕ) (s : Shared) (w : World Sys)
        → Post
            (λ x. ledger x.0.context x.1 ≡ ledger s.context w)
            (connection_callback ext fuel 0 0 0 callback_close s w)
    unfolding connection_callback release
    close-ledger fuel s w =
        Post-bind (λ x. ledger x.0 x.1 ≡ ledger s.context w)
          (λ x. ledger x.0.context x.1 ≡ ledger s.context w)
          (check_and_handle_error ext fuel s.context w) _
          (check_and_handle_error-ledger fuel s.context w)
          (λ x h.
            let (same, wait) = close-Still ext k (k.connected x.1.sys) x.0 x.1 refl in
            let (c, v) = Ctx.close ext x.0 x.1 in
            let gone =
              release-keeps ext k.connected k.aside (record { context = c; strong = s.strong }) v in
            cc (same, wait, h, gone))

    pub connection_callback-ledger :
        (fuel id ptr size : ℕ) (e : Event) (s : Shared) (w : World Sys)
        → Post
            (λ x. ledger x.0.context x.1 ≡ ledger s.context w)
            (connection_callback ext fuel id ptr size e s w)
    unfolding connection_callback
    connection_callback-ledger fuel id ptr size callback_close s w = close-ledger fuel s w
    connection_callback-ledger fuel id ptr size application_close s w = close-ledger fuel s w
    connection_callback-ledger fuel id ptr size e s w =
        Post-bind (λ x. ledger x.0 x.1 ≡ ledger s.context w)
          (λ x. ledger x.0.context x.1 ≡ ledger s.context w)
          (handle_callback ext fuel id ptr size e s.context w) _
          (handle_callback-ledger fuel id ptr size e s.context w) (λ x h. h)

    pub poll-ledger :
        (fuel : ℕ) (ctx : Context) (w : World Sys)
        → Post (λ x. ledger x.1 x.2 ≡ ledger ctx w) (Ctx.poll ext fuel ctx w)
    poll-ledger fuel ctx w =
        Post-mono (λ x. Still ext k (k.connected w.sys) ctx.wait_for_ready_state (x.1, x.2))
          (λ x. ledger x.1 x.2 ≡ ledger ctx w) (Ctx.poll ext fuel ctx w) (λ x h. cc (h.0, h.1))
          (poll-Still ext k (k.connected w.sys) fuel ctx w refl)

    -- Where an answer to a request for a connection is appended to the list of these answers and
    -- nothing else changes that list: over any sequence of picoquic's callbacks, with any events, and
    -- of polls of a connection, each of which returns, with anything outside in between that leaves
    -- the list alone, the list of who was answered, in order, with who still waits behind it stays the
    -- same. So nobody is answered who did not wait, and who is answered waits no more.
    pub Steps-ledger :
        (Elsewhere : World Sys → World Sys → Type 0) (s s' : Shared) (w w' : World Sys)
        → ((v v' : World Sys) → Elsewhere v v' → k.connected v'.sys ≡ k.connected v.sys)
        → Steps ext Elsewhere s w s' w'
        → ledger s'.context w' ≡ ledger s.context w
    Steps-ledger E s _ w _ h stay = refl
    Steps-ledger E s s' w w' h (called {s' = t} {w' = v} fuel id ptr size e run rest) =
        Steps-ledger E t s' v w' h rest
        ∙ subst (Post (λ x. ledger x.0.context x.1 ≡ ledger s.context w)) run
            (connection_callback-ledger fuel id ptr size e s w)
    Steps-ledger E s s' w w' h (polled {w' = v} fuel r ctx' run rest) =
        Steps-ledger E (record s { context = ctx' }) s' v w' h rest
        ∙ subst (Post (λ x. ledger x.1 x.2 ≡ ledger s.context w)) run (poll-ledger fuel s.context w)
    Steps-ledger E s s' w w' h (meanwhile {w' = v} other rest) =
        Steps-ledger E s s' v w' h rest
        ∙ ap (λ l. map (λ a. a.0) l ++ pending s.context.wait_for_ready_state) (h w v other)

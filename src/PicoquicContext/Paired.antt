-- ===== src/PicoquicContext/Paired.antt =====
-- src/context.rs, src/context_inner.rs and src/ffi/quic_ctx.rs: what the application gets and what runs
-- belong together, and a start that fails leaves nothing of picoquic.
use picoquic_rs.Base.{
  ℕ, ◌+◌, ◌-◌, ◌≡◌, refl, sym, ◌∙◌, ap, inl, inr, [], Option-cases, none, some, Result, ok, err,
  Exec, done, panic, out_of_fuel, ◌>>=◌, arith, length, subst, zero, suc,
}
use picoquic_rs.Errors.{Error, Foreign}
use picoquic_rs.World.{World, on_sys}
use picoquic_rs.Stream.Types.{SocketAddr}
use picoquic_rs.Config.{Config, server, client, verify}
use picoquic_rs.Ffi.QuicCtx.{QuicCtx}
use picoquic_rs.Ffi.QuicCtx as QuicCtx
use picoquic_rs.Ffi.QuicCtx.Release.{Counts, NullFor, Owns, new-Owns}
use picoquic_rs.Inner.Accept.{keep_alive_intervals}
use picoquic_rs.Inner.Create.{Start, Pieces, zeros, pieces, bound, assemble, new_context}
use picoquic_rs.Inner.Create as Inner
use picoquic_rs.Inner.Drive.{ContextInner, Outside}
use picoquic_rs.Inner.Drive as Drive
use picoquic_rs.PicoquicContext.{Context}
use picoquic_rs.PicoquicContext.Create.{
  Executor, spawned, start, after_check, new, drop_inner, application,
}

length-zeros : (n : ℕ) → length (zeros n) ≡ n
length-zeros zero = refl
length-zeros (suc n) = ap suc (length-zeros n)

module _ {Sys IoError H : Type 0} (ex : Executor Sys) (st : Start Sys IoError H)
    (out : Outside Sys IoError) where
  -- The two ends of each channel, the address of the socket that was bound to the one asked for, and
  -- what the configuration asked for.
  pub record Paired (listen : SocketAddr) (c : Config H) (ctx : Context) (i : ContextInner)
      : Type 0 where
    pub connections : i.context.send_con ≡ ctx.recv_con
    pub requests : i.recv_connect ≡ ctx.new_connection_handle
    pub closing :
        (s : Sys) × (i.close_handle ≡ some (st.create_close s).0.0)
        × (ctx.close_handle ≡ (st.create_close s).0.1)
    pub address :
        (s : Sys) × (socket : ℕ) × ((st.bind listen s).0 ≡ ok socket)
        × (i.local_addr ≡ st.socket_addr socket (st.bind listen s).1)
        × (ctx.local_addr ≡ i.local_addr)
    pub by_client :
        c.keep_alive_sender ≡ client
        → (i.client_keep_alive_interval ≡ c.keep_alive_interval)
          × (i.context.server_keep_alive_interval ≡ none)
    pub by_server :
        c.keep_alive_sender ≡ server
        → (i.client_keep_alive_interval ≡ none)
          × (i.context.server_keep_alive_interval ≡ c.keep_alive_interval)
    pub size_asked : i.stream_send_channel_default_size ≡ c.stream_send_channel_default_size
    pub size_incoming :
        i.context.stream_send_channel_default_size ≡ c.stream_send_channel_default_size
    pub idle : (i.context.connections ≡ []) × (i.buffers.not_send_length ≡ none)
    pub room : length i.buffers.buffer ≡ st.max_packet_size

  -- Channels, the socket, the executor and the close handle are not contexts of picoquic.
  pub record Apart (live : Sys → ℕ) : Type 0 where
    pub connections : (s : Sys) → live (st.accept.new_cons.unbounded s).1 ≡ live s
    pub requests : (s : Sys) → live (st.accept.requests.unbounded s).1 ≡ live s
    pub closing : (s : Sys) → live (st.create_close s).1 ≡ live s
    pub binding : (a : SocketAddr) (s : Sys) → live (st.bind a s).1 ≡ live s
    pub spawning : (s : Sys) → live (ex.spawn s).1 ≡ live s
    pub told : (h : ℕ) (s : Sys) → live (out.send_close h s) ≡ live s

  -- A start that succeeds passed the check of the configuration, gives halves that belong together,
  -- and one context of picoquic; one that fails leaves as many as before.
  pub Starts :
      (Sys → ℕ)
      → ℕ
      → SocketAddr
      → Config H
      → Exec (Result (Context × ContextInner) Error × World Sys)
      → Type 0
  Starts live n a c (done (ok (ctx, i), w)) =
      (verify ex.exists ex.show c ≡ ok tt) × Paired a c ctx i × (live w.sys ≡ n + 1)
  Starts live n a c (done (err e, w)) = live w.sys ≡ n
  Starts live n a c panic = Unit {0}
  Starts live n a c out_of_fuel = ⊥

  module _ (live : Sys → ℕ) (t : Counts st.quic live) (a : Apart live) (listen : SocketAddr)
      (c : Config H) (checked : verify ex.exists ex.show c ≡ ok tt) where
    drop-live : (i : ContextInner) (w : World Sys) → live (Drive.drop out (i, w)).1.sys ≡ live w.sys
    unfolding Drive.drop
    drop-live i w = elim (Option-cases i.close_handle) [
      | inl e ↦ ground arith
      | inr (h, e) ↦ ground (arith, a.told h w.sys)
    ]

    drop_inner-live :
        (i : ContextInner) (w : World Sys) → live (drop_inner ex st out i w).sys ≡ live w.sys - 1
    unfolding QuicCtx.drop
    drop_inner-live i w =
        let (i', w') = Drive.drop out (i, w) in
        omega (arith, t.freed i'.quic.quic w'.sys, drop-live i w)

    spawned-Starts :
        (p : Pieces) (n : ℕ) (r : Result (Unit {0}) Foreign × World Sys)
        → Paired listen c (application ex st out p) p.inner
        → live r.1.sys ≡ n + 1
        → Starts live n listen c (done (spawned ex st out p r))
    unfolding Starts
    spawned-Starts p n (ok u, w) h e = (checked, h, e)
    spawned-Starts p n (err x, w) h e = omega (arith, drop_inner-live p.inner w)

    pieces-Paired :
        (q : QuicCtx) (chan connect socket : ℕ) (s v u : Sys)
        → (ok socket, u) ≡ st.bind listen v
        → let p = pieces st c q chan connect (st.create_close s).0 (st.socket_addr socket u) in
          Paired listen c (application ex st out p) p.inner
    unfolding keep_alive_intervals new_context
    pieces-Paired q chan connect socket s v u e = record {
      connections = refl;
      requests = refl;
      closing = (s, refl, refl);
      address = (
        v,
        socket,
        sym (ap (λ x. x.0) e),
        ap (λ (x : Result ℕ IoError × Sys). st.socket_addr socket x.1) e,
        refl,
      );
      by_client = λ k. ground arith;
      by_server = λ k. ground arith;
      size_asked = refl;
      size_incoming = refl;
      idle = (refl, refl);
      room = length-zeros st.max_packet_size;
    }

    bound-Starts :
        (q : QuicCtx) (n chan connect : ℕ) (s v : Sys) (r : Result ℕ IoError × World Sys)
        → (r.0, r.1.sys) ≡ st.bind listen v
        → live r.1.sys ≡ n + 1
        → Starts live n listen c
            (done (start ex st out (bound st c q chan connect (st.create_close s).0 r)))
    unfolding Starts QuicCtx.drop
    bound-Starts q n chan connect s v (err x, w) b e = omega (arith, t.freed q.quic w.sys)
    bound-Starts q n chan connect s v (ok socket, w) b e =
        spawned-Starts
          (pieces st c q chan connect (st.create_close s).0 (st.socket_addr socket w.sys)) n
          (on_sys w (ex.spawn w.sys)) (pieces-Paired q chan connect socket s v w.sys b)
          (a.spawning w.sys ∙ e)

    assemble-Starts :
        (Null : Type 0) (n chan : ℕ) (w : World Sys) (m : Exec (Result QuicCtx Error × Sys))
        → Owns st.quic live n Null m
        → Starts live n listen c
            ((m >>= λ r. done (assemble st c listen chan r w)) >>= λ x. done (start ex st out x))
    unfolding Starts Owns
    assemble-Starts Null n chan w (done (ok q, s)) o =
        let (connect, s₁) = st.accept.requests.unbounded s in
        let (close, s₂) = st.create_close s₁ in
        bound-Starts q n chan connect s₁ s₂ (on_sys (record w { sys = s₂ }) (st.bind listen s₂))
          refl (a.binding listen s₂ ∙ a.closing s₁ ∙ a.requests s ∙ o)
    assemble-Starts Null n chan w (done (err e, s)) o = o
    assemble-Starts Null n chan w panic o = tt
    assemble-Starts Null n chan w out_of_fuel o = o

  checked-Starts :
      (live : Sys → ℕ) (listen : SocketAddr) (c : Config H) (w : World Sys)
      → Counts st.quic live
      → Apart live
      → (r : Result (Unit {0}) Error) → verify ex.exists ex.show c ≡ r
      → Starts live (live w.sys) listen c (after_check ex st out r listen c w)
  unfolding Inner.new Starts
  checked-Starts live listen c w t a (err e) h = refl
  checked-Starts live listen c w t a (ok u) h =
      let (chan, s) = st.accept.new_cons.unbounded w.sys in
      let same = a.connections w.sys in
      let Null = NullFor st.quic live c st.context_ptr s in
      assemble-Starts live t a listen c h Null (live w.sys) chan (record w { sys = s })
        (QuicCtx.new st.quic c st.context_ptr s)
        (subst (λ n. Owns st.quic live n Null (QuicCtx.new st.quic c st.context_ptr s)) same
          (new-Owns st.quic live c st.context_ptr s t))

  -- Where the set-up calls of picoquic create and free its contexts one by one, and channels, the
  -- socket and the executor have none, `Context::new` returns or panics. If it succeeds, the
  -- configuration passed its check; the application and the future that runs hold the two ends of the
  -- channel of connections, of the channel of requests and of the close handle; the side that the
  -- configuration names sends keep alive packets in its interval and the other one does not; the
  -- sizes are those asked for, the address of both is that of a socket that was bound to the address
  -- asked for, the buffer has the size of picoquic's packets, nothing is unsent and there is no
  -- connection; and there is one context of picoquic more. If it fails, at whatever step, there is none more.
  pub new-Starts :
      (live : Sys → ℕ) (listen : SocketAddr) (c : Config H) (w : World Sys)
      → Counts st.quic live
      → Apart live
      → Starts live (live w.sys) listen c (new ex st out listen c w)
  unfolding new
  new-Starts live listen c w t a =
      checked-Starts live listen c w t a (verify ex.exists ex.show c) refl

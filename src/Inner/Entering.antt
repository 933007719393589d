-- ===== src/Inner/Entering.antt =====
-- src/context_inner.rs: all is well with the connections when one more comes.
use picoquic_rs.Base.{
  ℕ, ◌≤◌, ◌/◌, ◌≡◌, refl, subst, arith, inl, Bool, true, false, List, [], ◌∷◌, ◌++◌, Option, Result,
  ok, err, done, panic, some, Post, Post-bind, Post-if,
}
use picoquic_rs.Errors.{Error, from_foreign, nul_error}
use picoquic_rs.World.{World, on_sys}
use picoquic_rs.Stream.Types.{Event, SocketAddr}
use picoquic_rs.Stream.Id.{is_client_initiated}
use picoquic_rs.Stream.Controls.{AreControls}
use picoquic_rs.Ffi.Cnx.{new_cnx, is_going_to_close}
use picoquic_rs.Ffi.MicroSeconds.{Duration}
use picoquic_rs.Connection.Types.{Connection}
use picoquic_rs.Connection.Context as Con
use picoquic_rs.Connection.Callback.{
  Shared, create, create_builder, connection_callback, from_incoming,
}
use picoquic_rs.Connection.Begins.{Begins, create-keeps, create_builder-keeps}
use picoquic_rs.Connection.Waiting.{Waiting, Less}
use picoquic_rs.Connection.Lasts.{connection_callback-Sound}
use picoquic_rs.Inner.Accept.{CContext, Ext, new_connection_callback, push_made}
use picoquic_rs.Inner.Crowd.{chans}
use picoquic_rs.Inner.Well.{Well, Well-Less, Well-push, SoundIn, empty-Sound}
use Prim.Native.String.{String}

module _ {Sys : Type 0} (ext : Ext Sys) where
  -- Making, asking for and announcing connections changes nothing that is seen.
  pub record Aloof {A : Type 0} (view : Sys → A) : Type 0 where
    pub begins : Begins ext.con view
    pub polls : (c : ℕ) (s : Sys) → view (ext.requests.poll c s).1 ≡ view s
    pub makes :
        (a : SocketAddr) (n : String) (t : ℕ) (s : Sys)
        → view (ext.create_client_cnx a n t s).1 ≡ view s
    pub announces :
        (c : ℕ) (x : Connection) (s : Sys) → view (ext.new_cons.unbounded_send c x s).1 ≡ view s

  new_cnx-keeps :
      {A : Type 0} (view : Sys → A) (addr : SocketAddr) (name : String) (now : ℕ) (w : World Sys)
      → Aloof view
      → Post
          (λ x. view x.1.sys ≡ view w.sys)
          (new_cnx
            (ext.is_unspecified addr)
            (ext.has_nul name)
            (λ v. on_sys v (ext.create_client_cnx addr name now v.sys))
            w)
  unfolding new_cnx
  new_cnx-keeps view addr name now w o =
      let P : Result ℕ Error × World Sys → Type 0 = λ x. view x.1.sys ≡ view w.sys in
      Post-if P (ext.is_unspecified addr) panic _ tt (
        Post-if P (ext.has_nul name) (done (err (from_foreign nul_error), w)) _ refl
          (o.makes addr name now w.sys))

  -- What waits for the streams is not changed by making, asking for and announcing connections.
  pub record Doors (k : Waiting ext.con) : Type 0 where
    pub waits : (d : ℕ) → Aloof (k.waits d)
    pub numbers : Aloof k.next

  module _ (k : Waiting ext.con) (doors : Doors k) where
    views-Less :
        (w w' : World Sys)
        → k.next w'.sys ≡ k.next w.sys
        → ((d : ℕ) → k.waits d w'.sys ≡ k.waits d w.sys)
        → (i : ℕ → Bool) → Less ext.con k i w.sys w'.sys
    views-Less w w' n h i = (omega (arith, n), λ d e. inl (h d))

    pub polled-Well :
        (recv : ℕ) (l g : List Shared) (w : World Sys)
        → Well ext k l g w
        → Well ext k l g (on_sys w (ext.requests.poll recv w.sys)).1
    polled-Well recv l g w h =
        let w' = (on_sys w (ext.requests.poll recv w.sys)).1 in
        Well-Less ext k l g w w'
          (views-Less w w' (doors.numbers.polls recv w.sys) (λ d. (doors.waits d).polls recv w.sys))
          h

    pub new_cnx-Well :
        (addr : SocketAddr) (name : String) (now : ℕ) (l g : List Shared) (w w' : World Sys)
        (r : Result ℕ Error)
        → new_cnx
            (ext.is_unspecified addr)
            (ext.has_nul name)
            (λ v. on_sys v (ext.create_client_cnx addr name now v.sys))
            w
          ≡ done (r, w')
        → Well ext k l g w
        → Well ext k l g w'
    new_cnx-Well addr name now l g w w' r run h =
        Well-Less ext k l g w w'
          (views-Less w w'
            (subst (Post (λ x. k.next x.1.sys ≡ k.next w.sys)) run
              (new_cnx-keeps k.next addr name now w doors.numbers))
            (λ d.
              subst (Post (λ x. k.waits d x.1.sys ≡ k.waits d w.sys)) run
                (new_cnx-keeps (k.waits d) addr name now w (doors.waits d))))
          h

    pub create-Well :
        (cnx : Result ℕ Error) (peer local : SocketAddr) (keep : Option Duration) (sender size : ℕ)
        (c : CContext) (g : List Shared) (w : World Sys)
        → Well ext k c.connections g w
        → let (made, w') = create ext.con cnx peer local keep sender size w in
          Well ext k (push_made c made).connections g w'
    unfolding create create_builder Con.new_context
    create-Well (err e) peer local keep sender size c g w h = h
    create-Well (ok cnx) peer local keep sender size c g w h =
        let (made, w') = create ext.con (ok cnx) peer local keep sender size w in
        let kept =
          Well-Less ext k c.connections g w w'
            (views-Less w w'
              (create-keeps ext.con k.next doors.numbers.begins (ok cnx) peer local keep sender size
                w)
              (λ d.
                create-keeps ext.con (k.waits d) (doors.waits d).begins (ok cnx) peer local keep
                  sender size w))
            h in
        let ((builder, shared), v) = create_builder ext.con cnx peer local true keep size w in
        let ctx = shared.context in
        let s : Shared = record shared {
          context = record ctx { wait_for_ready_state = some (builder, sender) };
        } in
        Well-push ext k c.connections g s w' (empty-Sound ext k c.connections g s w' refl kept)
          kept.1 kept.2

    from_incoming-Sound :
        (fuel cnx id ptr size default : ℕ) (event : Event) (keep : Option Duration)
        (l g : List Shared) (w : World Sys)
        → (is_client_initiated id ≡ false → id / 4 ≤ 0)
        → Well ext k l g w
        → Post {A = (Connection × Shared) × World Sys}
            (λ x. SoundIn ext k (chans l ++ chans g) x.0.1 x.1)
            (from_incoming ext.con fuel cnx id ptr size event keep default w)
    unfolding from_incoming create_builder Con.new_context
    from_incoming-Sound fuel cnx id ptr size default event keep l g w known h =
        let peer = ext.con.streams.cnx_peer_addr cnx w.sys in
        let local = ext.con.cnx_local_addr cnx w.sys in
        let ((builder, s), v) = create_builder ext.con cnx peer local false keep default w in
        let kept =
          Well-Less ext k l g w v
            (views-Less w v
              (create_builder-keeps ext.con k.next doors.numbers.begins cnx peer local false keep
                default w)
              (λ d.
                create_builder-keeps ext.con (k.waits d) (doors.waits d).begins cnx peer local false
                  keep default w))
            h in
        Post-bind (λ x. SoundIn ext k (chans l ++ chans g) x.0 x.1) _
          (connection_callback ext.con fuel id ptr size event s v) _
          (connection_callback-Sound ext.con k AreControls tt (chans l ++ chans g) fuel id ptr size
            event s v known (empty-Sound ext k l g s v refl kept))
          (λ x sound. sound)

    pub new_connection_callback-Well :
        (fuel cnx id ptr size : ℕ) (event : Event) (c : CContext) (g : List Shared) (w : World Sys)
        → (is_client_initiated id ≡ false → id / 4 ≤ 0)
        → Well ext k c.connections g w
        → Post {A = CContext × World Sys}
            (λ x. Well ext k x.0.connections g x.1)
            (new_connection_callback ext fuel cnx id ptr size event c w)
    unfolding new_connection_callback
    new_connection_callback-Well fuel cnx id ptr size event c g w known h =
        let P : CContext × World Sys → Type 0 = λ x. Well ext k x.0.connections g x.1 in
        Post-if P (is_going_to_close ext.state_closing (ext.cnx_state cnx w.sys)) (done (c, w)) _ h
          (Post-bind (λ x. SoundIn ext k (chans c.connections ++ chans g) x.0.1 x.1) P
            (from_incoming ext.con fuel cnx id ptr size event c.server_keep_alive_interval
              c.stream_send_channel_default_size w)
            _
            (from_incoming-Sound fuel cnx id ptr size c.stream_send_channel_default_size event
              c.server_keep_alive_interval c.connections g w known h)
            (λ x sound.
              let w' = (on_sys x.1 (ext.new_cons.unbounded_send c.send_con x.0.0 x.1.sys)).1 in
              Well-Less ext k (c.connections ++ x.0.1 ∷ []) g x.1 w'
                (views-Less x.1 w' (doors.numbers.announces c.send_con x.0.0 x.1.sys)
                  (λ d. (doors.waits d).announces c.send_con x.0.0 x.1.sys))
                (Well-push ext k c.connections g x.0.1 x.1 sound h.1 h.2)))

-- ===== src/Inner/Counted.antt =====
-- src/context_inner.rs: who was answered or waits for a connection, counted over what the driving
-- future does.
use picoquic_rs.Base.{
  ℕ, ◌+◌, ◌≤◌, ◌≡◌, refl, sym, ap, ◌∙◌, Bool, List, [], ◌∷◌, ◌++◌, map, append-nil, Option, none,
  some, Result, ok, err, done, Post, Post-bind, Post-if, panic, true, false, if◌then◌else◌, ◌==◌,
  arith,
}
use picoquic_rs.Errors.{Error, from_foreign, nul_error}
use Prim.Native.String.{String}
use picoquic_rs.World.{World, on_sys}
use picoquic_rs.Stream.Types.{SocketAddr, Event}
use picoquic_rs.Ffi.Cnx.{new_cnx, is_going_to_close}
use picoquic_rs.Ffi.MicroSeconds.{Duration}
use picoquic_rs.Connection.Types.{Connection, ConnectionBuilder}
use picoquic_rs.Connection.Context as Con
use picoquic_rs.Connection.Callback.{
  Shared, connection_callback, create, create_builder, from_incoming,
}
use picoquic_rs.Connection.Begins.{Begins, create_builder-keeps}
use picoquic_rs.Connection.Asking.{Asking}
use picoquic_rs.Connection.Ledger.{pending, ledger, connection_callback-ledger}
use picoquic_rs.Inner.Accept.{CContext, Ext, new_connection_callback, push_made}

-- How often a number is in a list.
abbrev pub count : ℕ → List ℕ → ℕ
count x [] = 0
count x (y ∷ l) = (if y == x then 1 else 0) + count x l

count-append : (x : ℕ) (l m : List ℕ) → count x (l ++ m) ≡ count x l + count x m
count-append x [] m = omega arith
count-append x (y ∷ l) m = omega (arith, count-append x l m)

-- How often someone waits for one of these connections.
abbrev pub waiting : ℕ → List Shared → ℕ
waiting x [] = 0
waiting x (s ∷ l) = count x (pending s.context.wait_for_ready_state) + waiting x l

pub waiting-at :
    (x : ℕ) (a b : List Shared) (s : Shared)
    → waiting x (a ++ s ∷ b) ≡ waiting x (a ++ b) + count x (pending s.context.wait_for_ready_state)
waiting-at x [] b s = omega arith
waiting-at x (t ∷ a) b s = omega (arith, waiting-at x a b s)

module _ {Sys : Type 0} (ext : Ext Sys) (E : World Sys → World Sys → Type 0)
    (k : Asking ext.con) where
  -- What else the driving future uses leaves the answers to requests for connections alone.
  pub record Leaves : Type 0 where
    pub elsewhere : (w v : World Sys) → E w v → k.connected v.sys ≡ k.connected w.sys
    pub requests : (c : ℕ) (s : Sys) → k.connected (ext.requests.poll c s).1 ≡ k.connected s
    pub client :
        (a : SocketAddr) (n : String) (t : ℕ) (s : Sys)
        → k.connected (ext.create_client_cnx a n t s).1 ≡ k.connected s
    pub announces :
        (c : ℕ) (con : Connection) (s : Sys)
        → k.connected (ext.new_cons.unbounded_send c con s).1 ≡ k.connected s
    pub channel : (s : Sys) → k.connected (ext.con.msgs.unbounded s).1 ≡ k.connected s
    pub oneshot : (s : Sys) → k.connected (ext.con.create_oneshot s).1 ≡ k.connected s
    pub create_requests : (s : Sys) → k.connected (ext.con.create_requests s).1 ≡ k.connected s

  -- How often someone was answered.
  abbrev pub answered : ℕ → World Sys → ℕ
  answered x w = count x (map (λ a. a.0) (k.connected w.sys))

  abbrev pub total : ℕ → CContext → List Shared → World Sys → ℕ
  total x c g w = answered x w + waiting x c.connections + waiting x g

  pub ledger-count :
      (x : ℕ) (s t : Shared) (w v : World Sys)
      → ledger ext.con k t.context v ≡ ledger ext.con k s.context w
      → answered x v + count x (pending t.context.wait_for_ready_state)
        ≡ answered x w + count x (pending s.context.wait_for_ready_state)
  ledger-count x s t w v e =
      sym (count-append x (map (λ a. a.0) (k.connected v.sys)) _)
      ∙ ap (count x) e
      ∙ count-append x (map (λ a. a.0) (k.connected w.sys)) _

  module _ (l : Leaves) where
    -- Where one of the connections makes a step, the sum stays the same.
    pub step-count :
        (x : ℕ) (a b : List Shared) (s t : Shared) (w v : World Sys)
        → ledger ext.con k t.context v ≡ ledger ext.con k s.context w
        → answered x v + waiting x (a ++ t ∷ b) ≡ answered x w + waiting x (a ++ s ∷ b)
    step-count x a b s t w v e =
        omega (arith, ledger-count x s t w v e, waiting-at x a b s, waiting-at x a b t)

    pub new_cnx-keeps :
        (addr : SocketAddr) (name : String) (now : ℕ) (w : World Sys)
        → Post
            (λ x. k.connected x.1.sys ≡ k.connected w.sys)
            (new_cnx
              (ext.is_unspecified addr)
              (ext.has_nul name)
              (λ v. on_sys v (ext.create_client_cnx addr name now v.sys))
              w)
    unfolding new_cnx
    new_cnx-keeps addr name now w =
        let P : Result ℕ Error × World Sys → Type 0 =
          λ x. k.connected x.1.sys ≡ k.connected w.sys in
        Post-if P (ext.is_unspecified addr) panic _ tt (
          Post-if P (ext.has_nul name) (done (err (from_foreign nul_error), w)) _ refl
            (l.client addr name now w.sys))

    begins : Begins ext.con k.connected
    begins = record {
      channel = l.channel;
      oneshot = l.oneshot;
      create_requests = l.create_requests;
      polls = k.polls;
      calls = k.aside.apart.called;
    }

    pub waiting-last :
        (x : ℕ) (m : List Shared) (s : Shared)
        → waiting x (m ++ s ∷ []) ≡ waiting x m + count x (pending s.context.wait_for_ready_state)
    waiting-last x m s = omega (arith, waiting-at x m [] s, ap (waiting x) (append-nil m))

    -- A connection is added.
    push-count :
        (x : ℕ) (o : Option (ConnectionBuilder × ℕ)) (c : CContext) (g : List Shared) (t : Shared)
        (w v : World Sys)
        → t.context.wait_for_ready_state ≡ o
        → k.connected v.sys ≡ k.connected w.sys
        → total x (record c { connections = c.connections ++ t ∷ [] }) g v
          ≡ total x c g w + count x (pending o)
    push-count x o c g t w v e same = omega (
      arith,
      waiting-last x c.connections t,
      ap (λ o. count x (pending o)) e,
      ap (λ a. count x (map (λ b. b.0) a)) same,
    )

    pub create-count :
        (x size sender : ℕ) (cnx : Result ℕ Error) (peer local : SocketAddr)
        (keep : Option Duration) (c : CContext) (g : List Shared) (w : World Sys)
        → let (made, v) = create ext.con cnx peer local keep sender size w in
          total x (push_made c made) g v ≤ total x c g w + count x (sender ∷ [])
    unfolding create
    create-count x size sender (err e) peer local keep c g w = omega arith
    create-count x size sender (ok cnx) peer local keep c g w =
        let ((builder, shared), v) = create_builder ext.con cnx peer local true keep size w in
        let ctx = shared.context in
        let t : Shared = record shared {
          context = record ctx { wait_for_ready_state = some (builder, sender) };
        } in
        let e =
          push-count x (some (builder, sender)) c g t w v refl
            (create_builder-keeps ext.con k.connected begins cnx peer local true keep size w) in
        omega (arith, e)

    builder_waits :
        (cnx : ℕ) (peer local : SocketAddr) (client : Bool) (keep : Option Duration) (size : ℕ)
        (w : World Sys)
        → (create_builder ext.con cnx peer local client keep size
            w).0.1.context.wait_for_ready_state
          ≡ none
    unfolding create_builder Con.new_context
    builder_waits cnx peer local client keep size w = refl

    from_incoming-count :
        (x fuel cnx id ptr size default : ℕ) (event : Event) (keep : Option Duration)
        (w : World Sys)
        → Post
            (λ y.
              answered x y.1 + count x (pending y.0.1.context.wait_for_ready_state) ≡ answered x w)
            (from_incoming ext.con fuel cnx id ptr size event keep default w)
    unfolding from_incoming
    from_incoming-count x fuel cnx id ptr size default event keep w =
        let peer = ext.con.streams.cnx_peer_addr cnx w.sys in
        let local = ext.con.cnx_local_addr cnx w.sys in
        let ((builder, s), v) = create_builder ext.con cnx peer local false keep default w in
        let same =
          ap (λ a. count x (map (λ b. b.0) a))
            (create_builder-keeps ext.con k.connected begins cnx peer local false keep default w) in
        let none_waits =
          ap (λ o. count x (pending o)) (builder_waits cnx peer local false keep default w) in
        Post-bind (λ y. ledger ext.con k y.0.context y.1 ≡ ledger ext.con k s.context v) _
          (connection_callback ext.con fuel id ptr size event s v) _
          (connection_callback-ledger ext.con k fuel id ptr size event s v)
          (λ y e. omega (arith, ledger-count x s y.0 v y.1 e, same, none_waits))

    pub new_connection_callback-count :
        (x fuel cnx id ptr size : ℕ) (event : Event) (c : CContext) (g : List Shared)
        (w : World Sys)
        → Post
            (λ y. total x y.0 g y.1 ≡ total x c g w)
            (new_connection_callback ext fuel cnx id ptr size event c w)
    unfolding new_connection_callback
    new_connection_callback-count x fuel cnx id ptr size event c g w =
        Post-if (λ y. total x y.0 g y.1 ≡ total x c g w)
          (is_going_to_close ext.state_closing (ext.cnx_state cnx w.sys)) (done (c, w)) _ refl
          (Post-bind
            (λ y.
              answered x y.1 + count x (pending y.0.1.context.wait_for_ready_state) ≡ answered x w)
            (λ y. total x y.0 g y.1 ≡ total x c g w)
            (from_incoming ext.con fuel cnx id ptr size event c.server_keep_alive_interval
              c.stream_send_channel_default_size w)
            _
            (from_incoming-count x fuel cnx id ptr size c.stream_send_channel_default_size event
              c.server_keep_alive_interval w)
            (λ y e.
              let same =
                ap (λ a. count x (map (λ b. b.0) a)) (l.announces c.send_con y.0.0 y.1.sys) in
              omega (arith, e, same, waiting-last x c.connections y.0.1)))

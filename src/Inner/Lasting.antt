-- ===== src/Inner/Lasting.antt =====
-- src/context_inner.rs: the connections of a context can be polled all its life.
use picoquic_rs.Base.{
  ℕ, ◌≡◌, ap, subst, arith, false, List, [], ◌∷◌, ◌++◌, Option, some, ok, ready, not_ready, Result,
  done, Post,
}
use picoquic_rs.Errors.{Error}
use picoquic_rs.Stream.Types.{SocketAddr}
use picoquic_rs.Ffi.Cnx.{new_cnx}
use picoquic_rs.Ffi.MicroSeconds.{Duration}
use Prim.Native.String.{String}
use picoquic_rs.World.{World, on_sys}
use picoquic_rs.Connection.Callback.{Shared, create, release}
use picoquic_rs.Connection.Waiting.{Waiting}
use picoquic_rs.Connection.Lasting.{fits}
use picoquic_rs.Connection.Lasts.{release-Sound}
use picoquic_rs.Stream.Controls.{AreControls}
use picoquic_rs.Inner.Accept as Accept
use picoquic_rs.Inner.Accept.{CContext, Ext, push_made}
use picoquic_rs.Inner.Life.{
  Life, stay, took, looked, accepted, called, called_gone, polled, finished, meanwhile,
}
use picoquic_rs.Inner.Crowd.{chans, cnxs, still_open, poll_all}
use picoquic_rs.Inner.Well.{Well, Well-swap, Well-remove, Well-replace}
use picoquic_rs.Inner.Entering.{
  Doors, polled-Well, new_cnx-Well, create-Well, new_connection_callback-Well,
}
use picoquic_rs.Inner.Orderly.{Orderly, Provided, polled-one, called-one, sent-Well}

module _ {Sys : Type 0} (ext : Ext Sys) (k : Waiting ext.con) (doors : Doors ext k)
    (E : World Sys → World Sys → Type 0) where
  took-Well :
      (recv now size sender : ℕ) (local_addr addr : SocketAddr) (name : String)
      (keep : Option Duration) (cnx : Result ℕ Error) (made : Result Shared Error) (c : CContext)
      (g : List Shared) (w w₁ w₂ w₃ : World Sys)
      → on_sys w (ext.requests.poll recv w.sys) ≡ (ok (ready (some (addr, name, sender))), w₁)
      → new_cnx
          (ext.is_unspecified addr)
          (ext.has_nul name)
          (λ v. on_sys v (ext.create_client_cnx addr name now v.sys))
          w₁
        ≡ done (cnx, w₂)
      → create ext.con cnx addr local_addr keep sender size w₂ ≡ (made, w₃)
      → Well ext k c.connections g w
      → Well ext k (push_made c made).connections g w₃
  took-Well recv now size sender la addr name keep cnx made c g w w₁ w₂ w₃ e f h well =
      let received =
        subst (Well ext k c.connections g) (ap (λ x. x.1) e)
          (polled-Well ext k doors recv c.connections g w well) in
      let asked = new_cnx-Well ext k doors addr name now c.connections g w₁ w₂ cnx f received in
      subst
        (λ (x : Result Shared Error × World Sys). Well ext k (push_made c x.0).connections g x.1) h
        (create-Well ext k doors cnx addr la keep sender size c g w₂ asked)

  Life-Well :
      (c c' : CContext) (g g' : List Shared) (w w' : World Sys) (ks : List ℕ)
      (life : Life ext E c g w ks c' g' w')
      → Orderly ext k life
      → Well ext k c.connections g w
      → Well ext k c'.connections g' w'
  Life-Well c _ g _ w _ _ stay o h = h
  Life-Well c c' g g' w w' _
        (took {w₁ = w₁} {w₂ = w₂} {w₃ = w₃} {ks = ks} recv now size sender la addr name keep cnx
          made e f s more)
        o h =
      Life-Well (push_made c made) c' g g' w₃ w' ks more o
        (took-Well recv now size sender la addr name keep cnx made c g w w₁ w₂ w₃ e f s h)
  Life-Well c c' g g' w w' ks (looked recv none_there more) o h =
      Life-Well c c' g g' (on_sys w (ext.requests.poll recv w.sys)).1 w' ks more o
        (polled-Well ext k doors recv c.connections g w h)
  Life-Well c c' g g' w w' ks (accepted {c₁ = c₁} {w₁ = v} fuel cnx id ptr size event run more) o
        h =
      Life-Well c₁ c' g g' v w' ks more o.1 (
        subst (Post {A = CContext × World Sys} (λ x. Well ext k x.0.connections g x.1)) run
          (new_connection_callback-Well ext k doors fuel cnx id ptr size event c g w o.0 h))
  Life-Well c c' g g' w w' ks (called {w₁ = v} a b s s₁ fuel id ptr size event e run more) o h =
      Life-Well (record c { connections = a ++ s₁ ∷ b }) c' g g' v w' ks more o.1
        (called-one ext k fuel id ptr size event a b g s s₁ w v run o.0
          (subst (λ l. Well ext k l g w) e h))
  Life-Well c c' g g' w w' ks (called_gone {w₁ = v} a b s s₁ fuel id ptr size event e run more) o
        h =
      let swapped =
        subst (λ l. Well ext k l c.connections w) e (Well-swap ext k c.connections g w h) in
      Life-Well c c' (a ++ s₁ ∷ b) g' v w' ks more o.1 (
        Well-swap ext k (a ++ s₁ ∷ b) c.connections v
          (called-one ext k fuel id ptr size event a b c.connections s s₁ w v run o.0 swapped))
  Life-Well c c' g g' w w' ks (polled {w₁ = v} a b s ctx fuel e run more) o h =
      Life-Well (record c { connections = a ++ record s { context = ctx } ∷ b }) c' g g' v w' ks
        more o.1
        (polled-one ext k fuel a b g s not_ready ctx w v run
          (subst (λ l. Provided ext k fuel l g w.sys) e o.0) (subst (λ l. Well ext k l g w) e h))
  Life-Well c c' g g' w w' ks (finished {w₁ = v} a b s ctx fuel e run more) o h =
      let t : Shared = record s { context = ctx } in
      let (s', u) = release ext.con t v in
      Life-Well (record c { connections = a ++ b }) c' (s' ∷ g) g' u w' ks more o.1
        (Well-remove ext k a b g s' u (
          Well-replace ext k a b g t s' v u
            (λ sound. release-Sound ext.con k AreControls tt (chans (a ++ b) ++ chans g) t v sound)
            (polled-one ext k fuel a b g s (ready tt) ctx w v run
              (subst (λ l. Provided ext k fuel l g w.sys) e o.0)
              (subst (λ l. Well ext k l g w) e h))))
  Life-Well c c' g g' w w' ks (meanwhile {w₁ = v} other more) o h =
      Life-Well c c' g g' v w' ks more o.1 (sent-Well ext k c.connections g w v o.0 h)

  -- A context begins without connections, and goes through any steps of the life of its
  -- connections: requests for connections, connections that come in, picoquic's callbacks for
  -- connections that are there or were let go, polls of one connection, which is let go when it is
  -- finished, and the outside sending the streams resets and swaps; with the last reference to a
  -- connection, the context's or picoquic's, it is dropped with its streams. Callbacks are for
  -- streams of the peer, or of ours with a number that was given, and polls have fuel for what
  -- waits, with numbers of streams below 2 ^ 62. The channels of messages are queues that only
  -- sending, polling and dropping the receiver change, a channel that is made is empty and has a
  -- new number, the channels of bytes have no errors of their own, the requests for streams that
  -- wait are counted, and making, asking for and announcing connections changes none of this. Then
  -- a poll of all connections returns, with fuel for more rounds than messages wait for any stream
  -- and than requests wait, and with numbers below 2 ^ 62: no connection panics. Exactly the
  -- connections that are not closed are kept, in order.
  pub Life-poll :
      (c c' : CContext) (g' : List Shared) (w w' : World Sys) (ks : List ℕ) (fuel : ℕ)
      (life : Life ext E c [] w ks c' g' w')
      → c.connections ≡ []
      → Orderly ext k life
      → Provided ext k fuel c'.connections g' w'.sys
      → (l : List Shared) × (v : World Sys) × (Accept.poll ext fuel c'.connections w' ≡ done (l, v))
        × (cnxs l ≡ cnxs (still_open c'.connections))
  Life-poll c c' g' w w' ks fuel life e o f =
      let begun : Well ext k c.connections [] w = (
        record {
          is_control = λ d. false;
          below = λ d h. ground (arith, h);
          mine = rw e tt;
          theirs = tt;
        },
        rw e tt,
        tt,
      ) in
      let (h, own, gone) = Life-Well c c' [] g' w w' ks life o begun in
      let i = h.is_control in
      poll_all ext k fuel (omega (arith, f.requests)) c'.connections (chans g') w'
        (record {
          is_control = i;
          below = h.below;
          mine = fits ext.con k fuel (chans c'.connections) i w'.sys h.mine f.here;
          theirs = fits ext.con k fuel (chans g') i w'.sys h.theirs f.gone;
        })
        own f.requests f.numbers

-- ===== src/Inner/Answered.antt =====
-- src/context_inner.rs: over the life of the connections, nobody who asks for a connection is answered
-- more often than he asked.
use picoquic_rs.Base.{
  ℕ, ◌+◌, ◌≤◌, ◌≡◌, sym, ap, subst, ◌∙◌, List, [], ◌∷◌, ◌++◌, map, done, Post, Async, ready,
  not_ready, arith,
}
use picoquic_rs.World.{World, on_sys}
use picoquic_rs.Stream.Types.{Event}
use picoquic_rs.Connection.Types.{Context}
use picoquic_rs.Connection.Context as Con
use picoquic_rs.Connection.Callback.{Shared, connection_callback, release}
use picoquic_rs.Connection.Released.{release-keeps}
use picoquic_rs.Connection.Asking.{Asking}
use picoquic_rs.Connection.Ledger.{ledger, connection_callback-ledger, poll-ledger}
use picoquic_rs.Inner.Accept.{CContext, Ext, push_made}
use picoquic_rs.Inner.Life.{
  Life, stay, took, looked, accepted, called, called_gone, polled, finished, meanwhile,
}
use picoquic_rs.Inner.Counted.{
  count, waiting, waiting-at, Leaves, answered, total, step-count, new_cnx-keeps, create-count,
  new_connection_callback-count,
}

module _ {Sys : Type 0} (ext : Ext Sys) (E : World Sys → World Sys → Type 0)
    (k : Asking ext.con) where
  quiet-total :
      (x : ℕ) (c : CContext) (g : List Shared) (w v : World Sys)
      → k.connected v.sys ≡ k.connected w.sys
      → total ext E k x c g v ≡ total ext E k x c g w
  quiet-total x c g w v same = omega (arith, ap (λ a. count x (map (λ b. b.0) a)) same)

  -- A callback and a poll of a connection, as far as they return, keep the sum.
  called-count :
      (x fuel id ptr size : ℕ) (event : Event) (a b : List Shared) (s t : Shared) (w v : World Sys)
      → Leaves ext E k
      → connection_callback ext.con fuel id ptr size event s w ≡ done (t, v)
      → answered ext E k x v + waiting x (a ++ t ∷ b)
        ≡ answered ext E k x w + waiting x (a ++ s ∷ b)
  called-count x fuel id ptr size event a b s t w v l run = step-count ext E k l x a b s t w v (
      subst (Post (λ y. ledger ext.con k y.0.context y.1 ≡ ledger ext.con k s.context w)) run
        (connection_callback-ledger ext.con k fuel id ptr size event s w))

  polled-count :
      (x fuel : ℕ) (r : Async (Unit {0})) (ctx : Context) (a b : List Shared) (s : Shared)
      (w v : World Sys)
      → Leaves ext E k
      → Con.poll ext.con fuel s.context w ≡ done (r, ctx, v)
      → answered ext E k x v + waiting x (a ++ record s { context = ctx } ∷ b)
        ≡ answered ext E k x w + waiting x (a ++ s ∷ b)
  polled-count x fuel r ctx a b s w v l run =
      step-count ext E k l x a b s (record s { context = ctx }) w v
        (subst (Post (λ y. ledger ext.con k y.1 y.2 ≡ ledger ext.con k s.context w)) run
          (poll-ledger ext.con k fuel s.context w))

  -- Where an answer to a request for a connection is appended to the list of these answers and
  -- nothing else changes that list: over any steps of the life of the connections of a context, with
  -- the requests for connections that are received in them, the number of times that someone was
  -- answered, added to the number of connections, there or let go, for which he waits, grows by no
  -- more than the number of his requests that were received. So nobody is answered twice for one
  -- request, whatever the connections, picoquic and the outside do in between.
  pub Life-answered :
      (x : ℕ) (c c' : CContext) (g g' : List Shared) (w w' : World Sys) (ks : List ℕ)
      → Leaves ext E k
      → Life ext E c g w ks c' g' w'
      → total ext E k x c' g' w' ≤ total ext E k x c g w + count x ks
  unfolding release
  Life-answered x c _ g _ w _ _ l stay = omega arith
  Life-answered x c c' g g' w w' _ l
        (took {w₁ = w₁} {w₂ = w₂} {w₃ = w₃} {ks = ks} recv now size sender la addr name keep cnx
          made e run new more) =
      let rest = Life-answered x (push_made c made) c' g g' w₃ w' ks l more in
      let first =
        quiet-total x c g w w₁ (sym (ap (λ q. k.connected q.1.sys) e) ∙ l.requests recv w.sys) in
      let second = quiet-total x c g w₁ w₂ (
        subst (Post (λ q. k.connected q.1.sys ≡ k.connected w₁.sys)) run
          (new_cnx-keeps ext E k l addr name now w₁)) in
      let third =
        subst
          (λ q.
            total ext E k x (push_made c q.0) g q.1
            ≤ total ext E k x c g w₂ + count x (sender ∷ []))
          new (create-count ext E k l x size sender cnx addr la keep c g w₂) in
      omega (arith, rest, first, second, third)
  Life-answered x c c' g g' w w' ks l (looked recv h more) =
      let v = (on_sys w (ext.requests.poll recv w.sys)).1 in
      omega (
        arith,
        Life-answered x c c' g g' v w' ks l more,
        quiet-total x c g w v (l.requests recv w.sys),
      )
  Life-answered x c c' g g' w w' ks l
        (accepted {c₁ = d} {w₁ = v} fuel cnx id ptr size event run more) =
      let same =
        subst (Post (λ y. total ext E k x y.0 g y.1 ≡ total ext E k x c g w)) run
          (new_connection_callback-count ext E k l x fuel cnx id ptr size event c g w) in
      omega (arith, Life-answered x d c' g g' v w' ks l more, same)
  Life-answered x c c' g g' w w' ks l (called {w₁ = v} a b s t fuel id ptr size event e run more) =
      omega (
        arith,
        Life-answered x (record c { connections = a ++ t ∷ b }) c' g g' v w' ks l more,
        called-count x fuel id ptr size event a b s t w v l run,
        ap (waiting x) e,
      )
  Life-answered x c c' g g' w w' ks l
        (called_gone {w₁ = v} a b s t fuel id ptr size event e run more) =
      omega (
        arith,
        Life-answered x c c' (a ++ t ∷ b) g' v w' ks l more,
        called-count x fuel id ptr size event a b s t w v l run,
        ap (waiting x) e,
      )
  Life-answered x c c' g g' w w' ks l (polled {w₁ = v} a b s ctx fuel e run more) = omega (
    arith,
    Life-answered x (record c { connections = a ++ record s { context = ctx } ∷ b }) c' g g' v w' ks
        l more,
    polled-count x fuel not_ready ctx a b s w v l run,
    ap (waiting x) e,
  )
  Life-answered x c c' g g' w w' ks l (finished {w₁ = v} a b s ctx fuel e run more) =
      let t : Shared = record s { context = ctx } in
      let (t', u) = release ext.con t v in
      let c₁ : CContext = record c { connections = a ++ b } in
      omega (
        arith,
        Life-answered x c₁ c' (t' ∷ g) g' u w' ks l more,
        quiet-total x c₁ (t' ∷ g) v u (release-keeps ext.con k.connected k.aside t v),
        polled-count x fuel (ready tt) ctx a b s w v l run,
        waiting-at x a b t',
        waiting-at x a b t,
        ap (waiting x) e,
      )
  Life-answered x c c' g g' w w' ks l (meanwhile {w₁ = v} other more) = omega (
    arith,
    Life-answered x c c' g g' v w' ks l more,
    quiet-total x c g w v (l.elsewhere w v other),
  )

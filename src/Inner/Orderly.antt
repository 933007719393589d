-- ===== src/Inner/Orderly.antt =====
-- src/context_inner.rs: what the steps of the life of the connections are supposed to be, and all is well
-- after one of them.
use picoquic_rs.Base.{
  ℕ, ◌/◌, ◌<◌, ◌≤◌, ◌≡◌, sym, subst, arith, false, List, ◌∷◌, ◌++◌, ready, not_ready, Async, done,
  Post, if◌then◌else◌,
}
use picoquic_rs.World.{World}
use picoquic_rs.Stream.Types.{Event}
use picoquic_rs.Stream.Id.{is_client_initiated}
use picoquic_rs.Stream.Controls.{AreControls}
use picoquic_rs.Connection.Context as Con
use picoquic_rs.Connection.Types.{Context}
use picoquic_rs.Connection.Callback.{Shared, connection_callback}
use picoquic_rs.Connection.Waiting.{Waiting, Channels, All, Fine}
use picoquic_rs.Connection.Lasts.{Known, connection_callback-Sound}
use picoquic_rs.Connection.Lasting.{Enough, poll-Sound, All-both}
use picoquic_rs.Inner.Accept.{CContext, Ext}
use picoquic_rs.Inner.Life.{
  Life, stay, took, looked, accepted, called, called_gone, polled, finished, meanwhile,
}
use picoquic_rs.Inner.Crowd.{chans, All-append, Numbers}
use picoquic_rs.Inner.Well.{Well, chans-split, All-split, Well-replace, SoundIn}

module _ {Sys : Type 0} (ext : Ext Sys) (k : Waiting ext.con) where
  -- The outside sends the streams of these connections only resets and swaps.
  pub record Sends (l g : List Shared) (s s' : Sys) : Type 0 where
    pub numbers : k.next s ≤ k.next s'
    pub here : All (λ c. AreControls (k.waits c.1 s) → AreControls (k.waits c.1 s')) (chans l)
    pub gone : All (λ c. AreControls (k.waits c.1 s) → AreControls (k.waits c.1 s')) (chans g)

  -- A poll with this fuel has enough for what waits for any stream, and the numbers of streams stay
  -- below 2 ^ 62.
  pub record Provided (fuel : ℕ) (l g : List Shared) (s : Sys) : Type 0 where
    pub here : All (Enough ext.con k fuel s) (chans l)
    pub gone : All (Enough ext.con k fuel s) (chans g)
    pub requests : k.asked s < fuel
    pub numbers : All (Numbers ext k s) l

  -- What the steps are supposed to be: picoquic's callbacks are for streams of the peer, or of ours
  -- with a number that was given; polls of one connection have fuel for what waits; and the outside
  -- sends the streams only resets and swaps.
  abbrev pub Orderly :
      {E : World Sys → World Sys → Type 0} {c c' : CContext} {g g' : List Shared} {w w' : World Sys}
      {ks : List ℕ}
      → Life ext E c g w ks c' g' w'
      → Type 0
  Orderly stay = Unit
  Orderly (took recv now size sender la addr name keep cnx made e f h more) = Orderly more
  Orderly (looked recv h more) = Orderly more
  Orderly (accepted fuel cnx id ptr size event run more) =
      (is_client_initiated id ≡ false → id / 4 ≤ 0) × Orderly more
  Orderly (called a b s s₁ fuel id ptr size event e run more) = Known id s.context × Orderly more
  Orderly (called_gone a b s s₁ fuel id ptr size event e run more) =
      Known id s.context × Orderly more
  Orderly (polled {c = c} {g = g} {w = w} a b s ctx fuel e run more) =
      Provided fuel c.connections g w.sys × Orderly more
  Orderly (finished {c = c} {g = g} {w = w} a b s ctx fuel e run more) =
      Provided fuel c.connections g w.sys × Orderly more
  Orderly (meanwhile {c = c} {g = g} {w = w} {w₁ = v} other more) =
      Sends c.connections g w.sys v.sys × Orderly more

  poll-focus :
      (fuel : ℕ) (a b g : List Shared) (s : Shared) (w : World Sys)
      → Provided fuel (a ++ s ∷ b) g w.sys
      → SoundIn ext k (chans (a ++ b) ++ chans g) s w
      → (ctx' : Context) × (w' : World Sys) × (Con.poll ext.con fuel s.context w
          ≡ done (if s.context.closed then ready tt else not_ready, ctx', w'))
        × SoundIn ext k (chans (a ++ b) ++ chans g) (record s { context = ctx' }) w'
  poll-focus fuel a b g s w p h =
      let P = Enough ext.con k fuel w.sys in
      let (mine, rest) = chans-split P a b s p.here in
      poll-Sound ext.con k (chans (a ++ b) ++ chans g) fuel s.context w h
        (All-append P (chans (a ++ b)) (chans g) rest p.gone)
        (record {
          controls = mine;
          requests = p.requests;
          numbers = (All-split (Numbers ext k w.sys) a b s p.numbers).0;
        })

  -- A poll of one connection leaves all well.
  pub polled-one :
      (fuel : ℕ) (a b g : List Shared) (s : Shared) (r : Async (Unit {0})) (ctx : Context)
      (w v : World Sys)
      → Con.poll ext.con fuel s.context w ≡ done (r, ctx, v)
      → Provided fuel (a ++ s ∷ b) g w.sys
      → Well ext k (a ++ s ∷ b) g w
      → Well ext k (a ++ record s { context = ctx } ∷ b) g v
  polled-one fuel a b g s r ctx w v run p h =
      Well-replace ext k a b g s (record s { context = ctx }) w v
        (λ sound.
          let (c, u, returned, still) = poll-focus fuel a b g s w p sound in
          let P : Async (Unit {0}) × Context × World Sys → Type 0 =
            λ x. SoundIn ext k (chans (a ++ b) ++ chans g) (record s { context = x.1 }) x.2 in
          subst (Post P) run (subst (Post P) (sym returned) still))
        h

  -- A callback for one connection leaves all well.
  pub called-one :
      (fuel id ptr size : ℕ) (event : Event) (a b g : List Shared) (s s₁ : Shared) (w v : World Sys)
      → connection_callback ext.con fuel id ptr size event s w ≡ done (s₁, v)
      → Known id s.context
      → Well ext k (a ++ s ∷ b) g w
      → Well ext k (a ++ s₁ ∷ b) g v
  called-one fuel id ptr size event a b g s s₁ w v run known h =
      let others = chans (a ++ b) ++ chans g in
      Well-replace ext k a b g s s₁ w v
        (λ sound. subst (Post {A = Shared × World Sys} (λ x. SoundIn ext k others x.0 x.1)) run (
          connection_callback-Sound ext.con k AreControls tt others fuel id ptr size event s w known
            sound))
        h

  pub sent-Well :
      (l g : List Shared) (w v : World Sys)
      → Sends l g w.sys v.sys
      → Well ext k l g w
      → Well ext k l g v
  sent-Well l g w v e (h, o, p) =
      let i = h.is_control in
      let move : (c : Channels)
          → Fine ext.con k AreControls i w.sys c
          → (AreControls (k.waits c.1 w.sys) → AreControls (k.waits c.1 v.sys))
          → Fine ext.con k AreControls i v.sys c =
        λ c (a, b, n, t) f. (a, b, omega (arith, n, e.numbers), f t) in
      (
        record {
          is_control = i;
          below = λ d t. omega (arith, h.below d t, e.numbers);
          mine = All-both _ _ _ (chans l) move h.mine e.here;
          theirs = All-both _ _ _ (chans g) move h.theirs e.gone;
        },
        o,
        p,
      )

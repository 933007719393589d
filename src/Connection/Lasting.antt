-- ===== src/Connection/Lasting.antt =====
-- src/connection.rs: a connection can be polled all its life.
use picoquic_rs.Base.{
  ℕ, Bool, ◌+◌, ◌^◌, ◌<◌, ◌≤◌, ◌≡◌, sym, subst, arith, false, List, [], ◌∷◌, length, ready,
  not_ready, done, Post, if◌then◌else◌,
}
use picoquic_rs.World.{World}
use picoquic_rs.Stream.Controls.{AreControls}
use picoquic_rs.Connection.Types.{Context, Ext, Streams}
use picoquic_rs.Connection.Context.{poll}
use picoquic_rs.Connection.Callback.{Shared}
use picoquic_rs.Connection.Steps.{Steps, stay, called, polled, meanwhile}
use picoquic_rs.Connection.Waiting.{Waiting, Channels, channels, All, Fine, All-map}
use picoquic_rs.Connection.Retained.{Fits}
use picoquic_rs.Connection.Returns.{Able, poll-Settled}
use picoquic_rs.Connection.Lasts.{Known, connection_callback-Sound}
use picoquic_rs.Connection.Failing.{Sound}

pub All-both :
    {A : Type 0} (P Q R : A → Type 0) (l : List A)
    → ((x : A) → P x → Q x → R x)
    → All P l
    → All Q l
    → All R l
All-both P Q R [] f p q = tt
All-both P Q R (x ∷ l) f p q = (f x p.0 q.0, All-both P Q R l f p.1 q.1)

module _ {Sys : Type 0} (ext : Ext Sys) (k : Waiting ext) where
  -- A poll with this fuel has enough for what waits, and the numbers of streams stay below 2 ^ 62.
  pub record Fueled (fuel : ℕ) (ctx : Context) (s : Sys) : Type 0 where
    pub controls : All (λ c. length (k.waits c.1 s) < fuel) (channels ctx.streams)
    pub requests : k.asked s < fuel
    pub numbers : ctx.next_stream_id + k.asked s + 1 < 2 ^ 62

  -- The outside sends the streams of the connection only resets and swaps.
  pub record Sends (m : Streams) (s s' : Sys) : Type 0 where
    pub numbers : k.next s ≤ k.next s'
    pub controls :
        All (λ c. AreControls (k.waits c.1 s) → AreControls (k.waits c.1 s')) (channels m)

  -- What the steps of a connection are supposed to be: picoquic's callbacks are for streams of the
  -- peer, or of ours with a number that was given; polls have fuel for what waits; and the outside
  -- sends the streams only resets and swaps.
  abbrev pub Orderly :
      {E : World Sys → World Sys → Type 0} {s s' : Shared} {w w' : World Sys}
      → Steps ext E s w s' w'
      → Type 0
  Orderly stay = Unit
  Orderly (called {s = s} fuel id ptr size event run more) = Known id s.context × Orderly more
  Orderly (polled {s = s} {w = w} fuel r ctx' run more) = Fueled fuel s.context w.sys × Orderly more
  Orderly (meanwhile {s = s} {w = w} {w' = v} other more) =
      Sends s.context.streams w.sys v.sys × Orderly more

  abbrev Alive : Context → World Sys → Type 0
  Alive = Sound ext k AreControls tt []

  -- Fuel for what waits in these channels.
  abbrev pub Enough : ℕ → Sys → Channels → Type 0
  Enough fuel s c = length (k.waits c.1 s) < fuel

  pub fits :
      (fuel : ℕ) (l : List Channels) (i : ℕ → Bool) (s : Sys)
      → All (Fine ext k AreControls i s) l
      → All (Enough fuel s) l
      → All (Fine ext k (Fits fuel) i s) l
  fits fuel l i s h f = All-both _ _ _ l (λ c (a, b, n, t) less. (a, b, n, (t, less))) h f

  forget :
      (fuel : ℕ) (l : List Channels) (i : ℕ → Bool) (s : Sys)
      → All (Fine ext k (Fits fuel) i s) l
      → All (Fine ext k AreControls i s) l
  forget fuel l i s h = All-map _ _ l (λ c (a, b, n, t). (a, b, n, t.0)) h

  -- A poll with fuel for what waits returns, next to other connections with these channels.
  pub poll-Sound :
      (others : List Channels) (fuel : ℕ) (ctx : Context) (w : World Sys)
      → Sound ext k AreControls tt others ctx w
      → All (Enough fuel w.sys) others
      → Fueled fuel ctx w.sys
      → (ctx' : Context) × (w' : World Sys) × (poll ext fuel ctx w
          ≡ done (if ctx.closed then ready tt else not_ready, ctx', w'))
        × Sound ext k AreControls tt others ctx' w'
  poll-Sound others fuel ctx w (g, o) e f =
      let i = g.is_control in
      let p : 0 < fuel = omega (arith, f.requests) in
      let able : Able ext k fuel p others ctx w = record {
        is_control = i;
        below = g.below;
        mine = fits fuel (channels ctx.streams) i w.sys g.mine f.controls;
        theirs = fits fuel others i w.sys g.theirs e;
      } in
      let (ctx', w', run, (g', o', n, b, c)) =
        poll-Settled ext k fuel p others ctx w able f.requests f.numbers o in
      (
        ctx',
        w',
        run,
        (
          record {
            is_control = g'.is_control;
            below = g'.below;
            mine = forget fuel (channels ctx'.streams) g'.is_control w'.sys g'.mine;
            theirs = forget fuel others g'.is_control w'.sys g'.theirs;
          },
          o',
        ),
      )

  poll-Alive :
      (fuel : ℕ) (ctx : Context) (w : World Sys)
      → Alive ctx w
      → Fueled fuel ctx w.sys
      → (ctx' : Context) × (w' : World Sys) × (poll ext fuel ctx w
          ≡ done (if ctx.closed then ready tt else not_ready, ctx', w'))
        × Alive ctx' w'
  poll-Alive fuel ctx w h f = poll-Sound [] fuel ctx w h tt f

  Sends-Alive :
      (ctx : Context) (w w' : World Sys)
      → Sends ctx.streams w.sys w'.sys
      → Alive ctx w
      → Alive ctx w'
  Sends-Alive ctx w w' e (g, o) = (
    record {
      is_control = g.is_control;
      below = λ d h. omega (arith, g.below d h, e.numbers);
      mine =
          All-both _ _ _ (channels ctx.streams)
            (λ c (a, b, n, t) f. (a, b, omega (arith, n, e.numbers), f t)) g.mine e.controls;
      theirs = tt;
    },
    o,
  )

  Steps-Alive :
      (E : World Sys → World Sys → Type 0) (s s' : Shared) (w w' : World Sys)
      (steps : Steps ext E s w s' w')
      → Orderly steps
      → Alive s.context w
      → Alive s'.context w'
  Steps-Alive E s _ w _ stay o h = h
  Steps-Alive E s s' w w' (called {s' = t} {w' = v} fuel id ptr size e run more) o h =
      Steps-Alive E t s' v w' more o.1 (
        subst (Post (λ x. Alive x.0.context x.1)) run
          (connection_callback-Sound ext k AreControls tt [] fuel id ptr size e s w o.0 h))
  Steps-Alive E s s' w w' (polled {w' = v} fuel r ctx' run more) o h =
      let (c, u, returned, alive) = poll-Alive fuel s.context w h o.0 in
      Steps-Alive E (record s { context = ctx' }) s' v w' more o.1
        (subst (Post (λ x. Alive x.1 x.2)) run
          (subst (Post (λ x. Alive x.1 x.2)) (sym returned) alive))
  Steps-Alive E s s' w w' (meanwhile {w' = v} other more) o h =
      Steps-Alive E s s' v w' more o.1 (Sends-Alive s.context w v o.0 h)

  begins-Alive : (ctx : Context) (w : World Sys) → ctx.streams ≡ [] → Alive ctx w
  begins-Alive ctx w e = (
    record {
      is_control = λ d. false;
      below = λ d h. ground (arith, h);
      mine = rw e tt;
      theirs = tt;
    },
    rw e tt,
  )

  -- Where the channels of messages are queues that only sending, polling and dropping the receiver
  -- change, a channel that is made is empty and has a new number, the channels of bytes have no
  -- errors of their own, and the requests for streams that wait are counted: a connection begins
  -- without streams, and goes through any sequence of picoquic's callbacks, for streams of the peer
  -- or of ours with a number that was given, of polls with fuel for what waits and numbers of
  -- streams below 2 ^ 62, and of the outside sending the streams resets and swaps. Then a poll
  -- returns, with fuel for more rounds than messages wait for any stream and than requests wait,
  -- and with numbers below 2 ^ 62. It does not panic, and it is ready exactly if the connection was
  -- closed.
  pub Steps-poll :
      (E : World Sys → World Sys → Type 0) (s s' : Shared) (w w' : World Sys) (fuel : ℕ)
      (steps : Steps ext E s w s' w')
      → s.context.streams ≡ []
      → Orderly steps
      → Fueled fuel s'.context w'.sys
      → (ctx : Context) × (v : World Sys) × (poll ext fuel s'.context w'
          ≡ done (if s'.context.closed then ready tt else not_ready, ctx, v))
  Steps-poll E s s' w w' fuel steps e o f =
      let alive = Steps-Alive E s s' w w' steps o (begins-Alive s.context w e) in
      let (ctx, v, run, rest) = poll-Alive fuel s'.context w' alive f in (ctx, v, run)

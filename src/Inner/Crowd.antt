-- ===== src/Inner/Crowd.antt =====
-- src/context_inner.rs: the connections of a context, polled one after the other.
use picoquic_rs.Base.{
  ℕ, ◌+◌, ◌^◌, ◌<◌, ◌≤◌, ◌≡◌, refl, arith, Bool, true, false, List, [], ◌∷◌, ◌++◌, map, ready,
  not_ready, done, if◌then◌else◌,
}
use picoquic_rs.World.{World}
use picoquic_rs.Stream.Types.{Message}
use picoquic_rs.Connection.Types.{Context}
use picoquic_rs.Connection.Context as Con
use picoquic_rs.Connection.Callback.{Shared, release}
use picoquic_rs.Connection.Released.{release-Less, release-asked}
use picoquic_rs.Connection.Fresh.{OwnBelow}
use picoquic_rs.Connection.Waiting.{
  Waiting, Channels, channels, All, All-map, Fine, Good, Good-Less,
}
use picoquic_rs.Connection.Retained.{Fits}
use picoquic_rs.Connection.Returns.{poll-Settled}
use picoquic_rs.Inner.Accept as Accept
use picoquic_rs.Inner.Accept.{Ext}

-- The channels of the streams of all connections.
abbrev pub chans : List Shared → List Channels
chans [] = []
chans (s ∷ l) = channels s.context.streams ++ chans l

pub All-append : {A : Type 0} (P : A → Type 0) (a b : List A) → All P a → All P b → All P (a ++ b)
All-append P [] b p q = q
All-append P (x ∷ a) b p q = (p.0, All-append P a b p.1 q)

pub All-left : {A : Type 0} (P : A → Type 0) (a b : List A) → All P (a ++ b) → All P a
All-left P [] b p = tt
All-left P (x ∷ a) b p = (p.0, All-left P a b p.1)

pub All-right : {A : Type 0} (P : A → Type 0) (a b : List A) → All P (a ++ b) → All P b
All-right P [] b p = p
All-right P (x ∷ a) b p = All-right P a b p.1

abbrev unless : Bool → Shared → List Shared → List Shared
unless closed s l = if closed then l else s ∷ l

-- The connections that are not closed.
abbrev pub still_open : List Shared → List Shared
still_open [] = []
still_open (s ∷ l) = unless s.context.closed s (still_open l)

abbrev pub cnxs : List Shared → List ℕ
cnxs l = map (λ s. s.context.cnx) l

cnxs-unless :
    (closed : Bool) (s s' : Shared) (l l' : List Shared)
    → s'.context.cnx ≡ s.context.cnx
    → cnxs l' ≡ cnxs l
    → cnxs (unless closed s' l') ≡ cnxs (unless closed s l)
cnxs-unless true s s' l l' e f = f
cnxs-unless false s s' l l' e f = cc (e, f)

module _ {Sys : Type 0} (ext : Ext Sys) (k : Waiting ext.con) where
  -- From one of two parts to the other.
  pub Good-shift :
      (Q : List Message → Type 0) (a b c : List Channels) (s : Sys)
      → Good ext.con k Q (a ++ b) c s
      → Good ext.con k Q a (b ++ c) s
  Good-shift Q a b c s g =
      let P = Fine ext.con k Q g.is_control s in
      record {
        is_control = g.is_control;
        below = g.below;
        mine = All-left P a b g.mine;
        theirs = All-append P b c (All-right P a b g.mine) g.theirs;
      }

  -- The next part.
  pub Good-next :
      (Q : List Message → Type 0) (a b c : List Channels) (s : Sys)
      → Good ext.con k Q a (b ++ c) s
      → Good ext.con k Q b (a ++ c) s
  Good-next Q a b c s g =
      let P = Fine ext.con k Q g.is_control s in
      record {
        is_control = g.is_control;
        below = g.below;
        mine = All-left P b c g.theirs;
        theirs = All-append P a c g.mine (All-right P b c g.theirs);
      }

  -- The numbers of streams stay below 2 ^ 62.
  abbrev pub Numbers : Sys → Shared → Type 0
  Numbers s x = x.context.next_stream_id + k.asked s + 1 < 2 ^ 62

  fewer-Numbers :
      (s s' : Sys) (l : List Shared)
      → k.asked s' ≤ k.asked s
      → All (Numbers s) l
      → All (Numbers s') l
  fewer-Numbers s s' [] h n = tt
  fewer-Numbers s s' (x ∷ l) h n = (omega (arith, h, n.0), fewer-Numbers s s' l h n.1)

  -- After a poll of one connection.
  abbrev let_go : Bool → Shared → World Sys → World Sys
  let_go true s w = (release ext.con s w).1
  let_go false s w = w

  -- A finished one is let go, and its channels are forgotten.
  let_go-Good :
      (Q : List Message → Type 0) (q : Q []) (closed : Bool) (s : Shared) (a b : List Channels)
      (w : World Sys)
      → Good ext.con k Q (channels s.context.streams) (a ++ b) w.sys
      → Good ext.con k Q a (channels s.context.streams ++ b) (let_go closed s w).sys
        × (k.asked (let_go closed s w).sys ≡ k.asked w.sys)
  let_go-Good Q q true s a b w g =
      let here = channels s.context.streams in
      let v = (release ext.con s w).1 in
      (
        Good-next Q here a b v.sys (
            Good-Less ext.con k Q q here (a ++ b) w.sys v.sys g
              (release-Less ext.con k g.is_control s w (All-map _ _ here (λ c x. x.0) g.mine))),
        release-asked ext.con k s w,
      )
  let_go-Good Q q false s a b w g = (Good-next Q (channels s.context.streams) a b w.sys g, refl)

  poll_one :
      (closed : Bool) (fuel : ℕ) (s : Shared) (l l' : List Shared) (ctx : Context)
      (w w₁ w' : World Sys)
      → Con.poll ext.con fuel s.context w ≡ done (if closed then ready tt else not_ready, ctx, w₁)
      → Accept.poll ext fuel l (let_go closed (record s { context = ctx }) w₁) ≡ done (l', w')
      → Accept.poll ext fuel (s ∷ l) w ≡ done (unless closed (record s { context = ctx }) l', w')
  unfolding Accept.poll
  poll_one true fuel s l l' ctx w w₁ w' e f = rw (e, Accept.poll, f) refl
  poll_one false fuel s l l' ctx w w₁ w' e f = rw (e, Accept.poll, f) refl

  pub poll_all :
      (fuel : ℕ) (p : 0 < fuel) (l : List Shared) (others : List Channels) (w : World Sys)
      → Good ext.con k (Fits fuel) (chans l) others w.sys
      → All (λ s. OwnBelow s.context) l
      → k.asked w.sys < fuel
      → All (Numbers w.sys) l
      → (l' : List Shared) × (w' : World Sys) × (Accept.poll ext fuel l w ≡ done (l', w'))
        × (cnxs l' ≡ cnxs (still_open l))
  unfolding Accept.poll
  poll_all fuel p [] others w g o f n = ([], w, refl, refl)
  poll_all fuel p (s ∷ l) others w g o f n =
      let here = channels s.context.streams in
      let (ctx, w₁, run, (g₁, own, fewer, bound, same)) =
        poll-Settled ext.con k fuel p (chans l ++ others) s.context w
          (Good-shift (Fits fuel) here (chans l) others w.sys g) f n.0 o.0 in
      let s' : Shared = record s { context = ctx } in
      let w₂ = let_go s.context.closed s' w₁ in
      let (g₂, same_asked) =
        let_go-Good (Fits fuel) (tt, p) s.context.closed s' (chans l) others w₁ g₁ in
      let less : k.asked w₂.sys ≤ k.asked w.sys = omega (arith, fewer, same_asked) in
      let (l', w', rest, names) =
        poll_all fuel p l (channels ctx.streams ++ others) w₂ g₂ o.1 (omega (arith, less, f))
          (fewer-Numbers w.sys w₂.sys l less n.1) in
      (
        unless s.context.closed s' l',
        w',
        poll_one s.context.closed fuel s l l' ctx w w₁ w' run rest,
        cnxs-unless s.context.closed s s' (still_open l) l' same names,
      )

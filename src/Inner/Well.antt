-- ===== src/Inner/Well.antt =====
-- src/context_inner.rs: what is well with all connections, there or let go, and how it stays so where
-- one of them changes, comes or goes.
use picoquic_rs.Base.{ℕ, ◌≡◌, sym, subst, Bool, List, [], ◌∷◌, ◌++◌, append-nil}
use picoquic_rs.World.{World}
use picoquic_rs.Stream.Controls.{AreControls}
use picoquic_rs.Connection.Callback.{Shared}
use picoquic_rs.Connection.Fresh.{OwnBelow}
use picoquic_rs.Connection.Waiting.{Waiting, Channels, channels, All, Fine, Good, Good-Less, Less}
use picoquic_rs.Connection.Failing.{Sound}
use picoquic_rs.Inner.Accept.{Ext}
use picoquic_rs.Inner.Crowd.{chans, All-append, All-left, All-right, Good-next}

-- One in the middle, and the others.
pub All-split :
    {A : Type 0} (P : A → Type 0) (a b : List A) (x : A) → All P (a ++ x ∷ b) → P x × All P (a ++ b)
All-split P [] b x p = p
All-split P (y ∷ a) b x p = let (q, r) = All-split P a b x p.1 in (q, (p.0, r))

All-join :
    {A : Type 0} (P : A → Type 0) (a b : List A) (x : A) → P x → All P (a ++ b) → All P (a ++ x ∷ b)
All-join P [] b x q p = (q, p)
All-join P (y ∷ a) b x q p = (p.0, All-join P a b x q p.1)

pub chans-split :
    (P : Channels → Type 0) (a b : List Shared) (s : Shared)
    → All P (chans (a ++ s ∷ b))
    → All P (channels s.context.streams) × All P (chans (a ++ b))
chans-split P [] b s p =
    let l = channels s.context.streams in (All-left P l (chans b) p, All-right P l (chans b) p)
chans-split P (t ∷ a) b s p =
    let l = channels t.context.streams in
    let (q, r) = chans-split P a b s (All-right P l (chans (a ++ s ∷ b)) p) in
    (q, All-append P l (chans (a ++ b)) (All-left P l (chans (a ++ s ∷ b)) p) r)

chans-join :
    (P : Channels → Type 0) (a b : List Shared) (s : Shared)
    → All P (channels s.context.streams)
    → All P (chans (a ++ b))
    → All P (chans (a ++ s ∷ b))
chans-join P [] b s q p = All-append P (channels s.context.streams) (chans b) q p
chans-join P (t ∷ a) b s q p =
    let l = channels t.context.streams in
    All-append P l (chans (a ++ s ∷ b)) (All-left P l (chans (a ++ b)) p)
      (chans-join P a b s q (All-right P l (chans (a ++ b)) p))

abbrev pub Owns : Shared → Type 0
Owns s = OwnBelow s.context

module _ {Sys : Type 0} (ext : Ext Sys) (k : Waiting ext.con) where
  -- The connections that are there, and those that were let go.
  abbrev pub Well : List Shared → List Shared → World Sys → Type 0
  Well l g w = Good ext.con k AreControls (chans l) (chans g) w.sys × All Owns l × All Owns g

  abbrev pub SoundIn : List Channels → Shared → World Sys → Type 0
  SoundIn others s w = Sound ext.con k AreControls tt others s.context w

  pub Well-swap : (l g : List Shared) (w : World Sys) → Well l g w → Well g l w
  Well-swap l g w (h, o, p) = (
    record { is_control = h.is_control; below = h.below; mine = h.theirs; theirs = h.mine },
    p,
    o,
  )

  focus :
      (a b g : List Shared) (s : Shared) (w : World Sys)
      → Well (a ++ s ∷ b) g w
      → SoundIn (chans (a ++ b) ++ chans g) s w × All Owns (a ++ b) × All Owns g
  focus a b g s w (h, o, p) =
      let P = Fine ext.con k AreControls h.is_control w.sys in
      let (q, r) = chans-split P a b s h.mine in
      let (mine, rest) = All-split Owns a b s o in
      (
        (
          record {
            is_control = h.is_control;
            below = h.below;
            mine = q;
            theirs = All-append P (chans (a ++ b)) (chans g) r h.theirs;
          },
          mine,
        ),
        rest,
        p,
      )

  back :
      (a b g : List Shared) (s : Shared) (w : World Sys)
      → SoundIn (chans (a ++ b) ++ chans g) s w
      → All Owns (a ++ b)
      → All Owns g
      → Well (a ++ s ∷ b) g w
  back a b g s w (h, mine) o p =
      let P = Fine ext.con k AreControls h.is_control w.sys in
      (
        record {
          is_control = h.is_control;
          below = h.below;
          mine = chans-join P a b s h.mine (All-left P (chans (a ++ b)) (chans g) h.theirs);
          theirs = All-right P (chans (a ++ b)) (chans g) h.theirs;
        },
        All-join Owns a b s mine o,
        p,
      )

  -- One connection changes.
  pub Well-replace :
      (a b g : List Shared) (s s' : Shared) (w w' : World Sys)
      → (SoundIn (chans (a ++ b) ++ chans g) s w → SoundIn (chans (a ++ b) ++ chans g) s' w')
      → Well (a ++ s ∷ b) g w
      → Well (a ++ s' ∷ b) g w'
  Well-replace a b g s s' w w' f h =
      let (sound, o, p) = focus a b g s w h in back a b g s' w' (f sound) o p

  -- One connection is let go.
  pub Well-remove :
      (a b g : List Shared) (s : Shared) (w : World Sys)
      → Well (a ++ s ∷ b) g w
      → Well (a ++ b) (s ∷ g) w
  Well-remove a b g s w h =
      let ((good, mine), o, p) = focus a b g s w h in
      (
        Good-next ext k AreControls (channels s.context.streams) (chans (a ++ b)) (chans g) w.sys
            good,
        o,
        (mine, p),
      )

  pub Well-Less :
      (l g : List Shared) (w w' : World Sys)
      → ((i : ℕ → Bool) → Less ext.con k i w.sys w'.sys)
      → Well l g w
      → Well l g w'
  Well-Less l g w w' f (h, o, p) =
      (Good-Less ext.con k AreControls tt (chans l) (chans g) w.sys w'.sys h (f h.is_control), o, p)

  -- One connection comes behind the others.
  pub Well-push :
      (l g : List Shared) (s : Shared) (w : World Sys)
      → SoundIn (chans l ++ chans g) s w
      → All Owns l
      → All Owns g
      → Well (l ++ s ∷ []) g w
  Well-push l g s w h o p =
      back l [] g s w (subst (λ x. SoundIn (chans x ++ chans g) s w) (sym (append-nil l)) h)
        (subst (All Owns) (sym (append-nil l)) o) p

  pub empty-Sound :
      (l g : List Shared) (s : Shared) (w : World Sys)
      → s.context.streams ≡ []
      → Well l g w
      → SoundIn (chans l ++ chans g) s w
  empty-Sound l g s w e (h, o, p) =
      let P = Fine ext.con k AreControls h.is_control w.sys in
      (
        record {
          is_control = h.is_control;
          below = h.below;
          mine = rw e tt;
          theirs = All-append P (chans l) (chans g) h.mine h.theirs;
        },
        rw e tt,
      )

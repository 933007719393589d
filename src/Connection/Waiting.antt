-- ===== src/Connection/Waiting.antt =====
-- src/connection.rs: what waits in the channels that a connection polls.
use picoquic_rs.Base.{
  ℕ, ◌<◌, ◌≤◌, ◌≡◌, sym, ap, subst, ◌∙◌, arith, ◌⊎◌, inl, inr, Bool, true, false, List, [], ◌∷◌,
  map, some, none, Result, ok, err, ready, not_ready, ◌++◌,
}
use picoquic_rs.Errors.{Error}
use picoquic_rs.World.{World}
use picoquic_rs.Stream.Types.{Message, Receiver, Stream}
use picoquic_rs.Stream.SendData.{poll_receiver}
use picoquic_rs.Stream.Drops.{Drops}
use picoquic_rs.Stream.Frame.{Apart}
use picoquic_rs.Stream.Controls.{channels_of}
use picoquic_rs.Connection.Types.{Connection, Ext, Request, Streams}
use picoquic_rs.Connection.Types as Types

module _ {Sys : Type 0} (ext : Ext Sys) where
  -- What the operations of a connection leave alone, but for those on the channels of messages and of
  -- requests for streams.
  pub record Rest {A : Type 0} (view : Sys → A) : Type 0 where
    pub ends : Drops ext.streams view
    pub create_bytes : (n : ℕ) (s : Sys) → view (ext.streams.create_bytes n s).1 ≡ view s
    pub poll_bytes : (c : ℕ) (s : Sys) → view (ext.streams.bytes_stream.poll c s).1 ≡ view s
    pub provides :
        (p n : ℕ) (fin still : Bool) (s : Sys)
        → view (ext.streams.provide p n fin still s).1 ≡ view s
    pub answers :
        (n : ℕ) (r : Result Stream Error) (s : Sys) → view (ext.answer_stream n r s) ≡ view s
    pub connects :
        (n : ℕ) (r : Result Connection Error) (s : Sys)
        → view (ext.answer_connection n r s) ≡ view s
    pub tells :
        (c : ℕ) (m : Types.Message) (s : Sys) → view (ext.msgs.unbounded_send c m s).1 ≡ view s
    pub polls_close : (c : ℕ) (s : Sys) → view (ext.poll_close c s).1 ≡ view s
    pub closes_requests : (c : ℕ) (s : Sys) → view (ext.requests_close.close c s) ≡ view s

  -- What waits in each channel of messages between the application and the streams: each is a
  -- queue, and polling a channel or sending on it changes no other one, and dropping its receiver
  -- empties it at most. Channels that are made get numbers from `next` on, and are empty. `asked`
  -- counts the requests for streams that wait, in all channels together. The channels of bytes have
  -- no error of their own.
  pub record Waiting : Type 0 where
    pub waits : ℕ → Sys → List Message
    pub next : Sys → ℕ
    pub asked : Sys → ℕ
    pub first :
        (c : ℕ) (s : Sys) (m : Message) (l : List Message)
        → waits c s ≡ m ∷ l
        → ((ext.streams.msgs.poll c s).0 ≡ ok (ready (some m)))
          × (waits c (ext.streams.msgs.poll c s).1 ≡ l)
    pub over :
        (c : ℕ) (s : Sys)
        → waits c s ≡ []
        → (((ext.streams.msgs.poll c s).0 ≡ ok not_ready)
            ⊎ ((ext.streams.msgs.poll c s).0 ≡ ok (ready none)))
          × (waits c (ext.streams.msgs.poll c s).1 ≡ [])
    pub others :
        (c d : ℕ) (s : Sys) → (c ≡ d → ⊥) → waits d (ext.streams.msgs.poll c s).1 ≡ waits d s
    pub sends :
        (c d : ℕ) (m : Message) (s : Sys)
        → (c ≡ d → ⊥)
        → waits d (ext.streams.msgs.unbounded_send c m s).1 ≡ waits d s
    pub made_empty :
        (s : Sys) → waits (ext.streams.msgs.unbounded s).0 (ext.streams.msgs.unbounded s).1 ≡ []
    pub made_others :
        (d : ℕ) (s : Sys)
        → ((ext.streams.msgs.unbounded s).0 ≡ d → ⊥)
        → waits d (ext.streams.msgs.unbounded s).1 ≡ waits d s
    pub numbered :
        (s : Sys)
        → (next s ≤ (ext.streams.msgs.unbounded s).0)
          × ((ext.streams.msgs.unbounded s).0 < next (ext.streams.msgs.unbounded s).1)
    pub drops_sender : (c d : ℕ) (s : Sys) → waits d (ext.streams.msgs.drop_sender c s) ≡ waits d s
    pub drops_receiver :
        (c d : ℕ) (s : Sys)
        → (waits d (ext.streams.msgs.drop_receiver c s) ≡ waits d s)
          ⊎ (waits d (ext.streams.msgs.drop_receiver c s) ≡ [])
    pub next_drops_sender : (c : ℕ) (s : Sys) → next (ext.streams.msgs.drop_sender c s) ≡ next s
    pub next_drops_receiver : (c : ℕ) (s : Sys) → next (ext.streams.msgs.drop_receiver c s) ≡ next s
    pub asked_drops_sender : (c : ℕ) (s : Sys) → asked (ext.streams.msgs.drop_sender c s) ≡ asked s
    pub asked_drops_receiver :
        (c : ℕ) (s : Sys) → asked (ext.streams.msgs.drop_receiver c s) ≡ asked s
    pub rest : (d : ℕ) → Rest (waits d)
    pub polls_request : (d c : ℕ) (s : Sys) → waits d (ext.requests_stream.poll c s).1 ≡ waits d s
    pub next_rest : Rest next
    pub next_polls : (c : ℕ) (s : Sys) → next (ext.streams.msgs.poll c s).1 ≡ next s
    pub next_sends :
        (c : ℕ) (m : Message) (s : Sys) → next (ext.streams.msgs.unbounded_send c m s).1 ≡ next s
    pub next_request : (c : ℕ) (s : Sys) → next (ext.requests_stream.poll c s).1 ≡ next s
    pub no_error :
        (r : Receiver) (w : World Sys) (e : Error) → (poll_receiver ext.streams r w).0 ≡ err e → ⊥
    pub apart : Apart ext.streams asked
    pub rest_asked : Rest asked
    pub received :
        (c : ℕ) (s : Sys) (r : Request)
        → (ext.requests_stream.poll c s).0 ≡ ok (ready (some r))
        → asked (ext.requests_stream.poll c s).1 < asked s
    pub no_more : (c : ℕ) (s : Sys) → asked (ext.requests_stream.poll c s).1 ≤ asked s

-- The channels of a stream: the one to the application, and the one with its control messages.
abbrev pub Channels : Type 0
Channels = ℕ × ℕ

abbrev pub channels : Streams → List Channels
channels m = map (λ x. channels_of x.1) m

abbrev pub All : {A : Type 0} → (A → Type 0) → List A → Type 0
All P [] = Unit
All P (x ∷ l) = P x × All P l

pub All-map :
    {A : Type 0} (P Q : A → Type 0) (l : List A) → ((x : A) → P x → Q x) → All P l → All Q l
All-map P Q [] f p = tt
All-map P Q (x ∷ l) f p = (f x p.0, All-map P Q l f p.1)

pub All-snoc :
    {A : Type 0} (P : A → Type 0) (l : List A) (x : A) → All P l → P x → All P (l ++ x ∷ [])
All-snoc P [] x p q = (q, tt)
All-snoc P (y ∷ l) x p q = (p.0, All-snoc P l x p.1 q)

pub differ : (i : ℕ → Bool) (c d : ℕ) → i c ≡ false → i d ≡ true → c ≡ d → ⊥
differ i c d e f g = ground (arith, e, f, ap i g)

-- What waits for the streams with these channels, and for others, is as `Q` says. The channels of
-- control messages are all different from the channels to the application.
module _ {Sys : Type 0} (ext : Ext Sys) (k : Waiting ext) (Q : List Message → Type 0) where
  abbrev pub Fine : (ℕ → Bool) → Sys → Channels → Type 0
  Fine is_control s c =
      (is_control c.0 ≡ false) × (is_control c.1 ≡ true) × (c.0 < k.next s) × Q (k.waits c.1 s)

  pub record Good (l others : List Channels) (s : Sys) : Type 0 where
    pub is_control : ℕ → Bool
    pub below : (d : ℕ) → is_control d ≡ true → d < k.next s
    pub mine : All (Fine is_control s) l
    pub theirs : All (Fine is_control s) others

module _ {Sys : Type 0} (ext : Ext Sys) (k : Waiting ext) where
  -- On channels of control messages nothing comes in: what waits stays, or is all taken.
  abbrev pub Less : (ℕ → Bool) → Sys → Sys → Type 0
  Less is_control s s' =
      (k.next s ≤ k.next s')
      × ((d : ℕ) → is_control d ≡ true → (k.waits d s' ≡ k.waits d s) ⊎ (k.waits d s' ≡ []))

  pub Less-trans : (i : ℕ → Bool) (s t u : Sys) → Less i s t → Less i t u → Less i s u
  Less-trans i s t u a b = (
    omega (arith, a.0, b.0),
    λ d h. elim (b.1 d h) [
      | inr none_left ↦ inr none_left
      | inl same ↦ elim (a.1 d h) [ inl e ↦ inl (same ∙ e) | inr e ↦ inr (same ∙ e) ]
    ],
  )

  module _ (Q : List Message → Type 0) (q : Q []) where
    pub Fine-Less :
        (i : ℕ → Bool) (s s' : Sys) (c : Channels)
        → Less i s s'
        → Fine ext k Q i s c
        → Fine ext k Q i s' c
    Fine-Less i s s' c less (a, b, n, t) = (
      a,
      b,
      omega (arith, less.0),
      elim (less.1 c.1 b) [ inl e ↦ subst Q (sym e) t | inr e ↦ subst Q (sym e) q ],
    )

    pub Good-Less :
        (l others : List Channels) (s s' : Sys) (g : Good ext k Q l others s)
        → Less g.is_control s s'
        → Good ext k Q l others s'
    Good-Less l others s s' g less =
        let i = g.is_control in
        record {
          is_control = i;
          below = λ d h. omega (arith, g.below d h, less.0);
          mine = All-map _ _ l (λ c. Fine-Less i s s' c less) g.mine;
          theirs = All-map _ _ others (λ c. Fine-Less i s s' c less) g.theirs;
        }

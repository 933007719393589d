-- ===== src/Connection/Newcomers.antt =====
-- src/connection.rs: a new stream takes nothing from the ones that are there.
use picoquic_rs.Base.{
  ℕ, ◌<◌, ◌≤◌, ◌≡◌, refl, sym, ap, subst, ◌∙◌, arith, inl, inr, Bool, true, false, ◌||◌, List, [],
  ◌∷◌, ◌++◌, none, some, Option, Bool-cases, ◌==◌, ==_iff,
}
use picoquic_rs.World.{World}
use picoquic_rs.Channel
use picoquic_rs.Stream.Types.{Message, Receiver, SocketAddr}
use picoquic_rs.Stream.Types as StreamTypes
use picoquic_rs.Stream.Receive.{new_stream, create_send_and_recv_data, new_context}
use picoquic_rs.Stream.Controls.{channels_of}
use picoquic_rs.Connection.Types.{Ext, Streams, lookup, insert}
use picoquic_rs.Connection.Serves.{lookup_rest}
use picoquic_rs.Connection.Waiting.{
  Rest, Waiting, Channels, channels, All-map, All-snoc, Fine, Good,
}

-- The channels of the streams after one more came, or one changed that was there.
pub channels-new :
    (id : ℕ) (s : StreamTypes.Context) (m : Streams)
    → lookup id m ≡ none
    → channels (insert id s m) ≡ channels m ++ channels_of s ∷ []
unfolding lookup insert
channels-new id s [] h = refl
channels-new id s ((j, t) ∷ m) h =
    let (other, none_behind) = lookup_rest id j t m h in
    rw other (ap (λ l. channels_of t ∷ l) (channels-new id s m none_behind))

pub channels-found :
    (id : ℕ) (s t : StreamTypes.Context) (m : Streams)
    → lookup id m ≡ some t
    → channels_of s ≡ channels_of t
    → channels (insert id s m) ≡ channels m
unfolding lookup insert
channels-found id s t [] h e = ground arith
channels-found id s t ((j, u) ∷ m) h e = elim (Bool-cases (j == id)) [
  | inl same ↦
      let found : u ≡ t = cc (h, same) in
      rw same (ap (λ c. c ∷ channels m) (e ∙ ap channels_of (sym found)))
  | inr other ↦
      let behind : lookup id m ≡ some t = sym (rw other refl) ∙ h in
      rw other (ap (λ l. channels_of u ∷ l) (channels-found id s t m behind e))
]

module _ {Sys : Type 0} (ext : Ext Sys) (k : Waiting ext) where
  create-keeps :
      {A : Type 0} (view : Sys → A)
      → Rest ext view
      → (id : ℕ) (c : Bool) (size : ℕ) (w : World Sys)
      → view (create_send_and_recv_data ext.streams id c size w).1.sys ≡ view w.sys
  unfolding create_send_and_recv_data Channel.pair Channel.new_state
  create-keeps view o id c size w = ground (arith, o.create_bytes size w.sys)

  -- What a new context leaves alone: all but its control channel.
  context-keeps :
      {A : Type 0} (view : Sys → A) (recv_msg control_msg : ℕ) (rx : Option Receiver) (id cnx : ℕ)
      (c : Bool) (w : World Sys)
      → Rest ext view
      → view (new_context ext.streams recv_msg control_msg rx id cnx c w).1.sys
        ≡ view (ext.streams.msgs.poll control_msg w.sys).1
  unfolding new_context Channel.poll
  context-keeps view recv control none id cnx c w o = refl
  context-keeps view recv control (some r) id cnx c w o =
      o.poll_bytes r.receiver (ext.streams.msgs.poll control w.sys).1

  -- What a new stream comes to outside: its two channels are new, and its own is empty.
  new_stream-waits :
      (id cnx : ℕ) (addr : SocketAddr) (client : Bool) (size : ℕ) (w : World Sys)
      → let (made, w') = new_stream ext.streams id cnx addr client size w in
        let (recv, control) = channels_of made.1 in
        (k.next w.sys ≤ recv)
        × (recv < control)
        × (control < k.next w'.sys)
        × (k.waits control w'.sys ≡ [])
        × ((d : ℕ) → d < k.next w.sys → k.waits d w'.sys ≡ k.waits d w.sys)
  unfolding new_stream new_context
  new_stream-waits id cnx addr client size w =
      let (recv, s₁) = ext.streams.msgs.unbounded w.sys in
      let (control, s₂) = ext.streams.msgs.unbounded s₁ in
      let w₂ : World Sys = record w { sys = s₂ } in
      let ((tx, rx), w₃) = create_send_and_recv_data ext.streams id client size w₂ in
      let (p, q) = k.numbered w.sys in
      let (p', q') = k.numbered s₁ in
      let counted =
        context-keeps k.next recv control rx id cnx client w₃ k.next_rest
        ∙ k.next_polls control w₃.sys
        ∙ create-keeps k.next k.next_rest id client size w₂ in
      let empty =
        create-keeps (k.waits control) (k.rest control) id client size w₂ ∙ k.made_empty s₁ in
      (
        p,
        omega (arith, q, p'),
        omega (arith, q', counted),
        context-keeps (k.waits control) recv control rx id cnx client w₃ (k.rest control)
            ∙ (k.over control w₃.sys empty).1,
        λ d less.
            context-keeps (k.waits d) recv control rx id cnx client w₃ (k.rest d)
            ∙ k.others control d w₃.sys (λ e. omega (arith, e, less, p, q, p'))
            ∙ create-keeps (k.waits d) (k.rest d) id client size w₂
            ∙ k.made_others d s₁ (λ e. omega (arith, e, less, p, q, p'))
            ∙ k.made_others d w.sys (λ e. omega (arith, e, less, p)),
      )

  module _ (Q : List Message → Type 0) (q : Q []) where
    -- The channels of the streams and one more of control messages.
    abbrev with_control : ℕ → (ℕ → Bool) → ℕ → Bool
    with_control c i d = (d == c) || i d

    at_control : (c : ℕ) (i : ℕ → Bool) → with_control c i c ≡ true
    at_control c i = rw ((==_iff c c).1 refl) refl

    other_control : (c d : ℕ) (i : ℕ → Bool) → (d ≡ c → ⊥) → with_control c i d ≡ i d
    other_control c d i h = elim (Bool-cases (d == c)) [
      | inl e ↦ absurd (h ((==_iff d c).0 e))
      | inr e ↦ rw e refl
    ]

    pub new_stream-Good :
        (l others : List Channels) (id cnx : ℕ) (addr : SocketAddr) (client : Bool) (size : ℕ)
        (w : World Sys)
        → Good ext k Q l others w.sys
        → let (made, w') = new_stream ext.streams id cnx addr client size w in
          Good ext k Q (l ++ channels_of made.1 ∷ []) others w'.sys
    new_stream-Good l others id cnx addr client size w g =
        let (made, w') = new_stream ext.streams id cnx addr client size w in
        let (recv, control) = channels_of made.1 in
        let (a, b, c, empty, same) = new_stream-waits id cnx addr client size w in
        let i = with_control control g.is_control in
        let old : (x : Channels) → Fine ext k Q g.is_control w.sys x → Fine ext k Q i w'.sys x =
          λ x (f, t, n, h).
            let under = g.below x.1 t in
            (
              other_control control x.0 g.is_control (λ e. omega (arith, e, n, a, b)) ∙ f,
              other_control control x.1 g.is_control (λ e. omega (arith, e, under, a, b)) ∙ t,
              omega (arith, n, a, b, c),
              subst Q (sym (same x.1 under)) h,
            ) in
        let unknown : g.is_control recv ≡ false = elim (Bool-cases (g.is_control recv)) [
          | inr free ↦ free
          | inl known ↦ absurd (omega (arith, g.below recv known, a))
        ] in
        record {
          is_control = i;
          below = λ d h. elim (Bool-cases (d == control)) [
            | inl e ↦ omega (arith, (==_iff d control).0 e, c)
            | inr e ↦ omega (arith, g.below d (sym (rw e refl) ∙ h), a, b, c)
          ];
          mine =
              All-snoc _ l (recv, control) (All-map _ _ l old g.mine)
                (
                  other_control control recv g.is_control (λ e. omega (arith, e, b)) ∙ unknown,
                  at_control control g.is_control,
                  omega (arith, b, c),
                  subst Q (sym empty) q,
                );
          theirs = All-map _ _ others old g.theirs;
        }

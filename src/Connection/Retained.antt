-- ===== src/Connection/Retained.antt =====
-- src/connection.rs: the polls of a connection's streams return.
use picoquic_rs.Base.{
  ℕ, ◌<◌, ◌≡◌, refl, sym, ap, subst, ◌∙◌, arith, inl, inr, Bool, false, List, [], ◌∷◌, length, done,
  Bool-cases, ◌==◌, ==_iff,
}
use picoquic_rs.World.{World}
use picoquic_rs.Channel
use picoquic_rs.Stream.Types.{Message, Receiver}
use picoquic_rs.Stream.Types as StreamTypes
use picoquic_rs.Stream.Receive.{close_send_data, drop_context}
use picoquic_rs.Stream.SendData.{poll_receiver}
use picoquic_rs.Stream.Drops.{close_send_data-keeps}
use picoquic_rs.Stream.Drive as Stream
use picoquic_rs.Stream.Drive.{finished}
use picoquic_rs.Stream.Controls.{AreControls, Controlled, Besides, channels_of}
use picoquic_rs.Stream.Returns.{poll-leaves}
use picoquic_rs.Connection.Types.{Ext, Streams}
use picoquic_rs.Connection.Context.{keeps, retain_streams}
use picoquic_rs.Connection.Fresh.{Own}
use picoquic_rs.Connection.Waiting.{
  Rest, Waiting, Channels, channels, All, All-map, Fine, Fine-Less, Less, Less-trans, differ,
}

-- Only resets and swaps, and fewer than the fuel.
abbrev pub Fits : ℕ → List Message → Type 0
Fits fuel l = AreControls l × (length l < fuel)

module _ {Sys : Type 0} (ext : Ext Sys) (k : Waiting ext) where
  poll_bytes-keeps :
      {A : Type 0} (view : Sys → A)
      → Rest ext view
      → (r : Receiver) (w : World Sys) → view (poll_receiver ext.streams r w).1.sys ≡ view w.sys
  unfolding Channel.poll
  poll_bytes-keeps view o r w = o.poll_bytes r.receiver w.sys

  abbrev controlled : (c : ℕ) → Controlled ext.streams c
  controlled c = record {
    controls = k.waits c;
    first = λ s m l e. k.first c s m l e;
    over = λ s e. k.over c s e;
    drops = (k.rest c).ends;
    polls = poll_bytes-keeps (k.waits c) (k.rest c);
    no_error = k.no_error;
  }

  besides :
      {A : Type 0} (view : Sys → A) (c : ℕ)
      → Rest ext view
      → ((s : Sys) → view (ext.streams.msgs.poll c s).1 ≡ view s)
      → Besides ext.streams c view
  besides view c o h = record { ends = o.ends; control = h; bytes = poll_bytes-keeps view o }

  -- One stream polled: what waits for it is taken, and nothing else.
  poll-waits :
      (i : ℕ → Bool) (fuel : ℕ) (s : StreamTypes.Context) (w : World Sys)
      → Fits fuel (k.waits s.control_msg w.sys)
      → (s' : StreamTypes.Context) × (w' : World Sys) × (Stream.poll ext.streams fuel s w
          ≡ done (finished ext.streams s', s', w'))
        × Less ext k i w.sys w'.sys
        × (k.asked w'.sys ≡ k.asked w.sys)
        × (channels_of s' ≡ channels_of s)
  poll-waits i fuel s w t =
      let c = s.control_msg in
      let (s', w', run, none_left, same, alone) =
        poll-leaves ext.streams c (controlled c) fuel s w refl t.0 t.1 in
      (
        s',
        w',
        run,
        (
          omega (arith, alone ℕ k.next (besides k.next c k.next_rest (k.next_polls c))),
          λ d h. elim (Bool-cases (c == d)) [
            | inl e ↦ inr (ap (λ x. k.waits x w'.sys) (sym ((==_iff c d).0 e)) ∙ none_left)
            | inr other ↦ inl (
                alone (List Message) (k.waits d) (
                  besides (k.waits d) c (k.rest d)
                    (λ s. k.others c d s (λ e. cc ((==_iff c d).1 e, other)))))
          ],
        ),
        alone ℕ k.asked (besides k.asked c k.rest_asked (k.apart.poll_message c)),
        same,
      )

  pub dropped-Less :
      (i : ℕ → Bool) (s : StreamTypes.Context) (w : World Sys)
      → i s.recv_msg ≡ false
      → Less ext k i w.sys (drop_context ext.streams s w).sys
  unfolding drop_context
  dropped-Less i s w h =
      let s₁ = (ext.streams.msgs.unbounded_send s.recv_msg StreamTypes.close w.sys).1 in
      let w₁ = record w { sys = s₁ } in
      let s₂ = (close_send_data ext.streams s w₁).1.sys in
      let s₃ = ext.streams.msgs.drop_sender s.recv_msg s₂ in
      let s₄ = ext.streams.msgs.drop_receiver s.control_msg s₃ in
      Less-trans ext k i w.sys s₃ s₄
        (
          omega (
            arith,
            k.next_sends s.recv_msg StreamTypes.close w.sys,
            close_send_data-keeps ext.streams k.next k.next_rest.ends s w₁,
            k.next_drops_sender s.recv_msg s₂,
          ),
          λ d e. inl (
              k.drops_sender s.recv_msg d s₂
              ∙ close_send_data-keeps ext.streams (k.waits d) (k.rest d).ends s w₁
              ∙ k.sends s.recv_msg d StreamTypes.close w.sys (differ i s.recv_msg d h e)),
        )
        (
          omega (arith, k.next_drops_receiver s.control_msg s₃),
          λ d e. k.drops_receiver s.control_msg d s₃,
        )

  pub dropped-asked :
      (s : StreamTypes.Context) (w : World Sys)
      → k.asked (drop_context ext.streams s w).sys ≡ k.asked w.sys
  unfolding drop_context
  dropped-asked s w =
      let s₁ = (ext.streams.msgs.unbounded_send s.recv_msg StreamTypes.close w.sys).1 in
      let s₂ = (close_send_data ext.streams s (record w { sys = s₁ })).1.sys in
      k.asked_drops_receiver s.control_msg (ext.streams.msgs.drop_sender s.recv_msg s₂)
      ∙ k.asked_drops_sender s.recv_msg s₂
      ∙ close_send_data-keeps ext.streams k.asked k.rest_asked.ends s (record w { sys = s₁ })
      ∙ k.apart.unbounded_send s.recv_msg StreamTypes.close w.sys

  module _ (fuel : ℕ) (p : 0 < fuel) where
    -- The streams were polled, and those that are finished are gone.
    pub record Retained (i : ℕ → Bool) (m : Streams) (w : World Sys) : Type 0 where
      pub kept : Streams
      pub after : World Sys
      pub returns : retain_streams ext fuel m w ≡ done (kept, after)
      pub less : Less ext k i w.sys after.sys
      pub mine : All (Fine ext k (Fits fuel) i after.sys) (channels kept)
      pub same_asked : k.asked after.sys ≡ k.asked w.sys
      pub own : (c : Bool) (n : ℕ) → Own c n m → Own c n kept

    -- What is fine stays fine.
    stays :
        (i : ℕ → Bool) (s s' : Sys) (l : List Channels)
        → Less ext k i s s'
        → All (Fine ext k (Fits fuel) i s) l
        → All (Fine ext k (Fits fuel) i s') l
    stays i s s' l less h = All-map _ _ l (λ c. Fine-Less ext k (Fits fuel) (tt, p) i s s' c less) h

    pub retain_streams-Retained :
        (i : ℕ → Bool) (m : Streams) (w : World Sys)
        → All (Fine ext k (Fits fuel) i w.sys) (channels m)
        → Retained i m w
    unfolding retain_streams
    retain_streams-Retained i [] w h = record {
      kept = [];
      after = w;
      returns = refl;
      less = (omega arith, λ d e. inl refl);
      mine = tt;
      same_asked = refl;
      own = λ c n o. o;
    }
    retain_streams-Retained i ((id, s) ∷ m) w h =
        let (s', w', run, less, asked, same) = poll-waits i fuel s w h.0.3 in
        let fine : Fine ext k (Fits fuel) i w.sys (channels_of s') =
          subst (Fine ext k (Fits fuel) i w.sys) (sym same) h.0 in
        elim (Bool-cases (keeps ext (finished ext.streams s'))) [
          | inl here ↦
              let r = retain_streams-Retained i m w' (stays i w.sys w'.sys (channels m) less h.1) in
              let all = Less-trans ext k i w.sys w'.sys r.after.sys less r.less in
              record {
                kept = (id, s') ∷ r.kept;
                after = r.after;
                returns = rw (run, retain_streams, here, r.returns) refl;
                less = all;
                mine = (
                  Fine-Less ext k (Fits fuel) (tt, p) i w.sys r.after.sys (channels_of s') all fine,
                  r.mine,
                );
                same_asked = r.same_asked ∙ asked;
                own = λ c n o. (o.0, r.own c n o.1);
              }
          | inr goes ↦
              let w₂ = drop_context ext.streams s' w' in
              let dropped = dropped-Less i s' w' fine.0 in
              let before = Less-trans ext k i w.sys w'.sys w₂.sys less dropped in
              let r =
                retain_streams-Retained i m w₂ (stays i w.sys w₂.sys (channels m) before h.1) in
              record {
                kept = r.kept;
                after = r.after;
                returns = rw (run, retain_streams, goes, r.returns) refl;
                less = Less-trans ext k i w.sys w₂.sys r.after.sys before r.less;
                mine = r.mine;
                same_asked = r.same_asked ∙ dropped-asked s' w' ∙ asked;
                own = λ c n o. r.own c n o.1;
              }
        ]

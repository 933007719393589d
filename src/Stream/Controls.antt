-- ===== src/Stream/Controls.antt =====
-- src/stream.rs: taking the control messages of a stream's context ends.
use picoquic_rs.Base.{
  ℕ, zero, suc, ◌<◌, ◌≡◌, refl, sym, ap, subst, ◌∙◌, arith, ◌⊎◌, inl, inr, Option-cases, List, [],
  ◌∷◌, length, none, some, ok, err, ready, not_ready, Async, done,
}
use picoquic_rs.Errors.{Error}
use picoquic_rs.World.{World, on_sys}
use picoquic_rs.Stream.Types.{Context, Ext, Message, Receiver}
use picoquic_rs.Stream.Types as Types
use picoquic_rs.Stream.Receive.{reset_context, recv_message_dropped, close_send_data}
use picoquic_rs.Stream.SendData.{poll_receiver}
use picoquic_rs.Stream.Drive.{swap_receiver, poll_control_msg}
use picoquic_rs.Stream.Drops.{
  Drops, reset_context-keeps, recv_message_dropped-keeps, swap_receiver-keeps,
}

-- What the application sends to a stream's context.
abbrev pub AreControls : List Message → Type 0
AreControls [] = Unit
AreControls (Types.reset ∷ l) = AreControls l
AreControls (Types.swap_send_data b old ∷ l) = AreControls l
AreControls (_ ∷ l) = ⊥

-- The channel to the application, and the one with its control messages.
abbrev pub channels_of : Context → ℕ × ℕ
channels_of ctx = (ctx.recv_msg, ctx.control_msg)

module _ {Sys : Type 0} (ext : Ext Sys) where
  -- The channel of control messages is a queue, which nothing else changes, and the channels of bytes
  -- have no error of their own.
  pub record Controlled (c : ℕ) : Type 0 where
    pub controls : Sys → List Message
    pub first :
        (s : Sys) (m : Message) (l : List Message)
        → controls s ≡ m ∷ l
        → ((ext.msgs.poll c s).0 ≡ ok (ready (some m))) × (controls (ext.msgs.poll c s).1 ≡ l)
    pub over :
        (s : Sys)
        → controls s ≡ []
        → (((ext.msgs.poll c s).0 ≡ ok not_ready) ⊎ ((ext.msgs.poll c s).0 ≡ ok (ready none)))
          × (controls (ext.msgs.poll c s).1 ≡ [])
    pub drops : Drops ext controls
    pub polls :
        (r : Receiver) (w : World Sys) → controls (poll_receiver ext r w).1.sys ≡ controls w.sys
    pub no_error :
        (r : Receiver) (w : World Sys) (e : Error) → (poll_receiver ext r w).0 ≡ err e → ⊥

  -- What polling the control channel and the channels of bytes, and ending them, leave alone.
  pub record Besides {A : Type 0} (c : ℕ) (view : Sys → A) : Type 0 where
    pub ends : Drops ext view
    pub control : (s : Sys) → view (ext.msgs.poll c s).1 ≡ view s
    pub bytes : (r : Receiver) (w : World Sys) → view (poll_receiver ext r w).1.sys ≡ view w.sys

  abbrev pub AllBesides : ℕ → World Sys → World Sys → Type 1
  AllBesides c w w' = (A : Type 0) (view : Sys → A) → Besides c view → view w'.sys ≡ view w.sys

  pub reset_context-channels :
      (ctx : Context) (w : World Sys) → channels_of (reset_context ext ctx w).0 ≡ channels_of ctx
  unfolding reset_context close_send_data
  reset_context-channels ctx w = elim (Option-cases ctx.send_data) [
    | inl e ↦ ground arith
    | inr (b, e) ↦ ground arith
  ]

  swap_receiver-channels :
      (ctx : Context) (r : Receiver) (old : ℕ) (w : World Sys)
      → channels_of (swap_receiver ext ctx r old w).0 ≡ channels_of ctx
  unfolding swap_receiver
  swap_receiver-channels ctx r old w = elim (Option-cases ctx.send_data) [
    | inl e ↦ ground arith
    | inr (b, e) ↦ ground arith
  ]

  recv_message_dropped-channels :
      (ctx : Context) (w : World Sys)
      → channels_of (recv_message_dropped ext ctx w).0 ≡ channels_of ctx
  unfolding recv_message_dropped
  recv_message_dropped-channels ctx w = ground arith

  module _ (c : ℕ) (k : Controlled c) where
    first_of :
        (d : ℕ) (s : Sys) (m : Message) (l : List Message)
        → d ≡ c
        → k.controls s ≡ m ∷ l
        → ((ext.msgs.poll d s).0 ≡ ok (ready (some m))) × (k.controls (ext.msgs.poll d s).1 ≡ l)
    first_of d s m l n e =
        subst
          (λ d.
            ((ext.msgs.poll d s).0 ≡ ok (ready (some m))) × (k.controls (ext.msgs.poll d s).1 ≡ l))
          (sym n) (k.first s m l e)

    over_of :
        (d : ℕ) (s : Sys)
        → d ≡ c
        → k.controls s ≡ []
        → (((ext.msgs.poll d s).0 ≡ ok not_ready) ⊎ ((ext.msgs.poll d s).0 ≡ ok (ready none)))
          × (k.controls (ext.msgs.poll d s).1 ≡ [])
    over_of d s n e =
        subst
          (λ d.
            (((ext.msgs.poll d s).0 ≡ ok not_ready) ⊎ ((ext.msgs.poll d s).0 ≡ ok (ready none)))
            × (k.controls (ext.msgs.poll d s).1 ≡ []))
          (sym n) (k.over s e)

    poll-besides :
        (d : ℕ) (w : World Sys) → d ≡ c → AllBesides c w (on_sys w (ext.msgs.poll d w.sys)).1
    poll-besides d w n A view b =
        subst (λ d. view (ext.msgs.poll d w.sys).1 ≡ view w.sys) (sym n) (b.control w.sys)

    pub poll_control_msg-returns :
        (l : List Message) (fuel : ℕ) (ctx : Context) (w : World Sys)
        → ctx.control_msg ≡ c
        → k.controls w.sys ≡ l
        → AreControls l
        → length l < fuel
        → (a : Async (Unit {0})) × (ctx' : Context) × (w' : World Sys) × (poll_control_msg ext fuel
              ctx w
            ≡ done (ok a, ctx', w'))
          × (k.controls w'.sys ≡ [])
          × (channels_of ctx' ≡ channels_of ctx)
          × AllBesides c w w'
    unfolding poll_control_msg
    poll_control_msg-returns l zero ctx w n e t h = absurd (omega arith)
    poll_control_msg-returns [] (suc fuel) ctx w n e t h =
        let v = (on_sys w (ext.msgs.poll ctx.control_msg w.sys)).1 in
        let (got, left) = over_of ctx.control_msg w.sys n e in
        let first_poll : AllBesides c w v = poll-besides ctx.control_msg w n in
        elim got [
          | inl open_still ↦
              (not_ready, ctx, v, rw (poll_control_msg, open_still) refl, left, refl, first_poll)
          | inr gone ↦
              let (ctx', w') = recv_message_dropped ext ctx v in
              (
                ready tt,
                ctx',
                w',
                rw (poll_control_msg, gone) refl,
                recv_message_dropped-keeps ext k.controls k.drops ctx v ∙ left,
                recv_message_dropped-channels ctx v,
                λ A view b. recv_message_dropped-keeps ext view b.ends ctx v ∙ first_poll A view b,
              )
        ]
    poll_control_msg-returns (Types.reset ∷ l) (suc fuel) ctx w n e t h =
        let v = (on_sys w (ext.msgs.poll ctx.control_msg w.sys)).1 in
        let (got, left) = first_of ctx.control_msg w.sys Types.reset l n e in
        let (ctx₁, v₁) = reset_context ext ctx v in
        let (a, ctx', w', run, over, same, alone) =
          poll_control_msg-returns l fuel ctx₁ v₁ (ap (λ c. c.1) (reset_context-channels ctx v) ∙ n)
            (reset_context-keeps ext k.controls k.drops ctx v ∙ left) t (omega arith) in
        (
          a,
          ctx',
          w',
          rw (poll_control_msg, got) run,
          over,
          same ∙ reset_context-channels ctx v,
          λ A view b.
              alone A view b
              ∙ reset_context-keeps ext view b.ends ctx v
              ∙ poll-besides ctx.control_msg w n A view b,
        )
    poll_control_msg-returns (Types.swap_send_data b old ∷ l) (suc fuel) ctx w n e t h =
        let v = (on_sys w (ext.msgs.poll ctx.control_msg w.sys)).1 in
        let (got, left) = first_of ctx.control_msg w.sys (Types.swap_send_data b old) l n e in
        let (ctx₁, v₁) = swap_receiver ext ctx b old.sender v in
        let (a, ctx', w', run, over, same, alone) =
          poll_control_msg-returns l fuel ctx₁ v₁
            (ap (λ c. c.1) (swap_receiver-channels ctx b old.sender v) ∙ n)
            (swap_receiver-keeps ext k.controls k.drops ctx b old.sender v ∙ left) t
            (omega arith) in
        (
          a,
          ctx',
          w',
          rw (poll_control_msg, got) run,
          over,
          same ∙ swap_receiver-channels ctx b old.sender v,
          λ A view k'.
              alone A view k'
              ∙ swap_receiver-keeps ext view k'.ends ctx b old.sender v
              ∙ poll-besides ctx.control_msg w n A view k',
        )
    poll_control_msg-returns (_ ∷ l) (suc fuel) ctx w n e t h = elim t [ ]

-- ===== src/Stream/Aside.antt =====
-- src/stream.rs: what a stream leaves alone in its callback, its future and its drop.
use picoquic_rs.Base.{ℕ, Bool, true, ◌≡◌, refl, ◌∙◌, arith}
use picoquic_rs.Errors.{Bytes}
use picoquic_rs.World.{World}
use picoquic_rs.Stream.Types.{Context, Ext, Event, Message, Receiver}
use picoquic_rs.Stream.Types as Types
use picoquic_rs.Stream.Receive.{handle_data, handle_event, close_send_data, drop_context}
use picoquic_rs.Stream.Drops.{Drops, close_send_data-keeps}
use picoquic_rs.Stream.Supplies.{Supplies}
use picoquic_rs.Stream.Frame.{Apart, recv_message-keeps}

module _ {Sys : Type 0} (ext : Ext Sys) {A : Type 0} (seen : Sys → A) where
  -- No operation that a stream uses changes what is seen, those of its sending included.
  pub record Aside : Type 0 where
    pub apart : Apart ext seen
    pub closes : (c : ℕ) (s : Sys) → seen (ext.bytes_close.close c s) ≡ seen s
    pub drops_receiver : (c : ℕ) (s : Sys) → seen (ext.drop_receiver c s) ≡ seen s
    pub drops_sender : (c : ℕ) (s : Sys) → seen (ext.drop_sender c s) ≡ seen s
    pub drops_messages : (c : ℕ) (s : Sys) → seen (ext.msgs.drop_sender c s) ≡ seen s
    pub drops_controls : (c : ℕ) (s : Sys) → seen (ext.msgs.drop_receiver c s) ≡ seen s
    pub provides :
        (p n : ℕ) (fin still : Bool) (s : Sys) → seen (ext.provide p n fin still s).1 ≡ seen s

  pub Aside-Drops : Aside → Drops ext seen
  Aside-Drops a = record {
    calls = a.apart.called;
    closes = a.closes;
    drops_receiver = a.drops_receiver;
    drops_sender = a.drops_sender;
  }

  pub Aside-Supplies : Aside → Supplies ext seen
  Aside-Supplies a = record {
    poll_bytes = a.apart.poll_bytes;
    drops_receiver = a.drops_receiver;
    called = a.apart.called;
    provides = a.provides;
  }

  module _ (a : Aside) where
    pub handle_data-keeps :
        (ctx : Context) (b : Bytes) (w : World Sys)
        → seen (handle_data ext ctx b w).1.sys ≡ seen w.sys
    unfolding handle_data
    handle_data-keeps ctx b w =
        ground (arith, recv_message-keeps ext seen a.apart ctx (Types.recv_data b) w)

    pub handle_event-keeps :
        (ctx : Context) (e : Event) (w : World Sys)
        → seen (handle_event ext ctx e w).1.sys ≡ seen w.sys
    unfolding handle_event
    handle_event-keeps ctx Types.stream_reset w =
        recv_message-keeps ext seen a.apart (record ctx { fin_received_or_recv_msg_dropped = true })
          Types.reset w
    handle_event-keeps ctx Types.stream_fin w =
        recv_message-keeps ext seen a.apart (record ctx { fin_received_or_recv_msg_dropped = true })
          Types.close w
    handle_event-keeps ctx Types.stop_sending w =
        close_send_data-keeps ext seen (Aside-Drops a)
          (record ctx { stop_sending_or_fin_sent = true }) w
    handle_event-keeps ctx _ w = refl

    pub drop_context-keeps :
        (ctx : Context) (w : World Sys) → seen (drop_context ext ctx w).sys ≡ seen w.sys
    unfolding drop_context
    drop_context-keeps ctx w =
        let (taken, s) = ext.msgs.unbounded_send ctx.recv_msg Types.close w.sys in
        let w₁ = (close_send_data ext ctx (record w { sys = s })).1 in
        a.drops_controls ctx.control_msg (ext.msgs.drop_sender ctx.recv_msg w₁.sys)
        ∙ a.drops_messages ctx.recv_msg w₁.sys
        ∙ close_send_data-keeps ext seen (Aside-Drops a) ctx (record w { sys = s })
        ∙ a.apart.unbounded_send ctx.recv_msg Types.close w.sys

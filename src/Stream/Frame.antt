-- ===== src/Stream/Frame.antt =====
-- src/stream.rs: what a stream leaves alone. Something outside that none of the operations a stream
-- uses changes is not changed by the functions of a stream either.
use picoquic_rs.Base.{ℕ, ◌≡◌, ◌∙◌, Bool, Option-cases, none, some, inl, inr, Option, arith}
use picoquic_rs.Errors.{ErrorFn}
use picoquic_rs.World
use picoquic_rs.World.{World}
use picoquic_rs.Channel
use picoquic_rs.Stream.Types.{Context, Ext, Message, Receiver, SocketAddr}
use picoquic_rs.Stream.Types as Types
use picoquic_rs.Stream.Receive.{
  new_stream, create_send_and_recv_data, new_context, recv_message, recv_message_dropped,
  handle_connection_error, handle_connection_close,
}

module _ {Sys : Type 0} (ext : Ext Sys) {A : Type 0} (seen : Sys → A) where
  -- No operation that a stream uses changes what is seen.
  pub record Apart : Type 0 where
    pub unbounded : (s : Sys) → seen (ext.msgs.unbounded s).1 ≡ seen s
    pub unbounded_send :
        (c : ℕ) (m : Message) (s : Sys) → seen (ext.msgs.unbounded_send c m s).1 ≡ seen s
    pub poll_message : (c : ℕ) (s : Sys) → seen (ext.msgs.poll c s).1 ≡ seen s
    pub create_bytes : (n : ℕ) (s : Sys) → seen (ext.create_bytes n s).1 ≡ seen s
    pub poll_bytes : (c : ℕ) (s : Sys) → seen (ext.bytes_stream.poll c s).1 ≡ seen s
    pub called : (c : World.Call) (s : Sys) → seen (ext.call c s) ≡ seen s

  module _ (a : Apart) where
    pub recv_message-keeps :
        (ctx : Context) (m : Message) (w : World Sys)
        → seen (recv_message ext ctx m w).1.sys ≡ seen w.sys
    unfolding recv_message recv_message_dropped
    recv_message-keeps ctx m w = ground (
      arith,
      a.unbounded_send ctx.recv_msg m w.sys,
      a.called (World.stop_sending ctx.cnx ctx.id 0)
          (ext.msgs.unbounded_send ctx.recv_msg m w.sys).1,
    )

    pub handle_connection_close-keeps :
        (ctx : Context) (w : World Sys)
        → seen (handle_connection_close ext ctx w).1.sys ≡ seen w.sys
    unfolding handle_connection_close
    handle_connection_close-keeps ctx w = recv_message-keeps ctx Types.close w

    pub handle_connection_error-keeps :
        (e : ErrorFn) (ctx : Context) (w : World Sys)
        → seen (handle_connection_error ext ctx e w).1.sys ≡ seen w.sys
    unfolding handle_connection_error Channel.propagate_error Channel.set_error
    handle_connection_error-keeps e ctx w =
        let (ctx', w') = recv_message ext ctx (Types.error (e tt)) w in
        let first = recv_message-keeps ctx (Types.error (e tt)) w in
        elim (Option-cases ctx'.send_data) [
          | inl h ↦ ground (arith, first)
          | inr (s, h) ↦ ground (arith, first)
        ]

    create_send_and_recv_data-keeps :
        (id : ℕ) (is_client : Bool) (size : ℕ) (w : World Sys)
        → seen (create_send_and_recv_data ext id is_client size w).1.sys ≡ seen w.sys
    unfolding create_send_and_recv_data Channel.pair Channel.new_state
    create_send_and_recv_data-keeps id is_client size w = ground (arith, a.create_bytes size w.sys)

    new_context-keeps :
        (recv_msg control_msg : ℕ) (rx : Option Receiver) (id cnx : ℕ) (is_client : Bool)
        (w : World Sys)
        → seen (new_context ext recv_msg control_msg rx id cnx is_client w).1.sys ≡ seen w.sys
    unfolding new_context Channel.poll
    new_context-keeps recv_msg control_msg none id cnx is_client w =
        a.poll_message control_msg w.sys
    new_context-keeps recv_msg control_msg (some r) id cnx is_client w =
        a.poll_bytes r.receiver (ext.msgs.poll control_msg w.sys).1
        ∙ a.poll_message control_msg w.sys

    pub new_stream-keeps :
        (id cnx : ℕ) (addr : SocketAddr) (is_client : Bool) (size : ℕ) (w : World Sys)
        → seen (new_stream ext id cnx addr is_client size w).1.sys ≡ seen w.sys
    unfolding new_stream
    new_stream-keeps id cnx addr is_client size w =
        let (recv_msg, s₁) = ext.msgs.unbounded w.sys in
        let (control_msg, s₂) = ext.msgs.unbounded s₁ in
        let ((tx, rx), w₃) =
          create_send_and_recv_data ext id is_client size (record w { sys = s₂ }) in
        new_context-keeps recv_msg control_msg rx id cnx is_client w₃
        ∙ create_send_and_recv_data-keeps id is_client size (record w { sys = s₂ })
        ∙ a.unbounded s₁
        ∙ a.unbounded w.sys

-- ===== src/Inner/Create.antt =====
-- src/context_inner.rs: `ContextInner::new`.
use picoquic_rs.Base.{ℕ, zero, suc, [], ◌∷◌, none, some, Option, Result, ok, err, Exec, done, ◌>>=◌}
use picoquic_rs.Errors.{Error, Bytes, from_kind, network_error}
use picoquic_rs.World.{World, on_sys, with_sys}
use picoquic_rs.Stream.Types.{SocketAddr}
use picoquic_rs.Ffi.MicroSeconds.{Duration}
use picoquic_rs.Ffi.QuicCtx.{QuicCtx, Picoquic}
use picoquic_rs.Ffi.QuicCtx as QuicCtx
use picoquic_rs.Config.{Config}
use picoquic_rs.Inner.Accept as Accept
use picoquic_rs.Inner.Accept.{CContext, keep_alive_intervals}
use picoquic_rs.Inner.Drive.{ContextInner}

-- What starting needs from outside. `context_ptr` is the address of the shared `CContext`, which
-- picoquic gets; `max_packet_size` is picoquic's constant; `create_close` makes the two halves of the
-- oneshot channel for the end; `bind` gives the socket, whose own address is `socket_addr`.
pub record Start (Sys IoError H : Type 0) : Type 0 where
  pub accept : Accept.Ext Sys
  pub quic : Picoquic Sys H
  pub context_ptr : ℕ
  pub max_packet_size : ℕ
  pub create_close : Sys → (ℕ × ℕ) × Sys
  pub bind : SocketAddr → Sys → Result ℕ IoError × Sys
  pub socket_addr : ℕ → Sys → SocketAddr

-- `vec![0; n]`
abbrev pub zeros : ℕ → Bytes
zeros zero = []
zeros (suc n) = 0 ∷ zeros n

-- `CContext::new`: nobody else has a connection yet.
unfoldable pub new_context : ℕ → Option Duration → ℕ → CContext
new_context send_con interval size = record {
  connections = [];
  send_con = send_con;
  server_keep_alive_interval = interval;
  stream_send_channel_default_size = size;
}

-- `ContextInner` and what the application gets: the receiver of connections, the handle to ask for
-- one, and the receiver of the close handle.
pub record Pieces : Type 0 where
  pub inner : ContextInner
  pub recv_con : ℕ
  pub connect : ℕ
  pub close_handle : ℕ

module _ {Sys IoError H : Type 0} (st : Start Sys IoError H) where
  -- The future with its fields, and what the application gets; `local_addr` is the socket's.
  abbrev pub pieces : Config H → QuicCtx → ℕ → ℕ → ℕ × ℕ → SocketAddr → Pieces
  pieces c quic chan connect close local_addr =
      let (client_interval, server_interval) =
        keep_alive_intervals c.keep_alive_sender c.keep_alive_interval in
      let size = c.stream_send_channel_default_size in
      record {
        inner = record {
          context = new_context chan server_interval size;
          quic = quic;
          buffers = record { buffer = zeros st.max_packet_size; not_send_length = none };
          recv_connect = connect;
          local_addr = local_addr;
          client_keep_alive_interval = client_interval;
          close_handle = some close.0;
          stream_send_channel_default_size = size;
        };
        recv_con = chan;
        connect = connect;
        close_handle = close.1;
      }

  -- Where the socket cannot be bound, picoquic's context is freed with the `QuicCtx`. The channels made
  -- so far have no half that is held elsewhere.
  abbrev pub bound :
      Config H
      → QuicCtx
      → ℕ
      → ℕ
      → ℕ × ℕ
      → Result ℕ IoError × World Sys
      → Result Pieces Error × World Sys
  bound c quic chan connect close (err e, w) =
      (err (from_kind network_error), with_sys w (QuicCtx.drop st.quic quic))
  bound c quic chan connect close (ok socket, w) =
      (ok (pieces c quic chan connect close (st.socket_addr socket w.sys)), w)

  abbrev pub assemble :
      Config H
      → SocketAddr
      → ℕ
      → Result QuicCtx Error × Sys
      → World Sys
      → Result Pieces Error × World Sys
  assemble c listen chan (err e, s) w = (err e, record w { sys = s })
  assemble c listen chan (ok quic, s) w =
      let w₁ : World Sys = record w { sys = s } in
      let (connect, w₂) = on_sys w₁ (st.accept.requests.unbounded w₁.sys) in
      let (close, w₃) = on_sys w₂ (st.create_close w₂.sys) in
      bound c quic chan connect close (on_sys w₃ (st.bind listen w₃.sys))

  -- `ContextInner::new`
  unfoldable pub new : SocketAddr → Config H → World Sys → Exec (Result Pieces Error × World Sys)
  unfolding keep_alive_intervals new_context
  new listen c w =
      let (chan, w₁) = on_sys w (st.accept.new_cons.unbounded w.sys) in
      QuicCtx.new st.quic c st.context_ptr w₁.sys >>= λ r. done (assemble c listen chan r w₁)

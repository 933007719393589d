-- ===== src/Connection/Callback.antt =====
-- src/connection.rs: the callback that picoquic makes for a connection, and how connections begin.
use picoquic_rs.Base.{
  ℕ, ◌-◌, Bool, true, false, Option, none, some, Result, ok, err, Exec, done, ◌>>=◌, ◌==◌,
  if◌then◌else◌,
}
use picoquic_rs.Errors.{Error}
use picoquic_rs.World.{World, on_sys}
use picoquic_rs.Stream.Types.{SocketAddr, Event, callback_close, application_close}
use picoquic_rs.Ffi.Cnx as Cnx
use picoquic_rs.Ffi.Cnx.{con_type}
use picoquic_rs.Ffi.MicroSeconds.{Duration}
use picoquic_rs.Connection.Types.{Connection, ConnectionBuilder, Context, Ext, build}
use picoquic_rs.Connection.Context as Ctx

-- `Arc<Mutex<Context>>`: the context and how many references to it are counted.
pub record Shared : Type 0 where
  pub context : Context
  pub strong : ℕ

module _ {Sys : Type 0} (ext : Ext Sys) where
  -- A reference is given up; with the last one the context is dropped.
  unfoldable pub release : Shared → World Sys → Shared × World Sys
  release s w =
      let left = s.strong - 1 in
      (record s { strong = left }, if left == 0 then Ctx.drop ext s.context w else w)

  -- `connection_callback` with a context that is not null. The reference that picoquic holds is
  -- given up when the connection is closed, and kept otherwise.
  unfoldable pub connection_callback :
      ℕ → ℕ → ℕ → ℕ → Event → Shared → World Sys → Exec (Shared × World Sys)
  unfolding release
  connection_callback fuel id ptr length callback_close s w = do
    (ctx₁, w₁) ← Ctx.check_and_handle_error ext fuel s.context w
    let (ctx₂, w₂) = Ctx.close ext ctx₁ w₁
    done (release (record { context = ctx₂; strong = s.strong }) w₂)
  connection_callback fuel id ptr length application_close s w = do
    (ctx₁, w₁) ← Ctx.check_and_handle_error ext fuel s.context w
    let (ctx₂, w₂) = Ctx.close ext ctx₁ w₁
    done (release (record { context = ctx₂; strong = s.strong }) w₂)
  connection_callback fuel id ptr length event s w = do
    (ctx₁, w₁) ← Ctx.handle_callback ext fuel id ptr length event s.context w
    done (record { context = ctx₁; strong = s.strong }, w₁)

  -- `create_builder`
  unfoldable pub create_builder :
      ℕ
      → SocketAddr
      → SocketAddr
      → Bool
      → Option Duration
      → ℕ
      → World Sys
      → (ConnectionBuilder × Shared) × World Sys
  create_builder cnx peer_addr local_addr is_client keep_alive size w =
      let (chan, w₁) = on_sys w (ext.msgs.unbounded w.sys) in
      let ((close_send, close_recv), w₂) = on_sys w₁ (ext.create_oneshot w₁.sys) in
      let ((ctx, handle), w₃) =
        Ctx.new_context ext cnx chan close_recv is_client local_addr size w₂ in
      let w₄ : World Sys = elim keep_alive [
        | none ↦ w₃
        | some d ↦ Cnx.enable_keep_alive ext.streams.call cnx d w₃
      ] in
      (
        (
          record {
            msg_recv = chan;
            close_send = close_send;
            peer_addr = peer_addr;
            local_addr = local_addr;
            new_stream_handle = handle;
            ctype = con_type (ext.is_client cnx w₄.sys);
          },
          record { context = ctx; strong = 2 },
        ),
        w₄,
      )

  -- `Connection::from_incoming`: the callback is made once for what has come already.
  unfoldable pub from_incoming :
      ℕ
      → ℕ
      → ℕ
      → ℕ
      → ℕ
      → Event
      → Option Duration
      → ℕ
      → World Sys
      → Exec ((Connection × Shared) × World Sys)
  unfolding create_builder connection_callback
  from_incoming fuel cnx id ptr length event keep_alive size w = do
    let ((builder, shared), w₁) =
        create_builder cnx (ext.streams.cnx_peer_addr cnx w.sys) (ext.cnx_local_addr cnx w.sys)
          false keep_alive size w
    let con = build builder (ext.local_cnxid cnx w₁.sys)
    (shared', w₂) ← connection_callback fuel id ptr length event shared w₁
    done ((con, shared'), w₂)

  -- `Connection::create`, after `ffi::Connection::new` gave the connection or failed.
  unfoldable pub create :
      Result ℕ Error
      → SocketAddr
      → SocketAddr
      → Option Duration
      → ℕ
      → ℕ
      → World Sys
      → Result Shared Error × World Sys
  unfolding create_builder
  create (err e) peer_addr local_addr keep_alive sender size w = (err e, w)
  create (ok cnx) peer_addr local_addr keep_alive sender size w =
      let ((builder, shared), w₁) =
        create_builder cnx peer_addr local_addr true keep_alive size w in
      let ctx = shared.context in
      (
        ok (record shared {
          context = record ctx { wait_for_ready_state = some (builder, sender) };
        }),
        w₁,
      )

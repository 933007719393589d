-- ===== src/PicoquicContext/Create.antt =====
-- src/context.rs: `Context::new`, from the check of the configuration to the future that runs.
use picoquic_rs.Base.{Bool, Result, ok, err, Exec, done, ◌>>=◌}
use picoquic_rs.Errors.{Error, Foreign, from_foreign, spawn_error}
use picoquic_rs.World.{World, on_sys, with_sys}
use picoquic_rs.Stream.Types.{SocketAddr}
use picoquic_rs.Ffi.QuicCtx as QuicCtx
use picoquic_rs.Config.{Config, FilePath, verify}
use picoquic_rs.Inner.Create.{Start, Pieces}
use picoquic_rs.Inner.Create as Inner
use picoquic_rs.Inner.Drive as Drive
use picoquic_rs.Inner.Drive.{ContextInner, Outside}
use picoquic_rs.PicoquicContext.{Context}
use Prim.Native.String.{String}

-- The file system, the formatting of a path, and the executor, which may refuse the future.
pub record Executor (Sys : Type 0) : Type 0 where
  pub exists : FilePath → Bool
  pub show : FilePath → String
  pub spawn : Sys → Result (Unit {0}) Foreign × Sys

module _ {Sys IoError H : Type 0} (ex : Executor Sys) (st : Start Sys IoError H)
    (out : Outside Sys IoError) where
  -- A future that is dropped tells the `Context`, then frees picoquic's context.
  abbrev pub drop_inner : ContextInner → World Sys → World Sys
  drop_inner i w =
      let (i', w') = Drive.drop out (i, w) in with_sys w' (QuicCtx.drop st.quic i'.quic)

  abbrev pub application : Pieces → Context
  application p = record {
    recv_con = p.recv_con;
    local_addr = p.inner.local_addr;
    new_connection_handle = p.connect;
    close_handle = p.close_handle;
  }

  abbrev pub spawned :
      Pieces
      → Result (Unit {0}) Foreign × World Sys
      → Result (Context × ContextInner) Error × World Sys
  spawned p (err e, w) = (err (from_foreign (spawn_error e)), drop_inner p.inner w)
  spawned p (ok _, w) = (ok (application p, p.inner), w)

  abbrev pub start :
      Result Pieces Error × World Sys → Result (Context × ContextInner) Error × World Sys
  start (err e, w) = (err e, w)
  start (ok p, w) = spawned p (on_sys w (ex.spawn w.sys))

  abbrev pub after_check :
      Result (Unit {0}) Error
      → SocketAddr
      → Config H
      → World Sys
      → Exec (Result (Context × ContextInner) Error × World Sys)
  after_check (err e) listen c w = done (err e, w)
  after_check (ok _) listen c w = Inner.new st listen c w >>= λ r. done (start r)

  -- `Context::new`, and the future that the executor runs from then on.
  unfoldable pub new :
      SocketAddr → Config H → World Sys → Exec (Result (Context × ContextInner) Error × World Sys)
  unfolding Drive.drop
  new listen c w = after_check (verify ex.exists ex.show c) listen c w

-- ===== src/PicoquicContext.antt =====
-- src/context.rs: `Context`, by which the application takes new connections and asks for them.
pub mod Create
pub mod Paired
mod Examples
use picoquic_rs.Base.{
  ℕ, Option, none, some, Result, ok, err, Async, ready, not_ready, Poll, map_err,
}
use picoquic_rs.Errors.{Error, from_kind, unknown}
use picoquic_rs.World.{World, on_sys, with_sys}
use picoquic_rs.Stream.Types.{SocketAddr}
use picoquic_rs.Connection.Types.{Connection}
use picoquic_rs.Inner.Accept as Accept
use Prim.Native.String.{String}

pub record Context : Type 0 where
  pub recv_con : ℕ
  pub local_addr : SocketAddr
  pub new_connection_handle : ℕ
  pub close_handle : ℕ

-- The channels of a `Context`. A `Context` that is dropped drops its receiver of the close handle.
pub record Ext (Sys : Type 0) : Type 0 where
  pub accept : Accept.Ext Sys
  pub poll_close : ℕ → Sys → Poll (Unit {0}) (Unit {0}) × Sys
  pub drop_close : ℕ → Sys → Sys

module _ {Sys : Type 0} (ext : Ext Sys) where
  -- `Context::new_connection`
  unfoldable pub new_connection : Context → SocketAddr → String → World Sys → ℕ × World Sys
  new_connection c addr name w =
      Accept.new_connection ext.accept c.new_connection_handle addr name w

  -- `Stream for Context`
  unfoldable pub poll : Context → World Sys → Poll (Option Connection) Error × World Sys
  poll c w =
      let (closed, w₁) = on_sys w (ext.poll_close c.close_handle w.sys) in
      elim closed [
        | ok not_ready ↦
            let (r, w₂) = on_sys w₁ (ext.accept.new_cons.poll c.recv_con w₁.sys) in
            (map_err (λ _. from_kind unknown) r, w₂)
        | _ ↦ (ok (ready none), w₁)
      ]

  -- The end of a `Context`, as far as the driving future notices it.
  unfoldable pub drop : Context → World Sys → World Sys
  drop c w = with_sys w (ext.drop_close c.close_handle)

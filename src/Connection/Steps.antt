-- ===== src/Connection/Steps.antt =====
-- src/connection.rs: what a connection goes through, step by step.
use picoquic_rs.Base.{ℕ, ◌≡◌, Async, done}
use picoquic_rs.World.{World}
use picoquic_rs.Stream.Types.{Event}
use picoquic_rs.Connection.Types.{Context, Ext}
use picoquic_rs.Connection.Context as Ctx
use picoquic_rs.Connection.Callback.{Shared, connection_callback}

-- What a connection goes through: picoquic's callbacks and polls, as far as they return, and what the
-- outside does in between, `Elsewhere`.
pub data Steps {Sys : Type 0} (ext : Ext Sys) (Elsewhere : World Sys → World Sys → Type 0)
    : Shared → World Sys → Shared → World Sys → Type 0 where
  stay : {s : Shared} {w : World Sys} → Steps ext Elsewhere s w s w
  called :
      {s s' s'' : Shared} {w w' w'' : World Sys} (fuel id ptr length' : ℕ) (event : Event)
      → connection_callback ext fuel id ptr length' event s w ≡ done (s', w')
      → Steps ext Elsewhere s' w' s'' w''
      → Steps ext Elsewhere s w s'' w''
  polled :
      {s s'' : Shared} {w w' w'' : World Sys} (fuel : ℕ) (r : Async (Unit {0})) (ctx' : Context)
      → Ctx.poll ext fuel s.context w ≡ done (r, ctx', w')
      → Steps ext Elsewhere (record s { context = ctx' }) w' s'' w''
      → Steps ext Elsewhere s w s'' w''
  meanwhile :
      {s s'' : Shared} {w w' w'' : World Sys}
      → Elsewhere w w'
      → Steps ext Elsewhere s w' s'' w''
      → Steps ext Elsewhere s w s'' w''

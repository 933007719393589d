-- ===== src/Inner/Life.antt =====
-- src/context_inner.rs: what the connections of a context go through, one by one.
use picoquic_rs.Base.{ℕ, ◌≡◌, List, [], ◌∷◌, ◌++◌, Option, some, Result, ok, ready, not_ready, done}
use picoquic_rs.Errors.{Error}
use picoquic_rs.World.{World, on_sys}
use picoquic_rs.Stream.Types.{SocketAddr, Event}
use picoquic_rs.Ffi.Cnx.{new_cnx}
use picoquic_rs.Ffi.MicroSeconds.{Duration}
use picoquic_rs.Connection.Types.{Context}
use picoquic_rs.Connection.Context as Con
use picoquic_rs.Connection.Callback.{Shared, connection_callback, create, release}
use picoquic_rs.Inner.Accept.{CContext, Ext, NewConnectionMsg, new_connection_callback, push_made}
use Prim.Native.String.{String}

module _ {Sys : Type 0} (ext : Ext Sys) (Elsewhere : World Sys → World Sys → Type 0) where
  -- The first list has the connections that were let go by the future, which picoquic may still know;
  -- the list behind the first world has who asked for a connection in these steps, in order.
  pub data Life
      : CContext
        → List Shared
        → World Sys
        → List ℕ
        → CContext
        → List Shared
        → World Sys
        → Type 0 where
    stay : {c : CContext} {g : List Shared} {w : World Sys} → Life c g w [] c g w
    -- A request for a connection is received, and the connection made or not.
    took :
        {c c' : CContext} {g g' : List Shared} {w w₁ w₂ w₃ w' : World Sys} {ks : List ℕ}
        (recv now size sender : ℕ) (local_addr addr : SocketAddr) (name : String)
        (keep_alive : Option Duration) (cnx : Result ℕ Error) (made : Result Shared Error)
        → on_sys w (ext.requests.poll recv w.sys) ≡ (ok (ready (some (addr, name, sender))), w₁)
        → new_cnx
            (ext.is_unspecified addr)
            (ext.has_nul name)
            (λ v. on_sys v (ext.create_client_cnx addr name now v.sys))
            w₁
          ≡ done (cnx, w₂)
        → create ext.con cnx addr local_addr keep_alive sender size w₂ ≡ (made, w₃)
        → Life (push_made c made) g w₃ ks c' g' w'
        → Life c g w (sender ∷ ks) c' g' w'
    -- There is no request.
    looked :
        {c c' : CContext} {g g' : List Shared} {w w' : World Sys} {ks : List ℕ} (recv : ℕ)
        → ((m : NewConnectionMsg) → (ext.requests.poll recv w.sys).0 ≡ ok (ready (some m)) → ⊥)
        → Life c g (on_sys w (ext.requests.poll recv w.sys)).1 ks c' g' w'
        → Life c g w ks c' g' w'
    -- A connection comes in.
    accepted :
        {c c₁ c' : CContext} {g g' : List Shared} {w w₁ w' : World Sys} {ks : List ℕ}
        (fuel cnx id ptr size : ℕ) (event : Event)
        → new_connection_callback ext fuel cnx id ptr size event c w ≡ done (c₁, w₁)
        → Life c₁ g w₁ ks c' g' w'
        → Life c g w ks c' g' w'
    -- Picoquic's callback for a connection that is there, and for one that was let go.
    called :
        {c c' : CContext} {g g' : List Shared} {w w₁ w' : World Sys} {ks : List ℕ}
        (a b : List Shared) (s s₁ : Shared) (fuel id ptr size : ℕ) (event : Event)
        → c.connections ≡ a ++ s ∷ b
        → connection_callback ext.con fuel id ptr size event s w ≡ done (s₁, w₁)
        → Life (record c { connections = a ++ s₁ ∷ b }) g w₁ ks c' g' w'
        → Life c g w ks c' g' w'
    called_gone :
        {c c' : CContext} {g g' : List Shared} {w w₁ w' : World Sys} {ks : List ℕ}
        (a b : List Shared) (s s₁ : Shared) (fuel id ptr size : ℕ) (event : Event)
        → g ≡ a ++ s ∷ b
        → connection_callback ext.con fuel id ptr size event s w ≡ done (s₁, w₁)
        → Life c (a ++ s₁ ∷ b) w₁ ks c' g' w'
        → Life c g w ks c' g' w'
    -- The future of a connection is polled, and is not finished; or is, and the reference that the
    -- future of all connections has to it is given up.
    polled :
        {c c' : CContext} {g g' : List Shared} {w w₁ w' : World Sys} {ks : List ℕ}
        (a b : List Shared) (s : Shared) (ctx : Context) (fuel : ℕ)
        → c.connections ≡ a ++ s ∷ b
        → Con.poll ext.con fuel s.context w ≡ done (not_ready, ctx, w₁)
        → Life (record c { connections = a ++ record s { context = ctx } ∷ b }) g w₁ ks c' g' w'
        → Life c g w ks c' g' w'
    finished :
        {c c' : CContext} {g g' : List Shared} {w w₁ w' : World Sys} {ks : List ℕ}
        (a b : List Shared) (s : Shared) (ctx : Context) (fuel : ℕ)
        → c.connections ≡ a ++ s ∷ b
        → Con.poll ext.con fuel s.context w ≡ done (ready tt, ctx, w₁)
        → Life
            (record c { connections = a ++ b })
            ((release ext.con (record s { context = ctx }) w₁).0 ∷ g)
            (release ext.con (record s { context = ctx }) w₁).1
            ks
            c'
            g'
            w'
        → Life c g w ks c' g' w'
    meanwhile :
        {c c' : CContext} {g g' : List Shared} {w w₁ w' : World Sys} {ks : List ℕ}
        → Elsewhere w w₁
        → Life c g w₁ ks c' g' w'
        → Life c g w ks c' g' w'

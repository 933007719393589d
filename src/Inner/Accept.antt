-- ===== src/Inner/Accept.antt =====
-- src/context_inner.rs: how connections come in and go out, `CContext`, and who keeps them alive.
use picoquic_rs.Base.{
  ℕ, zero, suc, Bool, true, false, List, [], ◌∷◌, ◌++◌, Option, none, some, Result, ok, err, Async,
  ready, not_ready, Poll, Exec, done, out_of_fuel, ◌>>=◌, if◌then◌else◌,
}
use picoquic_rs.Errors.{Error, canceled, from_foreign}
use picoquic_rs.World.{World, Mpsc, on_sys}
use picoquic_rs.Stream.Types.{SocketAddr, Event}
use picoquic_rs.Ffi.Cnx.{is_going_to_close, new_cnx}
use picoquic_rs.Ffi.MicroSeconds.{Duration}
use picoquic_rs.Config.{Role, server, client}
use picoquic_rs.Connection.Types.{Connection, Context}
use picoquic_rs.Connection.Types as ConnectionTypes
use picoquic_rs.Connection.Context as Con
use picoquic_rs.Connection.Callback.{Shared, from_incoming, create, release}
use Prim.Native.String.{String}

-- `CContext`, with the contexts that it shares.
pub record CContext : Type 0 where
  pub connections : List Shared
  pub send_con : ℕ
  pub server_keep_alive_interval : Option Duration
  pub stream_send_channel_default_size : ℕ

-- `ContextInner::new`: the keep alive interval of clients and that of servers.
unfoldable pub keep_alive_intervals : Role → Option Duration → Option Duration × Option Duration
keep_alive_intervals client interval = (interval, none)
keep_alive_intervals server interval = (none, interval)

-- A request for a connection: where to, the server's name, and the oneshot for the answer.
abbrev pub NewConnectionMsg : Type 0
NewConnectionMsg = SocketAddr × String × ℕ

pub record Ext (Sys : Type 0) : Type 0 where
  pub con : ConnectionTypes.Ext Sys
  pub requests : Mpsc Sys NewConnectionMsg
  pub new_cons : Mpsc Sys Connection
  pub create_oneshot : Sys → (ℕ × ℕ) × Sys
  pub poll_answer : ℕ → Sys → Poll (Result Connection Error) (Unit {0}) × Sys
  pub is_unspecified : SocketAddr → Bool
  pub has_nul : String → Bool
  pub create_client_cnx : SocketAddr → String → ℕ → Sys → ℕ × Sys
  pub cnx_state : ℕ → Sys → ℕ
  pub state_closing : ℕ

abbrev pub push_made : CContext → Result Shared Error → CContext
push_made c (ok shared) = record c { connections = c.connections ++ shared ∷ [] }
push_made c (err _) = c

module _ {Sys : Type 0} (ext : Ext Sys) where
  -- `check_for_new_connection_request`, on fuel. A connection that could not be made is only logged.
  unfoldable pub check_for_new_connection_request :
      ℕ
      → ℕ
      → SocketAddr
      → ℕ
      → Option Duration
      → ℕ
      → CContext
      → World Sys
      → Exec (CContext × World Sys)
  check_for_new_connection_request zero recv local_addr now keep_alive size c w = out_of_fuel
  check_for_new_connection_request (suc fuel) recv local_addr now keep_alive size c w =
      let (r, w₁) = on_sys w (ext.requests.poll recv w.sys) in
      elim r [
        | ok (ready (some (addr, name, sender))) ↦ do
          (cnx, w₂) ←
              new_cnx (ext.is_unspecified addr) (ext.has_nul name)
                (λ v. on_sys v (ext.create_client_cnx addr name now v.sys)) w₁
          let (made, w₃) = create ext.con cnx addr local_addr keep_alive sender size w₂
          check_for_new_connection_request fuel recv local_addr now keep_alive size
              (push_made c made) w₃
        | _ ↦ done (c, w₁)
      ]

  -- `new_connection_callback` with a context that is not null, and `CContext::new_connection`.
  unfoldable pub new_connection_callback :
      ℕ → ℕ → ℕ → ℕ → ℕ → Event → CContext → World Sys → Exec (CContext × World Sys)
  new_connection_callback fuel cnx id ptr length event c w =
      if is_going_to_close ext.state_closing (ext.cnx_state cnx w.sys)
      then done (c, w)
      else (from_incoming ext.con fuel cnx id ptr length event c.server_keep_alive_interval
            c.stream_send_channel_default_size w
          >>= λ ((con, shared), w₁). done (
            record c { connections = c.connections ++ shared ∷ [] },
            (on_sys w₁ (ext.new_cons.unbounded_send c.send_con con w₁.sys)).1,
          ))

  abbrev pub keeps : Async (Unit {0}) → Bool
  keeps not_ready = true
  keeps (ready _) = false

  -- `Future for CContext`: when a connection is finished, the reference to its context is given up,
  -- before the next one is polled.
  unfoldable pub poll : ℕ → List Shared → World Sys → Exec (List Shared × World Sys)
  unfolding release
  poll fuel [] w = done ([], w)
  poll fuel (s ∷ l) w = do
    (r, ctx, w₁) ← Con.poll ext.con fuel s.context w
    let s' = record s { context = ctx }
    (l', w₂) ← poll fuel l (if keeps r then w₁ else (release ext.con s' w₁).1)
    done (if keeps r then s' ∷ l' else l', w₂)

  -- `NewConnectionHandle::new_connection`: the future is the receiving half of the oneshot.
  unfoldable pub new_connection : ℕ → SocketAddr → String → World Sys → ℕ × World Sys
  new_connection handle addr name w =
      let ((sender, recv), w₁) = on_sys w (ext.create_oneshot w.sys) in
      (recv, (on_sys w₁ (ext.requests.unbounded_send handle (addr, name, sender) w₁.sys)).1)

  abbrev resolved : Poll (Result Connection Error) (Unit {0}) → Poll Connection Error
  resolved (err _) = err (from_foreign canceled)
  resolved (ok not_ready) = ok not_ready
  resolved (ok (ready (ok c))) = ok (ready c)
  resolved (ok (ready (err e))) = err e

  -- `NewConnectionFuture::poll`
  unfoldable pub poll_new_connection : ℕ → World Sys → Poll Connection Error × World Sys
  poll_new_connection recv w =
      let (r, w') = on_sys w (ext.poll_answer recv w.sys) in (resolved r, w')

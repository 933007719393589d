-- ===== src/Inner/Drive.antt =====
-- src/context_inner.rs: `ContextInner` and the steps of a round of its loop.
use picoquic_rs.Base.{ℕ, Bool, Option, none, some, Async, Poll, Exec, done, ◌>>=◌}
use picoquic_rs.World.{World, on_sys, with_sys}
use picoquic_rs.Stream.Types.{SocketAddr}
use picoquic_rs.Ffi.MicroSeconds.{Duration, get_next_wake_up_time}
use picoquic_rs.Ffi.QuicCtx.{QuicCtx}
use picoquic_rs.Inner.Socket.{Buffers}
use picoquic_rs.Inner.Socket as Socket
use picoquic_rs.Inner.Accept.{CContext}
use picoquic_rs.Inner.Accept as Accept
use picoquic_rs.Inner.Loop.{Round, context_dropped}
use picoquic_rs.Inner.Loop as Loop

-- `ContextInner`; `context` is what its `Mutex` holds.
pub record ContextInner : Type 0 where
  pub context : CContext
  pub quic : QuicCtx
  pub buffers : Buffers
  pub recv_connect : ℕ
  pub local_addr : SocketAddr
  pub client_keep_alive_interval : Option Duration
  pub close_handle : Option ℕ
  pub stream_send_channel_default_size : ℕ

-- What the future meets outside. Picoquic may call back while it takes in or prepares a packet, so
-- that those operations of `socket` change the shared `CContext` too. `timer` is the reset of the
-- timer to fire after a duration from now, and its poll.
pub record Outside (Sys IoError : Type 0) : Type 0 where
  pub accept : Accept.Ext Sys
  pub socket : Socket.Ext (CContext × World Sys) IoError
  pub current_time : Sys → ℕ × Sys
  pub poll_cancel : ℕ → Sys → Poll (Unit {0}) (Unit {0}) × Sys
  pub next_wake_delay : ℕ → ℕ → Sys → ℕ
  pub timer : Duration → Sys → Poll (Unit {0}) (Unit {0}) × Sys
  pub notify : Sys → Sys
  pub send_close : ℕ → Sys → Sys

module _ {Sys IoError : Type 0} (out : Outside Sys IoError) where
  abbrev pub State : Type 0
  State = ContextInner × World Sys

  -- The start of a round: the connections' futures, then the current time.
  unfoldable pub work : ℕ → State → Exec (ℕ × State)
  work fuel (i, w) = do
    (connections, w₁) ← Accept.poll out.accept fuel i.context.connections w
    let (now, w₂) = on_sys w₁ (out.current_time w₁.sys)
    done (now, (record i { context = record i.context { connections = connections } }, w₂))

  -- Whether the application's `Context` is gone.
  unfoldable pub dropped : State → Bool × State
  dropped (i, w) = elim i.close_handle [
    | none ↦ (context_dropped none, (i, w))
    | some h ↦
        let (r, w₁) = on_sys w (out.poll_cancel h w.sys) in (context_dropped (some r), (i, w₁))
  ]

  -- The rest of a round, up to the question when to wake up. What the stateless packets end with is
  -- thrown away.
  unfoldable pub exchange : ℕ → ℕ → State → Exec State
  exchange fuel now (i, w) = do
    (c, w₁) ←
        Accept.check_for_new_connection_request out.accept fuel i.recv_connect i.local_addr now
          i.client_keep_alive_interval i.stream_send_channel_default_size i.context w
    (b, s) ← Socket.check_for_incoming_data out.socket fuel i.local_addr now i.buffers (c, w₁)
    (_, s₁) ← Socket.send_stateless_packets out.socket fuel s
    (b', (c', w₂)) ← Socket.send_connection_packets out.socket fuel now b s₁
    done (record i { buffers = b'; context = c' }, w₂)

  abbrev pub round : ℕ → Round State
  round fuel = record {
    work = work fuel;
    dropped = dropped;
    exchange = exchange fuel;
    next_wake = λ now (i, w). get_next_wake_up_time (λ t d. out.next_wake_delay t d w.sys) now;
    arm = λ d (i, w). let (r, w₁) = on_sys w (out.timer d w.sys) in (r, (i, w₁));
    notify = λ (i, w). (i, with_sys w out.notify);
  }

  -- `Future for ContextInner`. The loops within a round have the same fuel.
  unfoldable pub poll : ℕ → State → Exec (Async (Unit {0}) × State)
  poll fuel s = Loop.poll (round fuel) s

  -- `Drop for ContextInner`
  unfoldable pub drop : State → State
  drop (i, w) = elim i.close_handle [
    | none ↦ (i, w)
    | some h ↦ (record i { close_handle = none }, with_sys w (out.send_close h))
  ]

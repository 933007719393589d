-- ===== src/PicoquicContext/Examples.antt =====
-- src/context.rs: runs of `Context`, whose close handle has fired where the outside's state is not 0.
use picoquic_rs.Base.{ℕ, zero, suc, ◌≡◌, refl, none, ok, true, ready, not_ready, Poll}
use picoquic_rs.Inner.Runs.{left_alone, quiet}
use picoquic_rs.Config.{default}
use picoquic_rs.Ffi.QuicCtx.Examples.{counting, counting-Counts}
use picoquic_rs.Inner.Create.{Start}
use picoquic_rs.PicoquicContext.Create.{Executor, new}
use picoquic_rs.PicoquicContext.Paired.{Apart, Starts, new-Starts}
use picoquic_rs.PicoquicContext.{Context, Ext, poll}

abbrev fired : ℕ → Poll (Unit {0}) (Unit {0}) × ℕ
fired zero = (ok not_ready, 0)
fired (suc s) = (ok (ready tt), suc s)

abbrev handles : Ext ℕ
handles = record { accept = left_alone.accept; poll_close = λ c s. fired s; drop_close = λ c s. 1 }

abbrev application : Context
application = record { recv_con = 1; local_addr = 22; new_connection_handle = 2; close_handle = 3 }

still_open : (poll handles application quiet).0 ≡ ok not_ready
unfolding poll
still_open = refl

ended : (poll handles application (record quiet { sys = 1 })).0 ≡ ok (ready none)
unfolding poll
ended = refl

abbrev running : Executor ℕ
running = record { exists = λ p. true; show = λ p. p; spawn = λ s. (ok tt, s) }

abbrev starting : Start ℕ ℕ ℕ
starting = record {
  accept = left_alone.accept;
  quic = counting;
  context_ptr = 11;
  max_packet_size = 4;
  create_close = λ s. ((5, 6), s);
  bind = λ a s. (ok 8, s);
  socket_addr = λ a s. 22;
}

all-Apart : Apart running starting left_alone (λ s. s)
all-Apart = record {
  connections = λ s. refl;
  requests = λ s. refl;
  closing = λ s. refl;
  binding = λ a s. refl;
  spawning = λ s. refl;
  told = λ h s. refl;
}

new-Starts_example :
    Starts running starting left_alone
      (λ s. s)
      0
      33
      default
      (new running starting left_alone 33 default quiet)
new-Starts_example =
    new-Starts running starting left_alone (λ s. s) 33 default quiet counting-Counts all-Apart

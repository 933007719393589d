-- ===== src/Inner/Examples.antt =====
-- src/context_inner.rs: theorems at concrete inputs.
use picoquic_rs.Base.{
  ℕ, ◌+◌, ◌≡◌, refl, Bool, true, false, [], ◌∷◌, none, some, ok, ready, not_ready, Poll, done, ◌==◌,
}
use picoquic_rs.Errors.{Bytes}
use picoquic_rs.Ffi.Stateless.{StatelessPacket}
use picoquic_rs.Inner.Socket.{Ext, Buffers}
use picoquic_rs.Inner.Loop.{Round, poll}

-- Picoquic wants to be called again at once, every time; the world counts the rounds.
abbrev busy : Round ℕ
busy = record {
  work = λ w. done (0, w + 1);
  dropped = λ w. (false, w);
  exchange = λ now w. done w;
  next_wake = λ now w. none;
  arm = λ d w. (ok not_ready, w);
  notify = λ w. w;
}

busy_rounds : poll busy 0 ≡ done (not_ready, 51)
unfolding poll
busy_rounds = refl

-- The socket has as many datagrams as its state says.
abbrev answer : Bool → ℕ → Poll (Bytes × ℕ) ℕ × ℕ
answer true s = (ok not_ready, s)
answer false s = (ok (ready (7 ∷ 8 ∷ 9 ∷ [], 33)), 0)

abbrev pub no_packet : StatelessPacket
no_packet = record { ss_family = 2; addr_to = 44; bytes = []; length = 0 }

abbrev socket : Ext ℕ ℕ
socket = record {
  poll_send_to = λ b addr s. (ok not_ready, s);
  poll_recv_from = λ n s. answer (s == 0) s;
  incoming_packet = λ b from to t s. ((0, 5 ∷ 6 ∷ []), s);
  dequeue_stateless = λ s. (0, s);
  stateless_packet = λ p s. no_packet;
  delete_stateless = λ p s. s;
  earliest_cnx_to_wake = λ now s. (0, s);
  cnx_state = λ c s. 0;
  delete_cnx = λ c s. s;
  prepare = λ c now b s. (record { ret = 0; send_len = 0; addr = 0; addr_len = 0; buffer = b }, s);
  sockaddrs = record { as_inet = λ a n. some a; as_inet6 = λ a n. none };
  error_disconnected = 1;
  state_disconnected = 1;
}

abbrev unsent : Buffers
unsent = record { buffer = 1 ∷ 2 ∷ 3 ∷ 4 ∷ []; not_send_length = some (2, 22) }

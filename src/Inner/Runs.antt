-- ===== src/Inner/Runs.antt =====
-- src/context_inner.rs: theorems on the rounds of the future at concrete inputs.
use picoquic_rs.Base.{
  ℕ, zero, suc, ◌+◌, ◌-◌, ◌<◌, ◌≡◌, refl, false, [], ◌∷◌, none, some, ok, ready, not_ready, done,
  arith, Poll,
}
use picoquic_rs.Errors.{Bytes}
use picoquic_rs.World.{World}
use picoquic_rs.Ffi.Cnx.{next_connection, is_disconnected, prepare_packet}
use picoquic_rs.Connection.Examples.{silent, sim}
use picoquic_rs.Inner.Accept.{CContext}
use picoquic_rs.Inner.Socket.{
  Buffers, send_connection_packets, send_stateless_packets, check_for_incoming_data,
}
use picoquic_rs.Inner.Socket as Socket
use picoquic_rs.Inner.Examples.{no_packet}
use picoquic_rs.Ffi.Stateless.{next_packet}
use picoquic_rs.Inner.Deleted.{Counts, Leaves, send_stateless_packets-Leaves}
use picoquic_rs.Inner.Kept.{Bounded, Ended, send_connection_packets-Ended}
use picoquic_rs.Inner.Drained.{Waits, Emptied, check_for_incoming_data-Emptied}
use picoquic_rs.Inner.Drive.{Outside}

-- The state counts the connections that are due and the datagrams that wait; the socket is full.
abbrev one_datagram : ℕ → Poll (Bytes × ℕ) ℕ × ℕ
one_datagram zero = (ok not_ready, 0)
one_datagram (suc s) = (ok (ready (7 ∷ 8 ∷ [], 33)), s)

abbrev crowded : Socket.Ext ℕ ℕ
crowded = record {
  poll_send_to = λ b addr s. (ok not_ready, s);
  poll_recv_from = λ n s. one_datagram s;
  incoming_packet = λ b from to t s. ((0, b), s);
  dequeue_stateless = λ s. (0, s);
  stateless_packet = λ p s. no_packet;
  delete_stateless = λ p s. s;
  earliest_cnx_to_wake = λ now s. (s, s);
  cnx_state = λ c s. 0;
  delete_cnx = λ c s. s;
  prepare = λ c now b s.
      (record { ret = 0; send_len = 2; addr = 44; addr_len = 16; buffer = 5 ∷ 6 ∷ 0 ∷ [] }, s - 1);
  sockaddrs = record { as_inet = λ a n. some a; as_inet6 = λ a n. none };
  error_disconnected = 1;
  state_disconnected = 1;
}

abbrev empty_buffers : Buffers
empty_buffers = record { buffer = 0 ∷ 0 ∷ 0 ∷ []; not_send_length = none }

due_con : (s con : ℕ) → next_connection s ≡ some con → s - 1 < s
unfolding next_connection
due_con zero con h = ground arith
due_con (suc s) con h = omega arith

crowded-Bounded : Bounded crowded (λ s. s)
crowded-Bounded = record {
  prepared = λ now con buffer s h. due_con s con h;
  sent = λ bytes addr s. omega arith;
}

send_connection_packets-Ended_example :
    Ended crowded (send_connection_packets crowded 4 11 empty_buffers 3)
send_connection_packets-Ended_example =
    send_connection_packets-Ended crowded (λ s. s) 4 11 empty_buffers 3 crowded-Bounded
      (omega arith)

packet_kept :
    send_connection_packets crowded 4 11 empty_buffers 3
    ≡ done (record { buffer = 5 ∷ 6 ∷ 0 ∷ []; not_send_length = some (2, 44) }, 2)
unfolding send_connection_packets next_connection is_disconnected prepare_packet
packet_kept = refl

taken_fewer :
    (bytes : Bytes) (from s s₁ : ℕ) → one_datagram s ≡ (ok (ready (bytes, from)), s₁) → s₁ < s
taken_fewer bytes from zero s₁ h = ground arith
taken_fewer bytes from (suc s) s₁ h = ground arith

crowded-Waits : Waits crowded (λ s. s)
crowded-Waits = record { fewer = λ size local from now bytes s s₁ h. taken_fewer bytes from s s₁ h }

check_for_incoming_data-Emptied_example :
    Emptied crowded empty_buffers (check_for_incoming_data crowded 3 22 11 empty_buffers 2)
check_for_incoming_data-Emptied_example =
    check_for_incoming_data-Emptied crowded (λ s. s) 3 22 11 empty_buffers 2 crowded-Waits
      (omega arith)

-- An outside in which the `Context` is gone, and one connection is there.
abbrev socket_of : Socket.Ext (CContext × World ℕ) ℕ
socket_of = record {
  poll_send_to = λ b addr s. (ok not_ready, s);
  poll_recv_from = λ n s. (ok not_ready, s);
  incoming_packet = λ b from to t s. ((0, b), s);
  dequeue_stateless = λ s. (0, s);
  stateless_packet = λ p s. no_packet;
  delete_stateless = λ p s. s;
  earliest_cnx_to_wake = λ now s. (0, s);
  cnx_state = λ c s. 0;
  delete_cnx = λ c s. s;
  prepare =
      λ c now b s. (record { ret = 0; send_len = 0; addr = 44; addr_len = 16; buffer = b }, s);
  sockaddrs = crowded.sockaddrs;
  error_disconnected = 1;
  state_disconnected = 1;
}

abbrev pub left_alone : Outside ℕ ℕ
left_alone = record {
  accept = record {
    con = sim;
    requests = silent;
    new_cons = silent;
    create_oneshot = λ s. ((0, 0), s);
    poll_answer = λ c s. (ok not_ready, s);
    is_unspecified = λ a. false;
    has_nul = λ n. false;
    create_client_cnx = λ a n t s. (0, s);
    cnx_state = λ c s. 0;
    state_closing = 1;
  };
  socket = socket_of;
  current_time = λ s. (s, s + 1);
  poll_cancel = λ h s. (ok (ready tt), s);
  next_wake_delay = λ now m s. 0;
  timer = λ d s. (ok not_ready, s);
  notify = λ s. s;
  send_close = λ h s. s;
}

abbrev pub quiet : World ℕ
quiet = record { sys = 0; cells = []; calls = [] }

abbrev dequeue : ℕ → ℕ → ℕ × ℕ × ℕ
dequeue zero held = (0, zero, held)
dequeue (suc n) held = (suc n, n, held + 1)

-- One stateless packet is there, and the socket is full; the state has how many wait and are held.
abbrev one_packet : Socket.Ext (ℕ × ℕ) ℕ
one_packet = record {
  poll_send_to = λ b addr s. (ok not_ready, s);
  poll_recv_from = λ n s. (ok not_ready, s);
  incoming_packet = λ b from to t s. ((0, b), s);
  dequeue_stateless = λ s. let (p, n, held) = dequeue s.0 s.1 in (p, (n, held));
  stateless_packet =
      λ p s. record { ss_family = 2; addr_to = 44; bytes = 1 ∷ 2 ∷ 3 ∷ []; length = 2 };
  delete_stateless = λ p s. (s.0, s.1 - 1);
  earliest_cnx_to_wake = λ now s. (0, s);
  cnx_state = λ c s. 0;
  delete_cnx = λ c s. s;
  prepare =
      λ c now b s. (record { ret = 0; send_len = 0; addr = 44; addr_len = 16; buffer = b }, s);
  sockaddrs = crowded.sockaddrs;
  error_disconnected = 1;
  state_disconnected = 1;
}

take_one :
    (n held p : ℕ)
    → next_packet (dequeue n held).0 ≡ some p
    → ((dequeue n held).1 < n) × ((dequeue n held).2 ≡ held + 1)
unfolding next_packet
take_one zero held p h = ground arith
take_one (suc n) held p h = ground arith

take_none : (n held : ℕ) → next_packet (dequeue n held).0 ≡ none → (dequeue n held).2 ≡ held
unfolding next_packet
take_none zero held h = refl
take_none (suc n) held h = ground arith

one_packet-Counts : Counts one_packet (λ s. s.0) (λ s. s.1)
one_packet-Counts = record {
  taken = λ s p h. take_one s.0 s.1 p h;
  none_left = λ s h. take_none s.0 s.1 h;
  sent = λ b addr s. (refl, refl);
  deleted = λ p s. (refl, refl);
}

send_stateless_packets-Leaves_example :
    Leaves one_packet (λ s. s.1) 5 (send_stateless_packets one_packet 4 (3, 5))
send_stateless_packets-Leaves_example =
    send_stateless_packets-Leaves one_packet (λ s. s.0) (λ s. s.1) 4 (3, 5) one_packet-Counts
      (omega arith)

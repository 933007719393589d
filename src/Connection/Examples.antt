-- ===== src/Connection/Examples.antt =====
-- src/connection.rs: a simulated outside, whose state counts the requests for streams that are
-- there, and theorems at concrete inputs.
use picoquic_rs.Base.{
  ℕ, zero, suc, ◌≤◌, ◌<◌, ◌≡◌, ap, true, false, [], Option, none, some, ok, err, Result, List, ◌∷◌,
  ◌++◌, refl, ready, not_ready, done, arith, Poll,
}
use picoquic_rs.World.{World, Mpsc}
use picoquic_rs.Channel
use picoquic_rs.Stream.Types as StreamTypes
use picoquic_rs.Stream.Id.{StreamType, bidirectional}
use picoquic_rs.Stream.Receive.{new_stream}
use picoquic_rs.Connection.Types.{Context, Ext, Request}
use picoquic_rs.Connection.Context.{check_create_stream_requests, refuse_requests}
use picoquic_rs.Connection.Requests.{Queue}
use picoquic_rs.Connection.Refusal.{refuse_requests-answers}
use picoquic_rs.Errors.{Error, from_kind, unknown}
use picoquic_rs.Stream.Types.{Stream}
use picoquic_rs.Connection.Fresh.{
  OwnBelow, Drains, after_request, check_create_stream_requests-fresh,
}

abbrev pub silent : {S M : Type 0} → Mpsc S M
silent = record {
  unbounded = λ s. (0, s);
  unbounded_send = λ c m s. (true, s);
  poll = λ c s. (ok not_ready, s);
  close = λ c s. s;
  drop_sender = λ c s. s;
  drop_receiver = λ c s. s;
}

abbrev stream_ext : {S : Type 0} → StreamTypes.Ext S
stream_ext = record {
  msgs = silent;
  create_bytes = λ n s. ((0, 0), s);
  bytes_sink = record {
    start_send = λ c b s. (ok Channel.sink_ready, s);
    poll_complete = λ c s. (ok (ready tt), s);
  };
  bytes_closed = record { is_closed = λ c s. false };
  bytes_stream = record { poll = λ c s. (ok not_ready, s) };
  bytes_close = record { close = λ c s. s };
  drop_sender = λ c s. s;
  drop_receiver = λ c s. s;
  call = λ c s. s;
  provide = λ place n fin still s. (some place, s);
  slice = λ p n s. [];
  cnx_peer_addr = λ c s. 0;
}

abbrev next_request : ℕ → Poll (Option Request) (Unit {0}) × ℕ
next_request zero = (ok not_ready, 0)
next_request (suc n) = (ok (ready (some (bidirectional, n))), n)

-- An outside where nothing happens.
abbrev pub idle : {S : Type 0} → Ext S
idle = record {
  streams = stream_ext;
  msgs = silent;
  create_requests = λ s. ((0, 0), s);
  requests_stream = record { poll = λ c s. (ok not_ready, s) };
  requests_close = record { close = λ c s. s };
  requests_sink = record {
    start_send = λ c r s. (ok Channel.sink_ready, s);
    poll_complete = λ c s. (ok (ready tt), s);
  };
  requests_closed = record { is_closed = λ c s. false };
  create_oneshot = λ s. ((0, 0), s);
  answer_stream = λ c r s. s;
  answer_connection = λ c r s. s;
  poll_answer = λ c s. (ok not_ready, s);
  send_close = λ c s. s;
  poll_close = λ c s. (ok not_ready, s);
  cnx_local_addr = λ c s. 0;
  local_cnxid = λ c s. 0;
  is_client = λ c s. 1;
  local_error = λ c s. 0;
  remote_error = λ c s. 0;
  is_handshake_error = λ n. 0;
}

abbrev pub sim : Ext ℕ
sim = record idle { requests_stream = record { poll = λ c s. next_request s } }

-- Requests that wait, and the answers so far.
abbrev Desk : Type 0
Desk = List Request × List (ℕ × Result Stream Error)

abbrev take_request : Desk → Poll (Option Request) (Unit {0}) × Desk
take_request ([], a) = (ok (ready none), ([], a))
take_request (r ∷ l, a) = (ok (ready (some r)), (l, a))

abbrev desk : Ext Desk
desk = record idle {
  requests_stream = record { poll = λ c s. take_request s };
  answer_stream = λ n r s. (s.0, s.1 ++ (n, r) ∷ []);
}

abbrev waiting : World ℕ → ℕ
waiting w = w.sys

after_request-sys :
    (ctx : Context) (t : StreamType) (sender : ℕ) (w : World ℕ)
    → waiting (after_request sim ctx t sender w) ≡ waiting w
unfolding new_stream Channel.pair Channel.poll
after_request-sys ctx t sender w = ground arith

request-less :
    (r : Channel.ReceiverWithError ℕ) (x : Request) (n : ℕ) (w w' : World ℕ)
    → Channel.poll sim.requests_stream r (record w { sys = n }) ≡ (ok (ready (some x)), w')
    → w'.sys < n
unfolding Channel.poll
request-less r x zero w w' e = cc (ap (λ p. p.0) e)
request-less r x (suc n) w w' e = omega (arith, ap (λ p. p.1.sys) e)

sim-Drains : Drains sim waiting
sim-Drains ctx w w' t sender e = omega (
  arith,
  after_request-sys ctx t sender w',
  request-less ctx.recv_create_stream (t, sender) w.sys w w' e,
)

abbrev pub fresh_connection : Context
fresh_connection = record {
  send_msg = 0;
  close_recv = 0;
  recv_create_stream = record { receiver = 0; error_state = record { inner = 0 } };
  streams = [];
  cnx = 1;
  closed = false;
  is_client = true;
  next_stream_id = 0;
  wait_for_ready_state = none;
  local_addr = 0;
  stream_send_channel_default_size = 100;
}

abbrev two_requests : World ℕ
two_requests = record { sys = 2; cells = []; calls = [] }

check_create_stream_requests-fresh_example :
    (ctx' : Context) × (w' : World ℕ) × (check_create_stream_requests sim 3 fresh_connection
        two_requests
      ≡ done (ctx', w'))
    × OwnBelow ctx'
    × (0 ≤ ctx'.next_stream_id)
check_create_stream_requests-fresh_example =
    check_create_stream_requests-fresh sim waiting 3 fresh_connection two_requests sim-Drains
      (omega arith) (omega arith) tt

abbrev desk_queue : Queue desk 0 (ready none)
desk_queue = record {
  queue = λ s. s.0;
  answers = λ s. s.1;
  head = λ s r l h. ((l, s.1), ap (λ x. take_request (x, s.1)) h, refl, refl);
  empty = λ s h. (([], s.1), ap (λ x. take_request (x, s.1)) h, refl, refl);
  answered = λ sender r s. (refl, refl);
}

abbrev failing : World Desk
failing = record {
  sys = ((bidirectional, 5) ∷ (bidirectional, 6) ∷ [], []);
  cells = [];
  calls = [];
}

refuse_requests-answers_example :
    (w' : World Desk) × (refuse_requests desk 3 fresh_connection (λ _. from_kind unknown) failing
      ≡ done w')
    × (w'.sys.0 ≡ [])
    × (w'.sys.1 ≡ (5, err (from_kind unknown)) ∷ (6, err (from_kind unknown)) ∷ [])
refuse_requests-answers_example =
    refuse_requests-answers desk 3 fresh_connection (λ _. from_kind unknown) failing desk_queue
      (omega arith)

-- ===== src/Inner/Living.antt =====
-- src/context_inner.rs: a simulated outside with a request for a connection, and the theorems on the
-- life of the connections at concrete steps.
use picoquic_rs.Base.{
  ℕ, ◌+◌, ◌≤◌, ◌≡◌, refl, false, List, [], ◌∷◌, ◌++◌, Option, none, some, Result, ok, err, ready,
  not_ready, Poll, done,
}
use picoquic_rs.Errors.{Error}
use picoquic_rs.World.{World}
use picoquic_rs.Channel
use picoquic_rs.Stream.Types.{almost_ready}
use picoquic_rs.Ffi.Cnx.{new_cnx}
use picoquic_rs.Connection.Types as ConnectionTypes
use picoquic_rs.Connection.Types.{Connection, build}
use picoquic_rs.Connection.Context as Con
use picoquic_rs.Connection.Callback.{Shared, connection_callback, create, create_builder}
use picoquic_rs.Connection.Asking.{Asking}
use picoquic_rs.Connection.Examples.{idle, silent, fresh_connection}
use picoquic_rs.Inner.Accept as Accept
use picoquic_rs.Inner.Accept.{
  CContext, NewConnectionMsg, push_made, check_for_new_connection_request,
}
use picoquic_rs.Inner.Life.{Life, stay, took, called}
use picoquic_rs.Inner.Counted.{Leaves, count, total}
use picoquic_rs.Inner.Answered.{Life-answered}

-- Requests that wait, by who asks, and the answers.
abbrev pub Office : Type 0
Office = List ℕ × List (ℕ × Result Connection Error)

abbrev take_request : Office → Poll (Option NewConnectionMsg) (Unit {0}) × Office
take_request ([], a) = (ok not_ready, ([], a))
take_request (n ∷ l, a) = (ok (ready (some (4, "server", n))), (l, a))

abbrev con_office : ConnectionTypes.Ext Office
con_office = record idle { answer_connection = λ n r s. (s.0, s.1 ++ (n, r) ∷ []) }

abbrev pub accept_office : Accept.Ext Office
accept_office = record {
  con = con_office;
  requests = record silent { poll = λ c s. take_request s };
  new_cons = silent;
  create_oneshot = λ s. ((0, 0), s);
  poll_answer = λ c s. (ok not_ready, s);
  is_unspecified = λ a. false;
  has_nul = λ n. false;
  create_client_cnx = λ a n t s. (6, s);
  cnx_state = λ c s. 0;
  state_closing = 1;
}

taken-answers : (s : Office) → (take_request s).1.1 ≡ s.1
taken-answers ([], a) = refl
taken-answers (n ∷ l, a) = refl

abbrev office_asking : Asking con_office
office_asking = record {
  connected = λ s. s.1;
  aside = record {
    apart = record {
      unbounded = λ s. refl;
      unbounded_send = λ c m s. refl;
      poll_message = λ c s. refl;
      create_bytes = λ n s. refl;
      poll_bytes = λ c s. refl;
      called = λ c s. refl;
    };
    closes = λ c s. refl;
    drops_receiver = λ c s. refl;
    drops_sender = λ c s. refl;
    drops_messages = λ c s. refl;
    drops_controls = λ c s. refl;
    provides = λ p n fin still s. refl;
  };
  polls = λ c s. refl;
  closes = λ c s. refl;
  polls_close = λ c s. refl;
  answers = λ n r s. refl;
  tells = λ c m s. refl;
  connects = λ n r s. refl;
}

-- Elsewhere only the answers stay.
abbrev pub Others : World Office → World Office → Type 0
Others w v = v.sys.1 ≡ w.sys.1

office-Leaves : Leaves accept_office Others office_asking
office-Leaves = record {
  elsewhere = λ w v e. e;
  requests = λ c s. taken-answers s;
  client = λ a n t s. refl;
  announces = λ c con s. refl;
  channel = λ s. refl;
  oneshot = λ s. refl;
  create_requests = λ s. refl;
}

abbrev pub no_connection : CContext
no_connection = record {
  connections = [];
  send_con = 1;
  server_keep_alive_interval = none;
  stream_send_channel_default_size = 8;
}

abbrev pub one_asks : World Office
one_asks = record { sys = (9 ∷ [], []); cells = []; calls = [] }

abbrev request_taken : World Office
request_taken = record one_asks { sys = ([], []) }

-- The connection is made for the asker 9, picoquic says that it is almost ready, and 9 is answered.
abbrev made : Result Shared Error × World Office
made = create con_office (ok 6) 4 22 none 9 8 request_taken

abbrev shared_of : Result Shared Error → Shared
shared_of (ok s) = s
shared_of (err e) = record { context = fresh_connection; strong = 2 }

abbrev ready_now : Shared × World Office
ready_now = elim (connection_callback con_office 3 0 0 0 almost_ready (shared_of made.0) made.1) [
  | done x ↦ x
  | _ ↦ (shared_of made.0, made.1)
]

abbrev one_connection : CContext
one_connection = record no_connection { connections = ready_now.0 ∷ [] }

life : Life accept_office Others no_connection [] one_asks (9 ∷ []) one_connection [] ready_now.1
unfolding create create_builder new_cnx Con.new_context Channel.pair Channel.poll
    connection_callback Con.handle_callback Con.process_wait_for_ready_state build
life =
    took {w₁ = request_taken} {w₂ = request_taken} {w₃ = made.1} 2 0 8 9 22 4 "server" none (ok 6)
      made.0 refl refl refl
      (called {w₁ = ready_now.1} [] [] (shared_of made.0) ready_now.0 3 0 0 0 almost_ready refl refl
        stay)

Life-answered_example :
    total accept_office Others office_asking 9 one_connection [] ready_now.1
    ≤ total accept_office Others office_asking 9 no_connection [] one_asks + count 9 (9 ∷ [])
Life-answered_example =
    Life-answered accept_office Others office_asking 9 no_connection one_connection [] [] one_asks
      ready_now.1 (9 ∷ []) office-Leaves life

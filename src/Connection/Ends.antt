-- ===== src/Connection/Ends.antt =====
-- src/connection.rs: a simulated outside that remembers what a connection sends, and the end of a
-- connection on it; and a channel of requests that is closed.
use picoquic_rs.Base.{
  ◌≡◌, refl, true, [], ◌∷◌, none, some, ok, ready, Option, err, not_ready, Result, Poll, done,
  arith,
}
use picoquic_rs.Errors.{Error, from_kind, unknown}
use picoquic_rs.World.{World}
use picoquic_rs.Channel
use picoquic_rs.Stream.Types.{Stream, callback_close}
use picoquic_rs.Stream.Id.{bidirectional}
use picoquic_rs.Connection.Types.{Ext, NewStreamHandle, Request}
use picoquic_rs.Connection.Callback.{Shared, connection_callback}
use picoquic_rs.Connection.Seen.{Outside, Seen, answer, connect, tell}
use picoquic_rs.Connection.Ending.{Closed, connection_callback-Closed}
use picoquic_rs.Connection.Handle.{new_stream_handle, poll_new_stream}
use picoquic_rs.Connection.Late.{Shut, fail_requests, new_stream_handle-fails}
use picoquic_rs.Connection.Examples.{idle, fresh_connection, silent}

abbrev take_request : Seen → Poll (Option Request) (Unit {0}) × Seen
take_request v = elim v.waiting [
  | [] ↦ (ok (ready none), v)
  | r ∷ l ↦ (ok (ready (some r)), record v { waiting = l })
]

-- picoquic has the error 7 for the connection.
abbrev ending : Ext Seen
ending = record idle {
  msgs = record silent { unbounded_send = λ c m s. (true, tell m s) };
  requests_stream = record { poll = λ c s. take_request s };
  answer_stream = λ n r s. answer (n, r) s;
  answer_connection = λ n r s. connect (n, r) s;
  local_error = λ c s. 7;
}

abbrev ending_outside : Outside ending fresh_connection
ending_outside = record {
  seen = λ s. s;
  aside = record {
    apart = record {
      unbounded = λ s. refl;
      unbounded_send = λ c m s. refl;
      poll_message = λ c s. refl;
      create_bytes = λ n s. refl;
      poll_bytes = λ c s. refl;
      called = λ c s. refl;
    };
    closes = λ c s. refl;
    drops_receiver = λ c s. refl;
    drops_sender = λ c s. refl;
    drops_messages = λ c s. refl;
    drops_controls = λ c s. refl;
    provides = λ p n fin still s. refl;
  };
  first = λ s r l h. ground arith;
  over = λ s h. ground arith;
  closes = λ s. refl;
  answers = λ n r s. refl;
  connects = λ n r s. refl;
  tells = λ m s. refl;
}

abbrev two_wait : World Seen
two_wait = record {
  sys = record {
    waiting = (bidirectional, 5) ∷ (bidirectional, 6) ∷ [];
    answers = [];
    told = [];
    connected = [];
  };
  cells = [];
  calls = [];
}

abbrev shared_connection : Shared
shared_connection = record { context = fresh_connection; strong = 2 }

connection_callback-Closed_example :
    (s' : Shared) × (w' : World Seen) × (connection_callback ending 3 0 0 0 callback_close
        shared_connection two_wait
      ≡ done (s', w'))
    × Closed ending fresh_connection ending_outside shared_connection two_wait s' w'
connection_callback-Closed_example =
    connection_callback-Closed ending 3 0 0 0 callback_close shared_connection two_wait
      ending_outside refl (omega arith)

abbrev late_handle : NewStreamHandle
late_handle = record { sender = 0; error_state = record { inner = 0 } }

-- The outside is the answer in a oneshot, if there is one.
abbrev Answer : Type 0
Answer = Option (Result Stream Error)

abbrev poll_oneshot : Answer → Poll (Result Stream Error) (Unit {0}) × Answer
poll_oneshot none = (ok not_ready, none)
poll_oneshot (some r) = (ok (ready r), none)

abbrev shut_ext : Ext Answer
shut_ext = record idle {
  requests_sink = record {
    start_send = λ c r s. (err r, s);
    poll_complete = λ c s. (ok (ready tt), s);
  };
  requests_closed = record { is_closed = λ c s. true };
  answer_stream = λ n r s. some r;
  poll_answer = λ c s. poll_oneshot s;
}

abbrev one_cell : World Answer
one_cell = record { sys = none; cells = none ∷ []; calls = [] }

abbrev failed_requests : World Answer
failed_requests =
    fail_requests shut_ext fresh_connection.recv_create_stream (λ _. from_kind unknown) one_cell

failed_requests-Shut : Shut shut_ext late_handle bidirectional failed_requests.sys
unfolding Channel.close Channel.propagate_error
failed_requests-Shut = record { refused = refl; is_closed = refl; hands_on = λ r. refl }

new_stream_handle-fails_example :
    let (recv, w') = new_stream_handle shut_ext late_handle bidirectional failed_requests in
    (poll_new_stream shut_ext recv w').0 ≡ err (from_kind unknown)
new_stream_handle-fails_example =
    new_stream_handle-fails shut_ext late_handle fresh_connection.recv_create_stream bidirectional
      (λ _. from_kind unknown) one_cell refl (omega arith) failed_requests-Shut

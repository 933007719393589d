-- ===== src/Inner/Abiding.antt =====
-- src/context_inner.rs: a simulated outside with channels of messages, and the theorem on the polls of
-- all connections at a concrete life.
use picoquic_rs.Base.{
  ℕ, ◌≡◌, refl, arith, false, List, [], ◌∷◌, none, some, Result, ok, err, ready, not_ready, Async,
  done,
}
use picoquic_rs.Errors.{Error}
use picoquic_rs.World.{World}
use picoquic_rs.Channel
use picoquic_rs.Swappable
use picoquic_rs.Stream.Types.{stream_fin}
use picoquic_rs.Stream.Types as Types
use picoquic_rs.Stream.Id.{is_client_initiated, is_unidirectional, is_unidirectional_send_allowed}
use picoquic_rs.Stream.Receive as Receive
use picoquic_rs.Stream.Drive as Drive
use picoquic_rs.Ffi.Cnx.{new_cnx}
use picoquic_rs.Ffi.StreamId.{generate_stream_id}
use picoquic_rs.Connection.Types.{Context, lookup, insert}
use picoquic_rs.Connection.Context as Con
use picoquic_rs.Connection.Callback.{Shared, connection_callback, create, create_builder}
use picoquic_rs.Connection.Alive.{Hub, hub, hub_waiting, at, next_request, after, empty_hub}
use picoquic_rs.Connection.Examples.{silent, fresh_connection}
use picoquic_rs.Inner.Accept as Accept
use picoquic_rs.Inner.Accept.{CContext, push_made}
use picoquic_rs.Inner.Life.{Life, stay, took, called, polled, meanwhile}
use picoquic_rs.Inner.Crowd.{cnxs, still_open}
use picoquic_rs.Inner.Entering.{Aloof, Doors}
use picoquic_rs.Inner.Lasting.{Life-poll}

-- Someone, 9, asks for a connection to the address 4.
abbrev doorway : Accept.Ext Hub
doorway = record {
  con = hub;
  requests = record silent { poll = λ c s. (ok (ready (some (4, "server", 9))), s) };
  new_cons = silent;
  create_oneshot = λ s. ((0, 0), s);
  poll_answer = λ c s. (ok not_ready, s);
  is_unspecified = λ a. false;
  has_nul = λ n. false;
  create_client_cnx = λ a n t s. (6, s);
  cnx_state = λ c s. 0;
  state_closing = 1;
}

-- What does not depend on the requests for streams.
hub-Aloof :
    {A : Type 0} (view : Hub → A)
    → ((n : ℕ) (s : Hub) → view (s.0, n, s.2) ≡ view s)
    → Aloof doorway view
hub-Aloof view h = record {
  begins = record {
    channel = λ s. refl;
    oneshot = λ s. refl;
    create_requests = λ s. refl;
    polls = λ c s. h (next_request s.1).1 s;
    calls = λ c s. refl;
  };
  polls = λ c s. refl;
  makes = λ a n t s. refl;
  announces = λ c x s. refl;
}

doorway-Doors : Doors doorway hub_waiting
doorway-Doors = record {
  waits = λ d. hub-Aloof (λ s. s.2 d) (λ n s. refl);
  numbers = hub-Aloof (λ s. s.0) (λ n s. refl);
}

abbrev Anything : World Hub → World Hub → Type 0
Anything w w' = Unit

abbrev no_connection : CContext
no_connection = record {
  connections = [];
  send_con = 1;
  server_keep_alive_interval = none;
  stream_send_channel_default_size = 8;
}

abbrev shared_of : Result Shared Error → Shared
shared_of (ok s) = s
shared_of (err e) = record { context = fresh_connection; strong = 2 }

-- The connection is made; the peer opens stream 5 and ends its half; the application resets it and
-- asks for another one.
abbrev made : Result Shared Error × World Hub
made = create hub (ok 6) 4 22 none 9 8 empty_hub

abbrev first : Shared
first = shared_of made.0

abbrev called_back : Shared × World Hub
called_back = after (first, made.1) (connection_callback hub 3 5 0 0 stream_fin first made.1)

abbrev reset_sent : World Hub
reset_sent = record (called_back.1) { sys = (2, 1, at 1 (Types.reset ∷ []) (λ c. [])) }

abbrev served : Async (Unit {0}) × Context × World Hub
served =
    after (not_ready, called_back.0.context, reset_sent)
      (Con.poll hub 3 called_back.0.context reset_sent)

abbrev end : Shared
end = record (called_back.0) { context = served.1 }

abbrev one_connection : CContext
one_connection = record no_connection { connections = end ∷ [] }

abbrev life : Life doorway Anything no_connection [] empty_hub (9 ∷ []) one_connection [] served.2
unfolding create create_builder new_cnx Con.new_context connection_callback Con.handle_callback
    Con.handle_stream_callback lookup insert Con.poll Con.poll_open Con.retain_streams
    Con.check_create_stream_requests Con.create_stream Receive.new_stream Receive.new_context
    Receive.create_send_and_recv_data Receive.handle_data Receive.handle_event Receive.recv_message
    Receive.reset_context Receive.close_send_data Receive.drop_swappable Receive.drop_context
    Channel.close Drive.handle_callback Drive.poll Drive.poll_control_msg Drive.poll_send_data
    Swappable.poll Swappable.poll_loop Channel.pair Channel.poll generate_stream_id
    is_unidirectional is_unidirectional_send_allowed
life =
    took {w₁ = empty_hub} {w₂ = empty_hub} {w₃ = made.1} 2 0 8 9 22 4 "server" none (ok 6) made.0
      refl refl refl
      (called {w₁ = called_back.1} [] [] first called_back.0 3 5 0 0 stream_fin refl refl (
        meanwhile {w₁ = reset_sent} tt
          (polled {w₁ = served.2} [] [] called_back.0 served.1 3 refl refl stay)))

Life-poll_example :
    (l : List Shared) × (v : World Hub) × (Accept.poll doorway 3 one_connection.connections served.2
      ≡ done (l, v))
    × (cnxs l ≡ cnxs (still_open one_connection.connections))
unfolding create create_builder new_cnx Con.new_context connection_callback Con.handle_callback
    Con.handle_stream_callback lookup insert Con.poll Con.poll_open Con.retain_streams
    Con.check_create_stream_requests Con.create_stream Receive.new_stream Receive.new_context
    Receive.create_send_and_recv_data Receive.handle_data Receive.handle_event Receive.recv_message
    Receive.reset_context Receive.close_send_data Receive.drop_swappable Receive.drop_context
    Channel.close Drive.handle_callback Drive.poll Drive.poll_control_msg Drive.poll_send_data
    Swappable.poll Swappable.poll_loop Channel.pair Channel.poll generate_stream_id
    is_client_initiated is_unidirectional is_unidirectional_send_allowed
Life-poll_example =
    Life-poll doorway hub_waiting doorway-Doors Anything no_connection one_connection [] empty_hub
      served.2 (9 ∷ []) 3 life refl
      (
        λ e. ground (arith, e),
        (
          record { numbers = omega arith; here = (λ t. tt, tt); gone = tt },
          (
            record {
              here = (omega arith, tt);
              gone = tt;
              requests = omega arith;
              numbers = (omega arith, tt);
            },
            tt,
          ),
        ),
      )
      (record {
        here = (omega arith, tt);
        gone = tt;
        requests = omega arith;
        numbers = (omega arith, tt);
      })

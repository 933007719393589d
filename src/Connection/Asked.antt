-- ===== src/Connection/Asked.antt =====
-- src/connection.rs: a simulated outside that remembers who was answered to a request for a
-- connection, and the theorem on it at a concrete sequence of steps.
use picoquic_rs.Base.{ℕ, ◌≡◌, refl, true, List, [], ◌∷◌, ◌++◌, ok, some, Result, not_ready}
use picoquic_rs.Errors.{Error}
use picoquic_rs.World
use picoquic_rs.World.{World}
use picoquic_rs.Channel
use picoquic_rs.Stream.Types.{almost_ready, callback_close}
use picoquic_rs.Ffi.Cnx as Cnx
use picoquic_rs.Ffi.Cnx.{outgoing}
use picoquic_rs.Connection.Types.{Connection, ConnectionBuilder, Ext, build}
use picoquic_rs.Connection.Context as Ctx
use picoquic_rs.Connection.Callback.{Shared, connection_callback}
use picoquic_rs.Connection.Asking.{Asking}
use picoquic_rs.Connection.Steps.{Steps, called, meanwhile, polled, stay}
use picoquic_rs.Connection.Ledger.{Steps-ledger, ledger}
use picoquic_rs.Connection.Examples.{idle, fresh_connection}

abbrev Answers : Type 0
Answers = List (ℕ × Result Connection Error)

abbrev outside : Ext Answers
outside = record idle { answer_connection = λ n r s. s ++ (n, r) ∷ [] }

abbrev outside_asking : Asking outside
outside_asking = record {
  connected = λ s. s;
  aside = record {
    apart = record {
      unbounded = λ s. refl;
      unbounded_send = λ c m s. refl;
      poll_message = λ c s. refl;
      create_bytes = λ n s. refl;
      poll_bytes = λ c s. refl;
      called = λ c s. refl;
    };
    closes = λ c s. refl;
    drops_receiver = λ c s. refl;
    drops_sender = λ c s. refl;
    drops_messages = λ c s. refl;
    drops_controls = λ c s. refl;
    provides = λ p n fin still s. refl;
  };
  polls = λ c s. refl;
  closes = λ c s. refl;
  polls_close = λ c s. refl;
  answers = λ n r s. refl;
  tells = λ c m s. refl;
  connects = λ n r s. refl;
}

abbrev builder : ConnectionBuilder
builder = record {
  msg_recv = 1;
  close_send = 2;
  peer_addr = 3;
  local_addr = 4;
  new_stream_handle = record { sender = 5; error_state = record { inner = 0 } };
  ctype = outgoing;
}

-- The asker 9 waits.
abbrev asked_for : Shared
asked_for = record {
  context = record fresh_connection { wait_for_ready_state = some (builder, 9) };
  strong = 2;
}

abbrev nobody_answered : World Answers
nobody_answered = record { sys = []; cells = []; calls = [] }

-- It is answered when the connection is ready, and the connection is then closed.
abbrev ready_connection : Shared
ready_connection = record { context = fresh_connection; strong = 2 }

abbrev asker_answered : World Answers
asker_answered = record { sys = (9, ok (build builder 0)) ∷ []; cells = []; calls = [] }

abbrev closed_connection : Shared
closed_connection = record { context = record fresh_connection { closed = true }; strong = 1 }

-- In between, other connections set their callbacks.
abbrev Others : World Answers → World Answers → Type 0
Others w w' = w'.sys ≡ w.sys

abbrev others_called : World Answers
others_called = record asker_answered { calls = World.set_callback 7 true ∷ [] }

abbrev close_called : World Answers
close_called = record others_called { calls = World.close_cnx 1 0 ∷ others_called.calls }

life : Steps outside Others asked_for nobody_answered closed_connection close_called
unfolding connection_callback Ctx.poll Ctx.handle_callback Ctx.process_wait_for_ready_state
    Ctx.check_and_handle_error Ctx.close Channel.poll Cnx.error
life = polled {w' = nobody_answered} 1 not_ready asked_for.context refl (
    called {s' = ready_connection} {w' = asker_answered} 1 0 0 0 almost_ready refl (
      meanwhile {w' = others_called} refl
        (called {s' = closed_connection} {w' = close_called} 1 0 0 0 callback_close refl stay)))

Steps-ledger_example :
    ledger outside outside_asking closed_connection.context close_called
    ≡ ledger outside outside_asking asked_for.context nobody_answered
Steps-ledger_example =
    Steps-ledger outside outside_asking Others asked_for closed_connection nobody_answered
      close_called (λ v v' same. same) life

-- ===== src/Connection/Opened.antt =====
-- src/connection.rs: a simulated outside that remembers which streams were handed to the application,
-- and the theorem on it at a concrete sequence of steps.
use picoquic_rs.Base.{
  ℕ, ◌≡◌, refl, true, List, [], ◌∷◌, ◌++◌, Option, some, Result, ok, err, ready, not_ready, Async,
  Poll, Exec, done,
}
use picoquic_rs.Errors.{Error}
use picoquic_rs.World.{World}
use picoquic_rs.Stream.Types.{Stream, stream_fin}
use picoquic_rs.Swappable
use picoquic_rs.Stream.Receive as Receive
use picoquic_rs.Stream.Drive as Drive
use picoquic_rs.Ffi.StreamId.{generate_stream_id}
use picoquic_rs.Channel
use picoquic_rs.Stream.Id.{bidirectional, is_unidirectional, is_unidirectional_send_allowed}
use picoquic_rs.Connection.Types.{Context, Ext, Message, Request, new_stream, lookup, insert}
use picoquic_rs.Connection.Context as Ctx
use picoquic_rs.Connection.Callback.{Shared, connection_callback}
use picoquic_rs.Connection.Steps.{Steps, called, meanwhile, polled, stay}
use picoquic_rs.Connection.Serves.{Serves, ids}
use picoquic_rs.Connection.Handing.{Handing}
use picoquic_rs.Connection.Handed.{Steps-Hands}
use picoquic_rs.Connection.Examples.{idle, fresh_connection}

-- Requests that wait, and the ids that were handed over.
abbrev Hall : Type 0
Hall = List Request × List ℕ

abbrev take_request : Hall → Poll (Option Request) (Unit {0}) × Hall
take_request ([], a) = (ok not_ready, ([], a))
take_request (r ∷ l, a) = (ok (ready (some r)), (l, a))

abbrev hand : Result Stream Error → Hall → Hall
hand (ok st) s = (s.0, s.1 ++ st.id ∷ [])
hand (err e) s = s

abbrev announce : Message → Hall → Hall
announce (new_stream st) s = (s.0, s.1 ++ st.id ∷ [])
announce _ s = s

abbrev hall : Ext Hall
hall = record idle {
  requests_stream = record { poll = λ c s. take_request s };
  answer_stream = λ n r s. hand r s;
  msgs = record {
    unbounded = λ s. (0, s);
    unbounded_send = λ c m s. (true, announce m s);
    poll = λ c s. (ok not_ready, s);
    close = λ c s. s;
    drop_sender = λ c s. s;
    drop_receiver = λ c s. s;
  };
}

taken_hands-none : (s : Hall) → (take_request s).1.1 ≡ s.1
taken_hands-none ([], a) = refl
taken_hands-none (r ∷ l, a) = refl

abbrev hall_handing : Handing hall
hall_handing = record {
  handed = λ s. s.1;
  quiet = record {
    aside = record {
      apart = record {
        unbounded = λ s. refl;
        unbounded_send = λ c m s. refl;
        poll_message = λ c s. refl;
        create_bytes = λ n s. refl;
        poll_bytes = λ c s. refl;
        called = λ c s. refl;
      };
      closes = λ c s. refl;
      drops_receiver = λ c s. refl;
      drops_sender = λ c s. refl;
      drops_messages = λ c s. refl;
      drops_controls = λ c s. refl;
      provides = λ p n fin still s. refl;
    };
    polls = λ c s. taken_hands-none s;
    closes = λ c s. refl;
    polls_close = λ c s. refl;
    refuses = λ n e s. refl;
  };
  grants = λ n st s. refl;
  announces = λ c st s. refl;
  tells_close = λ c s. refl;
  tells_error = λ c e s. refl;
  connects = λ n r s. refl;
}

-- In between, the application asks for streams.
abbrev Asks : World Hall → World Hall → Type 0
Asks w w' = w'.sys.1 ≡ w.sys.1

abbrev start : Shared
start = record { context = fresh_connection; strong = 2 }

abbrev empty_hall : World Hall
empty_hall = record { sys = ([], []); cells = []; calls = [] }

abbrev after {ℓ} : {A : Type ℓ} → A → Exec A → A
after a (done b) = b
after a _ = a

-- The peer opens stream 5 and ends its half, and the application gets stream 4.
abbrev called_back : Shared × World Hall
called_back =
    after (start, empty_hall) (connection_callback hall 3 5 0 0 stream_fin start empty_hall)

abbrev asked_for : World Hall
asked_for = record (called_back.1) { sys = ((bidirectional, 9) ∷ [], called_back.1.sys.1) }

abbrev served : Async (Unit {0}) × Context × World Hall
served =
    after (not_ready, called_back.0.context, asked_for)
      (Ctx.poll hall 3 called_back.0.context asked_for)

abbrev end : Shared
end = record (called_back.0) { context = served.1 }

opening : Steps hall Asks start empty_hall end served.2
unfolding connection_callback Ctx.handle_callback Ctx.handle_stream_callback lookup insert Ctx.poll
    Ctx.poll_open Ctx.retain_streams Ctx.check_create_stream_requests Ctx.create_stream
    Receive.new_stream Receive.new_context Receive.create_send_and_recv_data Receive.handle_data
    Receive.handle_event Receive.recv_message Drive.handle_callback Drive.poll
    Drive.poll_control_msg Drive.poll_send_data Swappable.poll Swappable.poll_loop Channel.pair
    Channel.poll generate_stream_id is_unidirectional is_unidirectional_send_allowed
opening =
    called {s' = called_back.0} {w' = called_back.1} 3 5 0 0 stream_fin refl
      (meanwhile {w' = asked_for} refl (polled {w' = served.2} 3 not_ready served.1 refl stay))

Steps-Hands_example :
    (hs : List ℕ) × (served.2.sys.1 ≡ empty_hall.sys.1 ++ hs)
    × Serves (ids start.context.streams) hs (ids end.context.streams)
Steps-Hands_example =
    Steps-Hands hall hall_handing Asks start end empty_hall served.2 (λ v v' same. same) opening

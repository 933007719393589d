-- ===== src/Connection/Alive.antt =====
-- src/connection.rs: a simulated outside with channels of messages, and the theorem on a connection's
-- life at concrete steps.
use picoquic_rs.Base.{
  ℕ, zero, suc, ◌<◌, ◌≤◌, ◌≡◌, ◌⊎◌, refl, ap, ◌∙◌, arith, inl, inr, Bool-cases, ◌==◌, ==_iff,
  if◌then◌else◌, Poll, List, [], ◌∷◌, ◌++◌, Option, some, ok, err, ready, not_ready, Async, Exec,
  done, true,
}
use picoquic_rs.Errors.{Error}
use picoquic_rs.World.{World}
use picoquic_rs.Channel
use picoquic_rs.Swappable
use picoquic_rs.Stream.Types.{Message, Receiver, stream_fin}
use picoquic_rs.Stream.Types as Types
use picoquic_rs.Stream.Id.{
  bidirectional, is_client_initiated, is_unidirectional, is_unidirectional_send_allowed,
}
use picoquic_rs.Stream.SendData.{poll_receiver}
use picoquic_rs.Stream.Receive as Receive
use picoquic_rs.Stream.Drive as Drive
use picoquic_rs.Ffi.StreamId.{generate_stream_id}
use picoquic_rs.Connection.Types.{Context, Ext, Request, lookup, insert}
use picoquic_rs.Connection.Context as Ctx
use picoquic_rs.Connection.Callback.{Shared, connection_callback}
use picoquic_rs.Connection.Steps.{Steps, called, meanwhile, polled, stay}
use picoquic_rs.Connection.Waiting.{Rest, Waiting}
use picoquic_rs.Connection.Lasting.{Steps-poll}
use picoquic_rs.Connection.Examples.{idle, fresh_connection}

-- The number of the next channel, how many requests for streams wait, and what waits in each channel.
abbrev pub Hub : Type 0
Hub = ℕ × ℕ × (ℕ → List Message)

abbrev pub at : ℕ → List Message → (ℕ → List Message) → ℕ → List Message
at c l q d = if c == d then l else q d

abbrev pub tail : List Message → List Message
tail [] = []
tail (m ∷ l) = l

abbrev pub head : List Message → Poll (Option Message) (Unit {0})
head [] = ok not_ready
head (m ∷ l) = ok (ready (some m))

abbrev pub next_request : ℕ → Poll (Option Request) (Unit {0}) × ℕ
next_request zero = (ok not_ready, zero)
next_request (suc n) = (ok (ready (some (bidirectional, 9))), n)

abbrev pub hub : Ext Hub
hub = record idle {
  streams = record (idle.streams) {
    msgs = record {
      unbounded = λ s. (s.0, (suc s.0, s.1, at s.0 [] s.2));
      unbounded_send = λ c m s. (true, (s.0, s.1, at c (s.2 c ++ m ∷ []) s.2));
      poll = λ c s. (head (s.2 c), (s.0, s.1, at c (tail (s.2 c)) s.2));
      close = λ c s. s;
      drop_sender = λ c s. s;
      drop_receiver = λ c s. (s.0, s.1, at c [] s.2);
    };
  };
  requests_stream = record { poll = λ c s. let (r, n) = next_request s.1 in (r, (s.0, n, s.2)) };
}

pub at-here : (c : ℕ) (l : List Message) (q : ℕ → List Message) → at c l q c ≡ l
at-here c l q = rw ((==_iff c c).1 refl) refl

pub at-other : (c d : ℕ) (l : List Message) (q : ℕ → List Message) → (c ≡ d → ⊥) → at c l q d ≡ q d
at-other c d l q h = elim (Bool-cases (c == d)) [
  | inl e ↦ absurd (h ((==_iff c d).0 e))
  | inr e ↦ rw e refl
]

pub at-dropped : (c d : ℕ) (q : ℕ → List Message) → (at c [] q d ≡ q d) ⊎ (at c [] q d ≡ [])
at-dropped c d q = elim (Bool-cases (c == d)) [ inl e ↦ inr (rw e refl) | inr e ↦ inl (rw e refl) ]

pub hub-Rest : {A : Type 0} (view : Hub → A) → Rest hub view
hub-Rest view = record {
  ends = record {
    calls = λ c s. refl;
    closes = λ c s. refl;
    drops_receiver = λ c s. refl;
    drops_sender = λ c s. refl;
  };
  create_bytes = λ n s. refl;
  poll_bytes = λ c s. refl;
  provides = λ p n fin still s. refl;
  answers = λ n r s. refl;
  connects = λ n r s. refl;
  tells = λ c m s. refl;
  polls_close = λ c s. refl;
  closes_requests = λ c s. refl;
}

pub no_error :
    (r : Receiver) (w : World Hub) (e : Error) → (poll_receiver hub.streams r w).0 ≡ err e → ⊥
unfolding Channel.poll
no_error r w e h = ground (arith, h)

pub fewer :
    (n : ℕ) (r : Request) → (next_request n).0 ≡ ok (ready (some r)) → (next_request n).1 < n
fewer zero r h = ground (arith, h)
fewer (suc n) r h = omega arith

pub no_more : (n : ℕ) → (next_request n).1 ≤ n
no_more zero = omega arith
no_more (suc n) = omega arith

abbrev pub hub_waiting : Waiting hub
hub_waiting = record {
  waits = λ c s. s.2 c;
  next = λ s. s.0;
  asked = λ s. s.1;
  first = λ c s m l e. (ap head e, at-here c (tail (s.2 c)) s.2 ∙ ap tail e);
  over = λ c s e. (inl (ap head e), at-here c (tail (s.2 c)) s.2 ∙ ap tail e);
  others = λ c d s h. at-other c d (tail (s.2 c)) s.2 h;
  sends = λ c d m s h. at-other c d (s.2 c ++ m ∷ []) s.2 h;
  made_empty = λ s. at-here s.0 [] s.2;
  made_others = λ d s h. at-other s.0 d [] s.2 h;
  numbered = λ s. (omega arith, omega arith);
  drops_sender = λ c d s. refl;
  drops_receiver = λ c d s. at-dropped c d s.2;
  next_drops_sender = λ c s. refl;
  next_drops_receiver = λ c s. refl;
  asked_drops_sender = λ c s. refl;
  asked_drops_receiver = λ c s. refl;
  rest = λ d. hub-Rest (λ s. s.2 d);
  polls_request = λ d c s. refl;
  next_rest = hub-Rest (λ s. s.0);
  next_polls = λ c s. refl;
  next_sends = λ c m s. refl;
  next_request = λ c s. refl;
  no_error = no_error;
  apart = record {
    unbounded = λ s. refl;
    unbounded_send = λ c m s. refl;
    poll_message = λ c s. refl;
    create_bytes = λ n s. refl;
    poll_bytes = λ c s. refl;
    called = λ c s. refl;
  };
  rest_asked = hub-Rest (λ s. s.1);
  received = λ c s r h. fewer s.1 r h;
  no_more = λ c s. no_more s.1;
}

abbrev Anything : World Hub → World Hub → Type 0
Anything w w' = Unit

abbrev start : Shared
start = record { context = fresh_connection; strong = 2 }

abbrev pub empty_hub : World Hub
empty_hub = record { sys = (0, 0, λ c. []); cells = []; calls = [] }

abbrev pub after {ℓ} : {A : Type ℓ} → A → Exec A → A
after a (done b) = b
after a _ = a

-- The peer opens stream 5 and ends its half; the application asks for a stream and resets stream 5.
abbrev called_back : Shared × World Hub
called_back = after (start, empty_hub) (connection_callback hub 3 5 0 0 stream_fin start empty_hub)

abbrev asked_for : World Hub
asked_for = record (called_back.1) { sys = (2, 1, at 1 (Types.reset ∷ []) (λ c. [])) }

abbrev served : Async (Unit {0}) × Context × World Hub
served =
    after (not_ready, called_back.0.context, asked_for)
      (Ctx.poll hub 3 called_back.0.context asked_for)

abbrev end : Shared
end = record (called_back.0) { context = served.1 }

abbrev living : Steps hub Anything start empty_hub end served.2
unfolding connection_callback Ctx.handle_callback Ctx.handle_stream_callback lookup insert Ctx.poll
    Ctx.poll_open Ctx.retain_streams Ctx.check_create_stream_requests Ctx.create_stream
    Receive.new_stream Receive.new_context Receive.create_send_and_recv_data Receive.handle_data
    Receive.handle_event Receive.recv_message Receive.reset_context Receive.close_send_data
    Receive.drop_swappable Receive.drop_context Channel.close Drive.handle_callback Drive.poll
    Drive.poll_control_msg Drive.poll_send_data Swappable.poll Swappable.poll_loop Channel.pair
    Channel.poll generate_stream_id is_unidirectional is_unidirectional_send_allowed
living =
    called {s' = called_back.0} {w' = called_back.1} 3 5 0 0 stream_fin refl
      (meanwhile {w' = asked_for} tt (polled {w' = served.2} 3 not_ready served.1 refl stay))

Steps-poll_example :
    (ctx : Context) × (v : World Hub) × (Ctx.poll hub 3 end.context served.2
      ≡ done (if end.context.closed then ready tt else not_ready, ctx, v))
unfolding connection_callback Ctx.handle_callback Ctx.handle_stream_callback lookup insert Ctx.poll
    Ctx.poll_open Ctx.retain_streams Ctx.check_create_stream_requests Ctx.create_stream
    Receive.new_stream Receive.new_context Receive.create_send_and_recv_data Receive.handle_data
    Receive.handle_event Receive.recv_message Receive.reset_context Receive.close_send_data
    Receive.drop_swappable Receive.drop_context Channel.close Drive.handle_callback Drive.poll
    Drive.poll_control_msg Drive.poll_send_data Swappable.poll Swappable.poll_loop Channel.pair
    Channel.poll generate_stream_id is_client_initiated is_unidirectional
    is_unidirectional_send_allowed
Steps-poll_example =
    Steps-poll hub hub_waiting Anything start end empty_hub served.2 3 living refl
      (
        λ e. ground (arith, e),
        (
          record { numbers = omega arith; controls = (λ t. tt, tt) },
          (
            record { controls = (omega arith, tt); requests = omega arith; numbers = omega arith },
            tt,
          ),
        ),
      )
      (record { controls = (omega arith, tt); requests = omega arith; numbers = omega arith })

-- ===== src/Connection/Runs.antt =====
-- src/connection.rs: a simulated channel of requests that stays open, and the theorems on it at
-- concrete inputs.
use picoquic_rs.Base.{
  ℕ, ◌≡◌, ap, refl, List, [], ◌∷◌, ◌++◌, Option, some, Result, ok, ready, not_ready, Poll, done,
  arith, true,
}
use picoquic_rs.Errors.{Error}
use picoquic_rs.World.{World}
use picoquic_rs.Stream.Types.{Stream}
use picoquic_rs.Stream.Id.{bidirectional, unidirectional}
use picoquic_rs.Stream.Frame.{Apart}
use picoquic_rs.Ffi.StreamId.{generate_stream_id}
use picoquic_rs.Connection.Types.{Context, Ext, Request}
use picoquic_rs.Connection.Requests.{Queue}
use picoquic_rs.Connection.Context.{check_create_stream_requests}
use picoquic_rs.Connection.Served.{Granted, granted, check_create_stream_requests-grants}
use picoquic_rs.Connection.Examples.{idle, fresh_connection}

-- Requests that wait, and the answers so far.
abbrev Counter : Type 0
Counter = List Request × List (ℕ × Result Stream Error)

abbrev take_request : Counter → Poll (Option Request) (Unit {0}) × Counter
take_request ([], a) = (ok not_ready, ([], a))
take_request (r ∷ l, a) = (ok (ready (some r)), (l, a))

abbrev counter : Ext Counter
counter = record idle {
  requests_stream = record { poll = λ c s. take_request s };
  answer_stream = λ n r s. (s.0, s.1 ++ (n, r) ∷ []);
}

abbrev counter_queue : Queue counter 0 not_ready
counter_queue = record {
  queue = λ s. s.0;
  answers = λ s. s.1;
  head = λ s r l h. ((l, s.1), ap (λ x. take_request (x, s.1)) h, refl, refl);
  empty = λ s h. (([], s.1), ap (λ x. take_request (x, s.1)) h, refl, refl);
  answered = λ sender r s. (refl, refl);
}

counter-Apart : {A : Type 0} (seen : Counter → A) → Apart counter.streams seen
counter-Apart seen = record {
  unbounded = λ s. refl;
  unbounded_send = λ c m s. refl;
  poll_message = λ c s. refl;
  create_bytes = λ n s. refl;
  poll_bytes = λ c s. refl;
  called = λ c s. refl;
}

abbrev asked : World Counter
asked = record { sys = ((bidirectional, 5) ∷ (unidirectional, 6) ∷ [], []); cells = []; calls = [] }

check_create_stream_requests-grants_example :
    (ctx' : Context) × (w' : World Counter) × (check_create_stream_requests counter 3
        fresh_connection asked
      ≡ done (ctx', w'))
    × (w'.sys.0 ≡ [])
    × Granted counter fresh_connection
        (λ v. v.sys.1)
        ((bidirectional, 5) ∷ (unidirectional, 6) ∷ [])
        asked
        ctx'
        w'
check_create_stream_requests-grants_example =
    check_create_stream_requests-grants counter 3 fresh_connection asked counter_queue
      (counter-Apart (λ s. s.0)) (counter-Apart (λ s. s.1)) (omega arith) (omega arith) tt

-- Who is granted which id there.
granted_ids : List (ℕ × ℕ)
granted_ids = granted 0 true ((bidirectional, 5) ∷ (unidirectional, 6) ∷ [])

granted_ids_lem : granted_ids ≡ (5, 4) ∷ (6, 10) ∷ []
unfolding granted_ids granted generate_stream_id
granted_ids_lem = refl

-- ===== src/Inner/Doorway.antt =====
-- src/context_inner.rs: the theorem on requests for connections at a simulated queue of them.
use picoquic_rs.Base.{
  ◌==◌, ap, arith, panic, ◌≡◌, refl, false, List, [], ◌∷◌, Option, none, some, ok, ready, not_ready,
  Poll,
}
use picoquic_rs.World.{World}
use picoquic_rs.Connection.Examples.{idle, silent}
use picoquic_rs.Inner.Accept as Accept
use picoquic_rs.Inner.Accept.{
  CContext, NewConnectionMsg, push_made, check_for_new_connection_request,
}
use picoquic_rs.Inner.Refused.{Queued, check_for_new_connection_request-Survives}
use picoquic_rs.Inner.Living.{no_connection}

-- A queue of requests, where the address 0 is unspecified and picoquic makes no connection.
abbrev Line : Type 0
Line = List NewConnectionMsg

abbrev next_of : Line → Poll (Option NewConnectionMsg) (Unit {0}) × Line
next_of [] = (ok not_ready, [])
next_of (m ∷ l) = (ok (ready (some m)), l)

abbrev line : Accept.Ext Line
line = record {
  con = idle;
  requests = record silent { poll = λ c s. next_of s };
  new_cons = silent;
  create_oneshot = λ s. ((0, 0), s);
  poll_answer = λ c s. (ok not_ready, s);
  is_unspecified = λ a. a == 0;
  has_nul = λ n. false;
  create_client_cnx = λ a n t s. (0, s);
  cnx_state = λ c s. 0;
  state_closing = 1;
}

abbrev line_queued : Queued line 2
line_queued = record {
  waiting = λ s. s;
  first = λ s m l e. (ap (λ q. (next_of q).0) e, ap (λ q. (next_of q).1) e);
  over = λ s e. ap (λ q. (next_of q).0) e;
  client = λ a n t s. refl;
  begins = record {
    channel = λ s. refl;
    oneshot = λ s. refl;
    create_requests = λ s. refl;
    polls = λ c s. refl;
    calls = λ c s. refl;
  };
}

abbrev bad_request : World Line
bad_request = record { sys = (4, "good", 7) ∷ (0, "bad", 8) ∷ []; cells = []; calls = [] }

check_for_new_connection_request-Survives_example :
    check_for_new_connection_request line 3 2 22 0 none 8 no_connection bad_request ≡ panic
check_for_new_connection_request-Survives_example =
    check_for_new_connection_request-Survives line 2 line_queued 3 0 8 22 none no_connection
      bad_request (omega arith)

-- ===== src/Stream/Told.antt =====
-- src/stream.rs: a simulated channel to the application that remembers what it is told, and the
-- theorem on it at a concrete history.
use picoquic_rs.Base.{
  ℕ, ◌≡◌, refl, arith, done, Option, Poll, true, false, List, [], ◌∷◌, ◌++◌, none, some, ok, ready,
  not_ready,
}
use picoquic_rs.World.{World}
use picoquic_rs.Channel
use picoquic_rs.Stream.Types.{Context, Ext, Message, Stream, other, stream_fin}
use picoquic_rs.Stream.Types as Types
use picoquic_rs.Stream.StopSending.{Happening, app_reset, connection_close, from_peer, happens}
use picoquic_rs.Stream.Delivery.{Open, happens-tells, tells}
use picoquic_rs.Stream.Arrives.{Reading, arrives, over}
use picoquic_rs.Stream.Reading.{Mailbox, happens-arrives, read_all}

abbrev next_message : List Message → Poll (Option Message) (Unit {0}) × List Message
next_message [] = (ok not_ready, [])
next_message (m ∷ ms) = (ok (ready (some m)), ms)

-- The outside is what the application was told and has not read, and the channel to it never refuses.
abbrev remembering : Ext (List Message)
remembering = record {
  msgs = record {
    unbounded = λ s. (0, s);
    unbounded_send = λ c m s. (true, s ++ m ∷ []);
    poll = λ c s. next_message s;
    close = λ c s. s;
    drop_sender = λ c s. s;
    drop_receiver = λ c s. s;
  };
  create_bytes = λ n s. ((0, 0), s);
  bytes_sink = record {
    start_send = λ c b s. (ok Channel.sink_ready, s);
    poll_complete = λ c s. (ok (ready tt), s);
  };
  bytes_closed = record { is_closed = λ c s. false };
  bytes_stream = record { poll = λ c s. (ok not_ready, s) };
  bytes_close = record { close = λ c s. s };
  drop_sender = λ c s. s;
  drop_receiver = λ c s. s;
  call = λ c s. s;
  provide = λ place n fin still s. (some place, s);
  slice = λ p n s. [];
  cnx_peer_addr = λ c s. 0;
}

abbrev remembering_is_open : (recv_msg : ℕ) → Open remembering recv_msg
remembering_is_open recv_msg = record {
  log = λ s. s;
  takes = λ m s. (refl, refl);
  called = λ c s. refl;
  closed = λ r s. refl;
  dropped = λ r s. refl;
}

abbrev opened_stream : Context
opened_stream = record {
  recv_msg = 0;
  send_data = none;
  control_msg = 0;
  id = 4;
  cnx = 0;
  is_client_con = true;
  data_send = false;
  stop_sending_or_fin_sent = false;
  fin_received_or_recv_msg_dropped = false;
  active_buffer = none;
}

abbrev nothing_told : World (List Message)
nothing_told = record { sys = []; cells = []; calls = [] }

-- Data, an end with data, data after the end, then the connection closes.
abbrev history : List Happening
history =
    from_peer (1 ∷ 2 ∷ []) (other 0)
    ∷ app_reset
    ∷ from_peer [] (other 0)
    ∷ from_peer (3 ∷ []) stream_fin
    ∷ from_peer (4 ∷ []) (other 0)
    ∷ connection_close
    ∷ []

happens-tells_example :
    (happens remembering history (opened_stream, nothing_told)).1.sys ≡ tells true history
happens-tells_example =
    happens-tells remembering (remembering_is_open 0) history opened_stream nothing_told refl

abbrev remembering_mailbox : Mailbox remembering (remembering_is_open 0)
remembering_mailbox = record { first = λ s m ms h. ground arith; empty = λ s h. ground arith }

abbrev reader : Stream
reader = record {
  recv_msg = 0;
  control_msg = 1;
  send_data = none;
  id = 4;
  peer_addr = 0;
  local_addr = 0;
  is_reset = false;
}

happens-arrives_example :
    (s' : Stream) × (w' : World (List Message)) × (read_all remembering 13 reader
        (happens remembering history (opened_stream, nothing_told)).1
      ≡ done (arrives true history, s', w'))
happens-arrives_example =
    happens-arrives remembering (remembering_is_open 0) remembering_mailbox history opened_stream
      nothing_told reader 13 refl refl refl refl (omega arith)

-- What is to be read of it.
history_read : Reading
history_read = arrives true history

history_read_lem : history_read ≡ ((1 ∷ 2 ∷ []) ∷ (3 ∷ []) ∷ [], over)
unfolding history_read arrives
history_read_lem = refl

-- What the history above tells the application.
history_told : List Message
history_told = tells true history

history_told_lem :
    history_told
    ≡ Types.recv_data (1 ∷ 2 ∷ []) ∷ Types.recv_data (3 ∷ []) ∷ Types.close ∷ Types.close ∷ []
unfolding history_told tells
history_told_lem = refl

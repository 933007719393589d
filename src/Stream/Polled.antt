-- ===== src/Stream/Polled.antt =====
-- src/stream.rs: a simulated channel of control messages, and the theorem on a poll at it.
use picoquic_rs.Base.{
  ℕ, ◌+◌, ◌≡◌, refl, ap, inl, arith, done, Option, Poll, true, false, List, [], ◌∷◌, none, some, ok,
  err, ready, not_ready, ◌&&◌, if◌then◌else◌,
}
use picoquic_rs.Errors.{Error}
use picoquic_rs.World.{World}
use picoquic_rs.Channel
use picoquic_rs.Stream.Types.{Context, Ext, Message, Receiver}
use picoquic_rs.Stream.Types as Types
use picoquic_rs.Stream.SendData.{poll_receiver}
use picoquic_rs.Stream.Drive.{poll}
use picoquic_rs.Stream.Controls.{Controlled}
use picoquic_rs.Stream.Returns.{poll-finishes}

abbrev Controls : Type 0
Controls = List Message

abbrev next_control : Controls → Poll (Option Message) (Unit {0}) × Controls
next_control [] = (ok not_ready, [])
next_control (m ∷ l) = (ok (ready (some m)), l)

abbrev controlling : Ext Controls
controlling = record {
  msgs = record {
    unbounded = λ s. (0, s);
    unbounded_send = λ c m s. (true, s);
    poll = λ c s. next_control s;
    close = λ c s. s;
    drop_sender = λ c s. s;
    drop_receiver = λ c s. s;
  };
  create_bytes = λ n s. ((0, 0), s);
  bytes_sink = record {
    start_send = λ c b s. (ok Channel.sink_ready, s);
    poll_complete = λ c s. (ok (ready tt), s);
  };
  bytes_closed = record { is_closed = λ c s. false };
  bytes_stream = record { poll = λ c s. (ok (ready none), s) };
  bytes_close = record { close = λ c s. s };
  drop_sender = λ c s. s;
  drop_receiver = λ c s. s;
  call = λ c s. s;
  provide = λ place n fin still s. (some (place + 1), s);
  slice = λ p n s. [];
  cnx_peer_addr = λ c s. 0;
}

no_error :
    (r : Receiver) (w : World Controls) (e : Error) → (poll_receiver controlling r w).0 ≡ err e → ⊥
unfolding Channel.poll
no_error r w e h = ground arith

polls-quiet : (r : Receiver) (w : World Controls) → (poll_receiver controlling r w).1.sys ≡ w.sys
unfolding Channel.poll
polls-quiet r w = refl

abbrev controlling_controlled : Controlled controlling 7
controlling_controlled = record {
  controls = λ s. s;
  first = λ s m l e. (ap (λ q. (next_control q).0) e, ap (λ q. (next_control q).1) e);
  over = λ s e. (inl (ap (λ q. (next_control q).0) e), ap (λ q. (next_control q).1) e);
  drops = record {
    calls = λ c s. refl;
    closes = λ c s. refl;
    drops_receiver = λ c s. refl;
    drops_sender = λ c s. refl;
  };
  polls = polls-quiet;
  no_error = no_error;
}

abbrev rx : ℕ → Receiver
rx n = record { receiver = n; error_state = record { inner = 0 } }

-- A new channel for sending, and then a reset.
abbrev swap_and_reset : World Controls
swap_and_reset = record {
  sys =
      Types.swap_send_data (rx 5) (record { sender = 2; error_state = record { inner = 0 } })
      ∷ Types.reset
      ∷ [];
  cells = [];
  calls = [];
}

abbrev streaming : Context
streaming = record {
  recv_msg = 6;
  send_data = some (record { active_stream = rx 1; swap_to = none });
  control_msg = 7;
  id = 4;
  cnx = 0;
  is_client_con = true;
  data_send = false;
  stop_sending_or_fin_sent = false;
  fin_received_or_recv_msg_dropped = false;
  active_buffer = none;
}

poll-finishes_example :
    (ctx' : Context) × (w' : World Controls) × (poll controlling 3 streaming swap_and_reset
      ≡ done (
        if ctx'.stop_sending_or_fin_sent && ctx'.fin_received_or_recv_msg_dropped
            then ok (ready tt)
            else ok not_ready,
        ctx',
        w',
      ))
    × (w'.sys ≡ [])
poll-finishes_example =
    poll-finishes controlling 7 controlling_controlled 3 streaming swap_and_reset refl tt
      (omega arith)

-- ===== src/Stream/Examples.antt =====
-- A simulated outside for src/stream.rs: queues of bytes, open message channels that hold nothing,
-- and a picoquic that takes every call. The theorems at concrete inputs.
use picoquic_rs.Base.{
  ℕ, ◌+◌, ◌≤◌, ◌≡◌, refl, Bool, true, false, List, [], ◌∷◌, Option, none, some, ok, ready,
  not_ready, done, arith, ◌==◌, if◌then◌else◌, Poll, map_err,
}
use picoquic_rs.Errors.{Bytes, from_kind, unknown}
use picoquic_rs.World
use picoquic_rs.World.{World}
use picoquic_rs.Channel
use picoquic_rs.Swappable.{SwappableStream}
use picoquic_rs.Swappable.Laws.{IsQueue, Takes}
use picoquic_rs.Stream.Types.{Context, Ext, Receiver, other, stream_reset}
use picoquic_rs.Swappable
use picoquic_rs.Stream.StopSending.{
  Happening, app_dropped, from_peer, happens, stops, stop_sending_once,
}
use picoquic_rs.Stream.SendData.{
  handle_send_data, collect_loop, copy_buffers, poll_receiver, drop_receiver,
}
use picoquic_rs.Stream.Sending.{Provides, Sent, handle_send_data-Sent}
use picoquic_rs.Stream.Outflow.{outflow, requests, unsent, IsPrompt, IsEnding, requests-take}

abbrev Outside : Type 0
Outside = ℕ → List Bytes

abbrev rest_of : List Bytes → List Bytes
rest_of [] = []
rest_of (b ∷ bs) = bs

-- The first channel has ended; the others stay open.
abbrev front : ℕ → List Bytes → Poll (Option Bytes) (Unit {0})
front c [] = if c == 1 then ok (ready none) else ok not_ready
front c (b ∷ bs) = ok (ready (some b))

abbrev pop : ℕ → Outside → Outside
pop c s d = if c == d then rest_of (s d) else s d

abbrev sim : Ext Outside
sim = record {
  msgs = record {
    unbounded = λ s. (0, s);
    unbounded_send = λ c m s. (true, s);
    poll = λ c s. (ok not_ready, s);
    close = λ c s. s;
    drop_sender = λ c s. s;
    drop_receiver = λ c s. s;
  };
  create_bytes = λ n s. ((0, 0), s);
  bytes_sink = record {
    start_send = λ c b s. (ok Channel.sink_ready, s);
    poll_complete = λ c s. (ok (ready tt), s);
  };
  bytes_closed = record { is_closed = λ c s. false };
  bytes_stream = record { poll = λ c s. (front c (s c), pop c s) };
  bytes_close = record { close = λ c s. s };
  drop_sender = λ c s. s;
  drop_receiver = λ c s. s;
  call = λ c s. s;
  provide = λ place n fin still s. (some (place + 1), s);
  slice = λ p n s. [];
  cnx_peer_addr = λ c s. 0;
}

abbrev rx : ℕ → Receiver
rx n = record { receiver = n; error_state = record { inner = 0 } }

abbrev queued : Receiver → World Outside → List Bytes
queued r w = w.sys r.receiver

front-Takes :
    (c : ℕ) (before after : List Bytes)
    → after ≡ rest_of before
    → Takes (map_err (λ _. from_kind unknown) (front c before)) before after
front-Takes c [] after e = ground arith
front-Takes c (b ∷ bs) after e = ground arith

sim-IsQueue : IsQueue (poll_receiver sim) (drop_receiver sim) (λ r. r.receiver) queued
unfolding Channel.poll
sim-IsQueue = record {
  takes = λ r w. front-Takes r.receiver (w.sys r.receiver) _ (ground arith);
  others = λ r t w h. ground arith;
  others_drop = λ r t w h. refl;
}

front_waits :
    (c : ℕ) (bs : List Bytes)
    → map_err (λ _. from_kind unknown) (front c bs) ≡ ok not_ready
    → (bs ≡ []) × ((c ≡ 1) → ⊥)
front_waits c [] h = (refl, λ e. ground arith)
front_waits c (b ∷ bs) h = ground arith

sim-IsPrompt : IsPrompt sim sim-IsQueue
unfolding Channel.poll
sim-IsPrompt = λ r w h. (front_waits r.receiver (w.sys r.receiver) h).0

-- The sender of the first channel is gone.
first-IsEnding : IsEnding sim (rx 1)
unfolding Channel.poll
first-IsEnding = λ w h. (front_waits 1 (w.sys 1) h).1 refl

sim-Provides : Provides sim sim-IsQueue
sim-Provides = record {
  dest = λ place n fin still v. (place + 1, refl);
  request_quiet = λ r place n fin still v. refl;
  call_quiet = λ r c v. refl;
}

-- Five bytes wait in two channels behind an active buffer of two bytes.
abbrev waiting_bytes : World Outside
waiting_bytes = record {
  sys = λ c. if c == 1 then (3 ∷ 4 ∷ []) ∷ [] else if c == 2 then (5 ∷ 6 ∷ 7 ∷ []) ∷ [] else [];
  cells = [];
  calls = [];
}

abbrev sending : Context
sending = record {
  recv_msg = 0;
  send_data = some (record { active_stream = rx 1; swap_to = some (rx 2) });
  control_msg = 0;
  id = 4;
  cnx = 0;
  is_client_con = true;
  data_send = false;
  stop_sending_or_fin_sent = false;
  fin_received_or_recv_msg_dropped = false;
  active_buffer = some (1 ∷ 2 ∷ []);
}

handle_send_data-Sent_example :
    (ctx' : Context) × (w' : World Outside) × (p : ℕ) × (written : Bytes) × (fin still : Bool)
    × (handle_send_data sim 3 9 5 sending waiting_bytes ≡ done (ctx', w'))
    × Sent sim sim-IsQueue 9 5 sending waiting_bytes ctx' w' p written fin still
handle_send_data-Sent_example =
    handle_send_data-Sent sim sim-IsQueue 3 9 5 sending waiting_bytes sim-Provides (omega arith)
      (omega arith)

-- The five bytes asked for are written, and the sixth and seventh stay in the active buffer.
sent_bytes : Option Bytes × List World.Call
sent_bytes = elim (handle_send_data sim 4 9 5 sending waiting_bytes) [
  | done (ctx, w) ↦ (ctx.active_buffer, w.calls)
  | _ ↦ (none, [])
]

sent_bytes_lem : sent_bytes ≡ (
  some (6 ∷ 7 ∷ []),
  World.write_buffer 10 (1 ∷ 2 ∷ 3 ∷ 4 ∷ 5 ∷ [])
      ∷ World.provide_stream_data_buffer 9 5 false true
      ∷ [],
)
unfolding sent_bytes handle_send_data collect_loop Swappable.poll Channel.poll copy_buffers
sent_bytes_lem = refl

-- Three requests for three bytes, one and nine: the swap comes in the last.
requests-take_example :
    (ctx' : Context) × (w' : World Outside) × (requests sim 3 9
        (3 ∷ 1 ∷ 9 ∷ [])
        sending
        waiting_bytes
      ≡ done (ctx', w'))
    × (outflow w'.calls ≡ 1 ∷ 2 ∷ 3 ∷ 4 ∷ 5 ∷ 6 ∷ 7 ∷ [])
    × (unsent sim sim-IsQueue ctx' w' ≡ [])
requests-take_example =
    requests-take sim sim-IsQueue 3 9 (3 ∷ 1 ∷ 9 ∷ []) sending waiting_bytes sim-Provides
      sim-IsPrompt (omega arith) (omega arith) first-IsEnding

-- The application has gone, the peer sends on and resets the stream.
abbrev happenings : List Happening
happenings =
    app_dropped ∷ from_peer (1 ∷ []) (other 0) ∷ app_dropped ∷ from_peer [] stream_reset ∷ []

stop_sending_once_example :
    let (ctx', w') = happens sim happenings (sending, waiting_bytes) in stops w'.calls ≤ 1
stop_sending_once_example = stop_sending_once sim happenings sending waiting_bytes

-- ===== src/Channel/Examples.antt =====
-- src/channel_with_error.rs: theorems at concrete inputs. The wrapped sender always fails, and is
-- closed.
use picoquic_rs.Base.{ℕ, ◌+◌, ◌≡◌, ◌<◌, refl, true, [], ◌∷◌, none, some, err, arith, length}
use picoquic_rs.Errors.{ErrorFn, from_kind, unknown, disconnected}
use picoquic_rs.World.{World}
use picoquic_rs.Channel.{
  Sink, IsClosed, SenderWithError, ReceiverWithError, channel, start_send, propagate_error, pair,
  error,
}
use picoquic_rs.Channel.Propagation.{pair-fresh, start_send-propagate_error}

abbrev failing : Sink ℕ ℕ ℕ ℕ
failing = record { start_send = λ c item s. (err item, s); poll_complete = λ c s. (err 0, s) }

abbrev closed : IsClosed ℕ ℕ
closed = record { is_closed = λ c s. true }

abbrev world : World ℕ
world = record { sys = 0; cells = some (λ _. from_kind unknown) ∷ none ∷ []; calls = [] }

abbrev tx : SenderWithError ℕ
tx = record { sender = 5; error_state = record { inner = 1 } }

abbrev rx : ReceiverWithError ℕ
rx = record { receiver = 5; error_state = record { inner = 1 } }

abbrev create : ℕ → (ℕ × ℕ) × ℕ
create s = ((s, s), s + 1)

abbrev gone : ErrorFn
gone _ = from_kind disconnected

pair-fresh_example :
    let ((s, r), w') = pair create world in
    (s.error_state ≡ r.error_state)
    × (s.error_state.inner < length w'.cells)
    × (error s.error_state w' ≡ none)
    × (error (record { inner = 0 }) (propagate_error r gone w')
        ≡ error (record { inner = 0 }) world)
pair-fresh_example = pair-fresh create gone world (record { inner = 0 }) (omega arith)

start_send-propagate_error_example :
    (start_send failing closed tx 7 (propagate_error rx gone world)).0
    ≡ err (channel (from_kind disconnected) 7)
start_send-propagate_error_example =
    start_send-propagate_error failing closed tx rx 7 gone world refl (omega arith)

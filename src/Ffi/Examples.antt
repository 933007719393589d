-- ===== src/Ffi/Examples.antt =====
-- The unit tests of src/ffi, and theorems at concrete inputs.
use picoquic_rs.Base.{ℕ, ◌≡◌, refl, true, false, arith, ◌/◌, ◌<◌, ◌^◌, ◌+◌}
use picoquic_rs.Stream.Id.{
  unidirectional, bidirectional, is_client_initiated, type_of_id, is_unidirectional_send_allowed,
}
use picoquic_rs.Ffi.StreamId.{
  generate_stream_id, generate_stream_id-decode, generate_stream_id-injective,
  generate_stream_id-send_allowed,
}
use picoquic_rs.Ffi.MicroSeconds.{
  from_micro_seconds, as_micro_seconds, as-from_micro_seconds, from-as_micro_seconds,
  get_next_wake_up_time, Sleeps, get_next_wake_up_time-Sleeps,
}

client_and_server_ids :
    (generate_stream_id 2 true bidirectional ≡ 12)
    × (generate_stream_id 2 true unidirectional ≡ 14)
    × (generate_stream_id 2 false bidirectional ≡ 13)
    × (generate_stream_id 2 false unidirectional ≡ 15)
unfolding generate_stream_id
client_and_server_ids = (refl, refl, refl, refl)

generate_stream_id-decode_example :
    let id = generate_stream_id 2 false unidirectional in
    (id / 4 ≡ 2 + 1)
    × (is_client_initiated id ≡ false)
    × (type_of_id id ≡ unidirectional)
    × (id < 2 ^ 64)
generate_stream_id-decode_example = generate_stream_id-decode 2 false unidirectional (omega arith)

generate_stream_id-injective_example :
    (◌≡◌ {A = ℕ} 7 7) × (true ≡ true) × (bidirectional ≡ bidirectional)
generate_stream_id-injective_example =
    generate_stream_id-injective 7 7 true true bidirectional bidirectional (omega arith)
      (omega arith) refl

as-from_micro_seconds_example :
    (as_micro_seconds (from_micro_seconds 1_000_005) ≡ 1_000_005)
    × ((from_micro_seconds 1_000_005).subsec_nanos < 1_000_000_000)
as-from_micro_seconds_example = as-from_micro_seconds 1_000_005 (omega arith)

from-as_micro_seconds_example :
    from_micro_seconds (as_micro_seconds (record { secs = 1; subsec_nanos = 5_999 }))
    ≡ record { secs = 1; subsec_nanos = 5_000 }
from-as_micro_seconds_example =
    from-as_micro_seconds (record { secs = 1; subsec_nanos = 5_999 }) (omega arith) (omega arith)

generate_stream_id-send_allowed_example :
    is_unidirectional_send_allowed (generate_stream_id 5 false unidirectional) true ≡ false
generate_stream_id-send_allowed_example =
    generate_stream_id-send_allowed 5 false true unidirectional (omega arith)

get_next_wake_up_time-Sleeps_example :
    Sleeps 2_000_001 (get_next_wake_up_time (λ now limit. 2_000_001) 5)
get_next_wake_up_time-Sleeps_example =
    get_next_wake_up_time-Sleeps (λ now limit. 2_000_001) 5 (omega arith)

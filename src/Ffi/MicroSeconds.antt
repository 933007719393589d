-- ===== src/Ffi/MicroSeconds.antt =====
-- src/ffi/quic_ctx.rs: `MicroSeconds for Duration`, and when picoquic wants to be called again.
use picoquic_rs.Base.{
  ℕ, ◌+◌, ◌*◌, ◌/◌, ◌%◌, ◌^◌, ◌<◌, ◌≡◌, ◌≤◌, Bool-cases, inl, inr, arith, ◌==◌, if◌then◌else◌,
  Option, none, some,
}

-- `std::time::Duration`: nanoseconds below a second.
pub record Duration : Type 0 where
  pub secs : ℕ
  pub subsec_nanos : ℕ

unfoldable pub from_micro_seconds : ℕ → Duration
from_micro_seconds micros = record {
  secs = micros / 1_000_000;
  subsec_nanos = micros % 1_000_000 * 1000 % 2 ^ 32;
}

unfoldable pub as_micro_seconds : Duration → ℕ
as_micro_seconds d = (d.secs * 1_000_000 % 2 ^ 64 + d.subsec_nanos / 1000) % 2 ^ 64

-- Every number of microseconds of 64 bits survives the way into a `Duration` and back, and the
-- nanoseconds stay below a second.
pub as-from_micro_seconds :
    (micros : ℕ)
    → micros < 2 ^ 64
    → (as_micro_seconds (from_micro_seconds micros) ≡ micros)
      × ((from_micro_seconds micros).subsec_nanos < 1_000_000_000)
unfolding as_micro_seconds from_micro_seconds
as-from_micro_seconds micros h = (omega arith, omega arith)

-- A duration whose microseconds fit 64 bits comes back cut to whole microseconds.
pub from-as_micro_seconds :
    (d : Duration)
    → d.subsec_nanos < 1_000_000_000
    → d.secs * 1_000_000 + d.subsec_nanos / 1000 < 2 ^ 64
    → from_micro_seconds (as_micro_seconds d)
      ≡ record { secs = d.secs; subsec_nanos = d.subsec_nanos / 1000 * 1000 }
unfolding as_micro_seconds from_micro_seconds
from-as_micro_seconds d h k = ground arith

abbrev pub max_delay : Duration
max_delay = record { secs = 10; subsec_nanos = 0 }

-- `QuicCtx::get_next_wake_up_time`, from picoquic's delay, which is read as a `u64`, to the time to
-- wait from now.
unfoldable pub get_next_wake_up_time : (ℕ → ℕ → ℕ) → ℕ → Option Duration
unfolding from_micro_seconds as_micro_seconds
get_next_wake_up_time next_wake_delay current_time =
    let wake_up = next_wake_delay current_time (as_micro_seconds max_delay) in
    if wake_up == 0 then none else some (from_micro_seconds wake_up)

-- No sleep for a delay of 0, and otherwise a sleep of that many microseconds, of ten seconds at most.
abbrev pub Sleeps : ℕ → Option Duration → Type 0
Sleeps delay none = delay ≡ 0
Sleeps delay (some d) =
    (as_micro_seconds d ≡ delay)
    × (0 < delay)
    × (d.secs * 1_000_000_000 + d.subsec_nanos ≤ 10_000_000_000)

-- Where picoquic's delay keeps to the limit of ten seconds that it is given, there is no time to sleep
-- if the delay is 0, and otherwise it is the delay to the microsecond and at most ten seconds.
pub get_next_wake_up_time-Sleeps :
    (next_wake_delay : ℕ → ℕ → ℕ) (now : ℕ)
    → next_wake_delay now 10_000_000 ≤ 10_000_000
    → Sleeps (next_wake_delay now 10_000_000) (get_next_wake_up_time next_wake_delay now)
unfolding get_next_wake_up_time as_micro_seconds from_micro_seconds
get_next_wake_up_time-Sleeps delay now h = elim (Bool-cases (delay now 10_000_000 == 0)) [
  | inl at_once ↦ rw at_once (ground arith)
  | inr more ↦ rw more (ground arith)
]

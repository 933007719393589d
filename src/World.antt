-- ===== src/World.antt =====
-- What lies outside the crate, as the crate meets it: the channels of `futures::sync::mpsc`, the C
-- library picoquic, and the shared error cells of src/channel_with_error.rs.
--
-- `Sys` is the state of everything outside, and an operation on it is a parameter. A channel's
-- halves are named by a number.
use picoquic_rs.Base.{ℕ, Bool, List, ◌∷◌, Option, Poll}
use picoquic_rs.Errors.{ErrorFn, Bytes}

-- The calls of picoquic that return nothing the crate reads, and the write into the buffer that
-- picoquic provides for stream data. The first argument is the connection's pointer.
pub data Call : Type 0 where
  reset_stream stop_sending : ℕ → ℕ → ℕ → Call
  mark_active_stream : ℕ → ℕ → ℕ → Call
  close_cnx : ℕ → ℕ → Call
  set_callback : ℕ → Bool → Call
  enable_keep_alive : ℕ → ℕ → Call
  provide_stream_data_buffer : ℕ → ℕ → Bool → Bool → Call
  write_buffer : ℕ → Bytes → Call

-- `cells` holds the error of each `ErrorState`, `calls` the calls made so far, the newest first.
pub record World (Sys : Type 0) : Type 0 where
  pub sys : Sys
  pub cells : List (Option ErrorFn)
  pub calls : List Call

-- A channel of `futures::sync::mpsc` for messages of one type; `unbounded_send` says whether the
-- message was taken, and polling a receiver has no error of its own.
pub record Mpsc (Sys Msg : Type 0) : Type 0 where
  pub unbounded : Sys → ℕ × Sys
  pub unbounded_send : ℕ → Msg → Sys → Bool × Sys
  pub poll : ℕ → Sys → Poll (Option Msg) (Unit {0}) × Sys
  pub close : ℕ → Sys → Sys
  pub drop_sender : ℕ → Sys → Sys
  pub drop_receiver : ℕ → Sys → Sys

module _ {Sys : Type 0} where
  -- A result computed on the outside state, put back into the world.
  abbrev pub on_sys {ℓ} : {A : Type ℓ} → World Sys → A × Sys → A × World Sys
  on_sys w (a, s) = (a, record w { sys = s })

  abbrev pub with_sys : World Sys → (Sys → Sys) → World Sys
  with_sys w f = record w { sys = f w.sys }

  -- Make a call of picoquic.
  abbrev pub perform : (Call → Sys → Sys) → Call → World Sys → World Sys
  perform call c w = record w { sys = call c w.sys; calls = c ∷ w.calls }

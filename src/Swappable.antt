-- ===== src/Swappable.antt =====
-- src/swappable_stream.rs: a stream that goes over to another one when it ends.
pub mod Laws
mod Examples
use picoquic_rs.Base.{
  ℕ, zero, suc, Option, none, some, Poll, Result, ok, err, Async, ready, not_ready, Exec, done,
  out_of_fuel,
}

pub record SwappableStream (S : Type 0) : Type 0 where
  pub active_stream : S
  pub swap_to : Option S

module _ {S : Type 0} where
  -- `SwappableStream::new`, and `From<S>`
  abbrev pub new : S → SwappableStream S
  new s = record { active_stream = s; swap_to = none }

  abbrev pub set_swap_to : SwappableStream S → S → SwappableStream S
  set_swap_to s t = record s { swap_to = some t }

  module _ {W Item E : Type 0} (poll_inner : S → W → Poll (Option Item) E × W)
      (drop : S → W → W) where
    -- The loop of `Stream::poll`, on fuel. Assigning `active_stream` drops the stream that ended.
    unfoldable pub poll_loop :
        ℕ → SwappableStream S → W → Exec (Poll (Option Item) E × SwappableStream S × W)
    poll_loop zero s w = out_of_fuel
    poll_loop (suc fuel) s w =
        let (r, w') = poll_inner s.active_stream w in
        elim r [
          | err e ↦ done (err e, s, w')
          | ok not_ready ↦ done (ok not_ready, s, w')
          | ok (ready (some v)) ↦ done (ok (ready (some v)), s, w')
          | ok (ready none) ↦ elim s.swap_to [
            | some t ↦ poll_loop fuel (new t) (drop s.active_stream w')
            | none ↦ done (ok (ready none), s, w')
          ]
        ]

    -- Two rounds suffice, since `swap_to` is taken in the first.
    unfoldable pub poll :
        SwappableStream S → W → Exec (Poll (Option Item) E × SwappableStream S × W)
    unfolding poll_loop
    poll s w = poll_loop 2 s w

-- ===== src/Inner/Loop.antt =====
-- src/context_inner.rs: the loop of `ContextInner::poll`. One round's work is a parameter, as are the
-- timer and the task.
use picoquic_rs.Base.{
  ℕ, zero, suc, ◌+◌, Bool, true, false, Option, none, some, Async, ready, not_ready, Exec, done,
  out_of_fuel, ◌>>=◌, if◌then◌else◌, leb, ok, Poll,
}
use picoquic_rs.Ffi.MicroSeconds.{Duration}

abbrev max_loops_without_sleep : ℕ
max_loops_without_sleep = 50

-- `work` polls the connections and takes the time; `dropped` asks whether the `Context` is gone;
-- `exchange` does the round's requests, receiving and sending; `next_wake` asks picoquic when it
-- wants to be called again; `arm` resets the timer and polls it, and says whether it was ready at
-- once or failed; `notify` wakes the task.
pub record Round (W : Type 0) : Type 0 where
  pub work : W → Exec (ℕ × W)
  pub dropped : W → Bool × W
  pub exchange : ℕ → W → Exec W
  pub next_wake : ℕ → W → Option Duration
  pub arm : Duration → W → Poll (Unit {0}) (Unit {0}) × W
  pub notify : W → W

-- `context_dropped`, from the answer of `poll_cancel` on the close handle.
unfoldable pub context_dropped : Option (Poll (Unit {0}) (Unit {0})) → Bool
context_dropped none = true
context_dropped (some (ok not_ready)) = false
context_dropped (some _) = true

-- `reset_timer`, from the answer of the timer's poll.
unfoldable pub reset_timer : Poll (Unit {0}) (Unit {0}) → Bool
reset_timer (ok not_ready) = true
reset_timer _ = false

module _ {W : Type 0} (k : Round W) where
  -- The rest of a round after `exchange`: where the timer is armed or the limit is reached the future
  -- returns, and otherwise the loop goes on with one more round counted.
  abbrev pub settle : (W → Exec (Async (Unit {0}) × W)) → ℕ → ℕ → W → Exec (Async (Unit {0}) × W)
  settle again loops now w =
      let go = again w in
      if leb max_loops_without_sleep loops
      then done (not_ready, k.notify w)
      else elim (k.next_wake now w) [
        | none ↦ go
        | some d ↦
            let (r, w') = k.arm d w in
            let go' = again w' in elim (reset_timer r) [ true ↦ done (not_ready, w') | false ↦ go' ]
      ]

  -- The loop of `poll`, on fuel, with `loops_without_sleep`.
  unfoldable pub poll_loop : ℕ → ℕ → W → Exec (Async (Unit {0}) × W)
  unfolding reset_timer
  poll_loop zero loops w = out_of_fuel
  poll_loop (suc fuel) loops w = do
    (now, w₁) ← k.work w
    let (gone, w₂) = k.dropped w₁
    elim gone [
      | true ↦ done (ready tt, w₂)
      | false ↦ k.exchange now w₂ >>= λ w₃. settle (λ v. poll_loop fuel (loops + 1) v) loops now w₃
    ]

  -- `Future::poll`. 51 rounds suffice.
  unfoldable pub poll : W → Exec (Async (Unit {0}) × W)
  unfolding poll_loop
  poll w = poll_loop 51 0 w

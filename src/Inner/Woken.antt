-- ===== src/Inner/Woken.antt =====
-- src/context_inner.rs: when the loop of `ContextInner::poll` returns, somebody wakes the future again.
use picoquic_rs.Base.{ℕ, ◌≡◌, ◌⊎◌, true, some, Async, ready, not_ready}
use picoquic_rs.Ffi.MicroSeconds.{Duration}
use picoquic_rs.Inner.Loop.{Round, reset_timer}

module _ {W : Type 0} (k : Round W) where
  -- The timer was reset to the time for which picoquic asked, and has not fired.
  pub record Armed (w' : W) : Type 0 where
    pub now : ℕ
    pub before : W
    pub sleep : Duration
    pub wanted : k.next_wake now before ≡ some sleep
    pub pending : reset_timer (k.arm sleep before).0 ≡ true
    pub armed : w' ≡ (k.arm sleep before).1

  -- How the future leaves the world: it is ready after the `Context` was found gone, and otherwise the
  -- task was notified last, or the timer armed.
  pub Left : Async (Unit {0}) × W → Type 0
  Left (ready _, w') = (v : W) × (k.dropped v ≡ (true, w'))
  Left (not_ready, w') = ((v : W) × (w' ≡ k.notify v)) ⊎ Armed w'

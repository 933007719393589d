-- ===== src/Inner/Bounded.antt =====
-- src/context_inner.rs: the loop of `ContextInner::poll` ends.
use picoquic_rs.Base.{ℕ, ◌≡◌, done}
use picoquic_rs.Inner.Loop.{Round}

module _ {W : Type 0} (k : Round W) where
  -- The rounds of the loop return.
  pub record Returns : Type 0 where
    pub work : (w : W) → (now : ℕ) × (w' : W) × (k.work w ≡ done (now, w'))
    pub exchange : (now : ℕ) (w : W) → (w' : W) × (k.exchange now w ≡ done w')

-- ===== src/Channel/Propagation.antt =====
-- src/channel_with_error.rs: the sender meets the error that the receiver set.
use picoquic_rs.Base.{
  ℕ, ◌<◌, ◌≡◌, ◌≢◌, refl, ap, subst, ◌∙◌, Bool, true, List, [], ◌∷◌, ◌++◌, Option, none, some,
  Result, ok, err, arith, length, get_elem?, set, length-append, get_elem?-set_self,
  get_elem?-append_last,
}
use picoquic_rs.Errors.{Error, ErrorFn}
use picoquic_rs.World.{World}
use picoquic_rs.Channel.{
  ErrorState, Sink, IsClosed, SenderWithError, ReceiverWithError, SendError, channel, normal,
  AsyncSink, error, set_error, new_state, start_send, check_for_error, to_send_error,
  propagate_error, pair,
}

get_elem?-set_ne {ℓ} :
    {A : Type ℓ} (xs : List A) (i j : ℕ) (v : A) → i ≢ j → get_elem? (set xs i v) j ≡ get_elem? xs j
get_elem?-set_ne [] i j v h = refl
get_elem?-set_ne (x ∷ xs) ℕ.zero ℕ.zero v h = absurd (h refl)
get_elem?-set_ne (x ∷ xs) ℕ.zero (ℕ.suc j) v h = refl
get_elem?-set_ne (x ∷ xs) (ℕ.suc i) ℕ.zero v h = refl
get_elem?-set_ne (x ∷ xs) (ℕ.suc i) (ℕ.suc j) v h = get_elem?-set_ne xs i j v (λ e. h (ap ℕ.suc e))

get_elem?-append_old {ℓ} :
    {A : Type ℓ} (xs ys : List A) (i : ℕ) → i < length xs → get_elem? (xs ++ ys) i ≡ get_elem? xs i
get_elem?-append_old [] ys i h = elim h [ ]
get_elem?-append_old (x ∷ xs) ys ℕ.zero h = refl
get_elem?-append_old (x ∷ xs) ys (ℕ.suc i) h = get_elem?-append_old xs ys i (omega arith)

module _ {Sys : Type 0} where
  error-set_error :
      (e : ErrorState) (f : ErrorFn) (w : World Sys)
      → e.inner < length w.cells
      → error e (set_error e f w) ≡ some (f tt)
  unfolding error set_error
  error-set_error e f w h = rw (get_elem?-set_self w.cells e.inner (some f) h)

  error-set_error_ne :
      (e d : ErrorState) (f : ErrorFn) (w : World Sys)
      → e.inner ≢ d.inner
      → error d (set_error e f w) ≡ error d w
  unfolding error set_error
  error-set_error_ne e d f w h = rw (get_elem?-set_ne w.cells e.inner d.inner (some f) h)

  error-pair :
      {S R : Type 0} (create : Sys → (S × R) × Sys) (w : World Sys)
      → error ((pair create w).0.0).error_state (pair create w).1 ≡ none
  unfolding error pair new_state
  error-pair create w = rw (get_elem?-append_last w.cells none)

  error-append :
      (w : World Sys) (sys : Sys) (old : ErrorState)
      → old.inner < length w.cells
      → error old (record w { sys = sys; cells = w.cells ++ none ∷ [] }) ≡ error old w
  unfolding error
  error-append w sys old h = rw (get_elem?-append_old w.cells (none ∷ []) old.inner h)

  module _ {S R : Type 0} (create : Sys → (S × R) × Sys) (f : ErrorFn) (w : World Sys) where
    -- The two halves of a new channel share one cell, which is allocated and holds no error, and an
    -- error set by its receiver changes what no cell that existed before reports.
    pub pair-fresh :
        (old : ErrorState)
        → old.inner < length w.cells
        → let ((s, r), w') = pair create w in
          (s.error_state ≡ r.error_state)
          × (s.error_state.inner < length w'.cells)
          × (error s.error_state w' ≡ none)
          × (error old (propagate_error r f w') ≡ error old w)
    unfolding pair new_state propagate_error
    pair-fresh old h = (
      refl,
      omega (arith, length-append w.cells (none ∷ [])),
      error-pair create w,
      error-set_error_ne (record { inner = length w.cells }) old f
            (record w { sys = (create w.sys).1; cells = w.cells ++ none ∷ [] }) (omega arith)
          ∙ error-append w (create w.sys).1 old h,
    )

-- What a sender reports of an attempt to send: `closed` is asked after the attempt.
abbrev pub report :
    {Item E : Type 0}
    → Result (AsyncSink Item) E
    → Bool
    → Option Error
    → Result (AsyncSink Item) (SendError E)
report (ok a) closed e = ok a
report (err x) true (some e) = err (channel e x)
report (err x) _ _ = err (normal x)

module _ {Sys S Item E : Type 0} (k : Sink Sys S Item E) (c : IsClosed Sys S) where
  start_send-report :
      (s : SenderWithError S) (item : Item) (w : World Sys)
      → let sent = k.start_send s.sender item w.sys in
        (start_send k c s item w).0
        ≡ report sent.0 (c.is_closed s.sender sent.1) (error s.error_state w)
  unfolding start_send to_send_error check_for_error error
  start_send-report s item w = ground arith

module _ {Sys S R : Type 0} (s : SenderWithError S) (r : ReceiverWithError R) (f : ErrorFn) where
  pub error-propagate_error :
      (w : World Sys)
      → s.error_state ≡ r.error_state
      → s.error_state.inner < length w.cells
      → error s.error_state (propagate_error r f w) ≡ some (f tt)
  unfolding propagate_error
  error-propagate_error w share live =
      subst (λ e. error s.error_state (set_error e f w) ≡ some (f tt)) share
        (error-set_error s.error_state f w live)

module _ {Sys S R Item E : Type 0} (k : Sink Sys S Item E) (c : IsClosed Sys S) where
  -- After the receiver has set an error, a send that fails on a closed channel reports that error
  -- together with what the wrapped sender reported, one that fails on an open channel reports none,
  -- and one that the wrapped sender accepts is reported as accepted; where sender and receiver
  -- share an allocated cell.
  pub start_send-propagate_error :
      (s : SenderWithError S) (r : ReceiverWithError R) (item : Item) (f : ErrorFn) (w : World Sys)
      → s.error_state ≡ r.error_state
      → s.error_state.inner < length w.cells
      → let sent = k.start_send s.sender item w.sys in
        (start_send k c s item (propagate_error r f w)).0
        ≡ report sent.0 (c.is_closed s.sender sent.1) (some (f tt))
  unfolding propagate_error set_error
  start_send-propagate_error s r item f w share live =
      rw (← error-propagate_error s r f w share live)
        (start_send-report k c s item (propagate_error r f w))

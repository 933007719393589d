-- ===== src/Swappable/Laws.antt =====
-- src/swappable_stream.rs: what polling comes to, for any wrapped stream, and that nothing is lost
-- or reordered where the wrapped streams are queues.
use picoquic_rs.Base.{
  ℕ, ◌≡◌, ◌≢◌, ◌⊎◌, inl, inr, refl, sym, ap, subst, ◌∙◌, Poll-cases, List, [], ◌∷◌, ◌++◌, Option,
  none, some, Poll, ok, err, ready, not_ready, done, arith, append-nil,
}
use picoquic_rs.Swappable.{SwappableStream, new, poll}

-- One poll of a stream: an item is taken off the front; or there is none yet, and nothing changes;
-- or the stream is at its end, and nothing is left.
abbrev pub Takes : {Item E : Type 0} → Poll (Option Item) E → List Item → List Item → Type 0
Takes {Item} r before after =
    ((a : Item) × (r ≡ ok (ready (some a))) × (before ≡ a ∷ after))
    ⊎ ((r ≡ ok not_ready) × (before ≡ after))
    ⊎ ((r ≡ ok (ready none)) × (before ≡ []) × (after ≡ []))

-- What is assumed of the wrapped streams: each is a queue, and polling one or dropping it leaves
-- those of another name alone.
pub record IsQueue {S W Item E : Type 0} (poll_inner : S → W → Poll (Option Item) E × W)
    (drop : S → W → W) (name : S → ℕ) (queue : S → W → List Item) : Type 0 where
  pub takes : (s : S) (w : W) → Takes (poll_inner s w).0 (queue s w) (queue s (poll_inner s w).1)
  pub others : (s t : S) (w : W) → name s ≢ name t → queue t (poll_inner s w).1 ≡ queue t w
  pub others_drop : (s t : S) (w : W) → name s ≢ name t → queue t (drop s w) ≡ queue t w

module _ {S W Item E : Type 0} (poll_inner : S → W → Poll (Option Item) E × W)
    (drop : S → W → W) where
  -- What a poll of the active stream comes to: if that stream has ended and another one waits, the
  -- other one is active from then on and is polled; otherwise the answer stands and nothing moves.
  pub settle :
      Poll (Option Item) E → S → Option S → W → Poll (Option Item) E × SwappableStream S × W
  settle (ok (ready none)) s (some t) w = let (r, w') = poll_inner t (drop s w) in (r, new t, w')
  settle r s swap w = (r, record { active_stream = s; swap_to = swap }, w)

  -- Polling always returns, for every wrapped stream, and goes over to the waiting stream exactly
  -- when the active one has ended.
  pub poll-settle :
      (s : SwappableStream S) (w : W)
      → let (r, w') = poll_inner s.active_stream w in
        poll poll_inner drop s w ≡ done (settle r s.active_stream s.swap_to w')
  unfolding poll settle
  poll-settle s w = ground arith

  -- What polling and dropping leave alone, a poll of the swappable stream leaves alone.
  pub settle-keeps {ℓ} :
      {B : Type ℓ} (view : W → B)
      → ((s : S) (w : W) → view (poll_inner s w).1 ≡ view w)
      → ((s : S) (w : W) → view (drop s w) ≡ view w)
      → (a : S) (swap : Option S) (w : W)
      → let (r, w') = poll_inner a w in view (settle r a swap w').2 ≡ view w
  unfolding settle
  settle-keeps view p d a none w = ground (arith, p a w)
  settle-keeps view p d a (some t) w =
      ground (arith, p a w, d a (poll_inner a w).1, p t (drop a (poll_inner a w).1))

  -- After a poll the stream is the same, or the one that waited has taken its place.
  abbrev pub Moved : SwappableStream S → SwappableStream S → Type 0
  Moved s s' = (s' ≡ s) ⊎ ((t : S) × (s.swap_to ≡ some t) × (s' ≡ new t))

  pub Moved-trans : (s t u : SwappableStream S) → Moved s t → Moved t u → Moved s u
  Moved-trans s t u (inl e) (inl f) = inl (f ∙ e)
  Moved-trans s t u (inl e) (inr (x, g, f)) = inr (x, ap (λ y. y.swap_to) (sym e) ∙ g, f)
  Moved-trans s t u (inr (x, g, f)) (inl e) = inr (x, g, e ∙ f)
  Moved-trans s t u (inr (x, g, f)) (inr (y, h, e)) = cc (ap (λ z. z.swap_to) f)

  -- The active stream was not ready when it was polled last.
  abbrev pub Stalled : SwappableStream S → W → Type 0
  Stalled s w =
      (v : W) × ((poll_inner s.active_stream v).0 ≡ ok not_ready)
      × (w ≡ (poll_inner s.active_stream v).1)

  settle-Moved :
      (a : S) (swap : Option S) (v : W)
      → let (r, w) = poll_inner a v in
        let (p, s', w') = settle r a swap w in
        Moved (record { active_stream = a; swap_to = swap }) s'
        × ((p ≡ ok not_ready) → Stalled s' w')
  unfolding settle
  settle-Moved a swap v = elim (Poll-cases (poll_inner a v).0) [
    | inl (x, got) ↦ rw (got, settle) (inl refl, λ e. cc)
    | inr (inl (x, got)) ↦ rw (got, settle) (inl refl, λ e. cc)
    | inr (inr (inl got)) ↦ rw (got, settle) (inl refl, λ e. (v, got, refl))
    | inr (inr (inr got)) ↦ ended swap got
  ]
    where
      ended :
          (swap : Option S)
          → (poll_inner a v).0 ≡ ok (ready none)
          → let (r, w) = poll_inner a v in
            let (p, s', w') = settle r a swap w in
            Moved (record { active_stream = a; swap_to = swap }) s'
            × ((p ≡ ok not_ready) → Stalled s' w')
      ended none got = rw (got, settle) (inl refl, λ e. cc)
      ended (some t) got =
          rw (got, settle) (inr (t, refl, refl), λ e. (drop a (poll_inner a v).1, e, refl))

  -- An error is one of the two streams'.
  settle-err :
      (r : Poll (Option Item) E) (a : S) (swap : Option S) (w : W) (e : E)
      → (settle r a swap w).0 ≡ err e
      → (r ≡ err e) ⊎ ((t : S) × ((poll_inner t (drop a w)).0 ≡ err e))
  unfolding settle
  settle-err (ok (ready none)) a (some t) w e h = inr (t, h)
  settle-err (ok (ready none)) a none w e h = inl h
  settle-err (ok (ready (some x))) a swap w e h = inl h
  settle-err (ok not_ready) a swap w e h = inl h
  settle-err (err x) a swap w e h = inl h

  -- Where the wrapped streams have no errors, the swappable stream has none.
  pub settle-ok :
      ((s : S) (w : W) (e : E) → (poll_inner s w).0 ≡ err e → ⊥)
      → (a : S) (swap : Option S) (w : W) (e : E)
      → let (r, w') = poll_inner a w in (settle r a swap w').0 ≡ err e → ⊥
  settle-ok p a swap w e h = elim (settle-err (poll_inner a w).0 a swap (poll_inner a w).1 e h) [
    | inl first ↦ p a w e first
    | inr (t, second) ↦ p t (drop a (poll_inner a w).1) e second
  ]

  -- A poll that returns moves on at most once, and an answer that nothing is ready is the active
  -- stream's.
  pub poll-Moved :
      (s s' : SwappableStream S) (w w' : W) (r : Poll (Option Item) E)
      → poll poll_inner drop s w ≡ done (r, s', w')
      → Moved s s' × ((r ≡ ok not_ready) → Stalled s' w')
  poll-Moved s s' w w' r e =
      let out =
        settle (poll_inner s.active_stream w).0 s.active_stream s.swap_to
          (poll_inner s.active_stream w).1 in
      let same : out ≡ (r, s', w') = cc (e, poll-settle s w) in
      subst
        (λ (x : Poll (Option Item) E × SwappableStream S × W).
          Moved s x.1 × ((x.0 ≡ ok not_ready) → Stalled x.1 x.2))
        same (settle-Moved s.active_stream s.swap_to w)

  module _ {name : S → ℕ} {queue : S → W → List Item} (q : IsQueue poll_inner drop name queue) where
    abbrev pub waiting : Option S → W → List Item
    waiting none w = []
    waiting (some t) w = queue t w

    -- What is still to come from a swappable stream, in order.
    abbrev pub pending : SwappableStream S → W → List Item
    pending s w = queue s.active_stream w ++ waiting s.swap_to w

    abbrev pub Apart : S → Option S → Type 0
    Apart a none = Unit
    Apart a (some t) = name a ≢ name t

    settle-Takes :
        (a : S) (swap : Option S) (w : W)
        → Apart a swap
        → let (r, w') = poll_inner a w in
          let (p, s, w'') = settle r a swap w' in
          Takes p (queue a w ++ waiting swap w) (pending s w'') × Apart s.active_stream s.swap_to
    unfolding settle
    settle-Takes a none w h =
        ground (arith, q.takes a w, append-nil (queue a w), append-nil (queue a (poll_inner a w).1))
    settle-Takes a (some t) w h = ground (
      arith,
      q.takes a w,
      q.others a t w,
      q.others_drop a t (poll_inner a w).1,
      q.takes t (drop a (poll_inner a w).1),
      append-nil (queue t (drop a (poll_inner a w).1)),
      append-nil (queue t (poll_inner t (drop a (poll_inner a w).1)).1),
    )

    -- Where the wrapped streams are queues and the two have different names, a poll of the swappable
    -- stream takes the first item of the active queue followed by the waiting one, or finds nothing
    -- yet, or ends when both are empty; the two names stay different; and what polling and
    -- dropping a wrapped stream leaves alone is left alone.
    pub poll-Takes {ℓ} :
        {B : Type ℓ} (view : W → B) (s : SwappableStream S) (w : W)
        → ((s : S) (w : W) → view (poll_inner s w).1 ≡ view w)
        → ((s : S) (w : W) → view (drop s w) ≡ view w)
        → Apart s.active_stream s.swap_to
        → (r : Poll (Option Item) E) × (s' : SwappableStream S) × (w' : W) × (poll poll_inner drop s
              w
            ≡ done (r, s', w'))
          × Takes r (pending s w) (pending s' w')
          × Apart s'.active_stream s'.swap_to
          × (view w' ≡ view w)
    poll-Takes view s w p d h =
        let out =
          settle (poll_inner s.active_stream w).0 s.active_stream s.swap_to
            (poll_inner s.active_stream w).1 in
        let t = settle-Takes s.active_stream s.swap_to w h in
        (
          out.0,
          out.1,
          out.2,
          poll-settle s w,
          t.0,
          t.1,
          settle-keeps view p d s.active_stream s.swap_to w,
        )

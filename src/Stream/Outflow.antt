-- ===== src/Stream/Outflow.antt =====
-- src/stream.rs: over any sequence of requests for data, a stream is a queue of bytes.
use picoquic_rs.Base.{
  ℕ, ◌≤◌, ◌<◌, ◌≡◌, refl, sym, ap, subst, ◌∙◌, ◌⊎◌, inl, inr, true, List, [], ◌∷◌, ◌++◌, Option,
  none, some, is_some, ok, not_ready, Exec, done, ◌>>=◌, arith, length, take, drop, concat, sum,
  append_assoc, append-nil, append-take, Option-cases, take-add, drop-add,
}
use picoquic_rs.Errors.{Bytes}
use picoquic_rs.World
use picoquic_rs.World.{World, Call}
use picoquic_rs.Swappable.{SwappableStream}
use picoquic_rs.Swappable.Laws.{IsQueue}
use picoquic_rs.Stream.Types.{Context, Ext, Receiver}
use picoquic_rs.Stream.SendData.{handle_send_data, poll_receiver, drop_receiver}
use picoquic_rs.Stream.Copying.{bytes_of}
use picoquic_rs.Stream.Collects.{TwoChannels, MovedTo, Waits, to_come}
use picoquic_rs.Stream.Sending.{Provides, handle_send_data-Sent}

-- The bytes that were written for picoquic, by its calls, the newest first.
abbrev pub outflow : List Call → Bytes
outflow [] = []
outflow (World.write_buffer p b ∷ cs) = outflow cs ++ b
outflow (_ ∷ cs) = outflow cs

module _ {Sys : Type 0} (ext : Ext Sys) where
  -- picoquic asks for data again and again, each time for at most so many bytes.
  unfoldable pub requests : ℕ → ℕ → List ℕ → Context → World Sys → Exec (Context × World Sys)
  requests fuel place [] ctx w = done (ctx, w)
  requests fuel place (n ∷ ns) ctx w =
      handle_send_data ext fuel place n ctx w >>= λ (ctx', w'). requests fuel place ns ctx' w'

  -- A channel that lost its sender never waits for more.
  abbrev pub IsEnding : Receiver → Type 0
  IsEnding r = (w : World Sys) → (poll_receiver ext r w).0 ≡ ok not_ready → ⊥

  abbrev FlowsFrom : Receiver → Option Receiver → Type 0
  FlowsFrom a none = Unit
  FlowsFrom a (some t) = IsEnding a

  -- If a second channel waits, then the sender of the first is gone.
  abbrev pub Flows : Option (SwappableStream Receiver) → Type 0
  Flows none = Unit
  Flows (some s) = FlowsFrom s.active_stream s.swap_to

  module _ {queue : Receiver → World Sys → List Bytes}
      (q : IsQueue (poll_receiver ext) (drop_receiver ext) (λ r. r.receiver) queue) where
    -- A channel is not ready only when it is empty.
    abbrev pub IsPrompt : Type 0
    IsPrompt =
        (r : Receiver) (w : World Sys) → (poll_receiver ext r w).0 ≡ ok not_ready → queue r w ≡ []

    -- The bytes of a stream that picoquic has not got yet, in order.
    abbrev pub unsent : Context → World Sys → Bytes
    unsent ctx w = bytes_of ctx.active_buffer ++ concat (to_come ext q ctx.send_data w)

    MovedTo-Flows :
        (s s' : Option (SwappableStream Receiver)) → MovedTo ext q s s' → Flows s → Flows s'
    MovedTo-Flows none s' e f = rw e tt
    MovedTo-Flows (some s) s' (t, e, inl same) f =
        subst Flows (sym e) (subst (λ x. Flows (some x)) (sym same) f)
    MovedTo-Flows (some s) s' (t, e, inr (u, was, new)) f =
        subst Flows (sym e) (subst (λ x. Flows (some x)) (sym new) tt)

    Waits-over :
        (a : Receiver) (swap : Option Receiver) (w : World Sys)
        → let s : Option (SwappableStream Receiver) =
            some (record { active_stream = a; swap_to = swap }) in
          IsPrompt → Flows s → Waits ext q s w → to_come ext q s w ≡ []
    Waits-over a none w p f (v, waits, same) = append-nil (queue a w) ∙ same ∙ p a v waits
    Waits-over a (some t) w p f (v, waits, same) = absurd (f v waits)

    to_come-over :
        (s : Option (SwappableStream Receiver)) (w : World Sys)
        → IsPrompt
        → Flows s
        → (to_come ext q s w ≡ []) ⊎ Waits ext q s w
        → to_come ext q s w ≡ []
    to_come-over s w p f (inl over) = over
    to_come-over none w p f (inr waits) = refl
    to_come-over (some s) w p f (inr waits) = Waits-over s.active_stream s.swap_to w p f waits

    -- What a request leaves behind where it wrote less than it was asked for.
    rest-none :
        (n : ℕ) (written : Bytes) (ctx : Context) (w : World Sys)
        → IsPrompt
        → Flows ctx.send_data
        → (is_some ctx.active_buffer ≡ true → length written ≡ n)
        → (length written ≡ n) ⊎ (to_come ext q ctx.send_data w ≡ []) ⊎ Waits ext q ctx.send_data w
        → (length written ≡ n) ⊎ (unsent ctx w ≡ [])
    rest-none n written ctx w p f k (inl full) = inl full
    rest-none n written ctx w p f k (inr c) = elim (Option-cases ctx.active_buffer) [
      | inl empty ↦ inr (rw (empty, to_come-over ctx.send_data w p f c) refl)
      | inr (b, kept) ↦ inl (k (rw kept refl))
    ]

    -- A request for at most `n` bytes takes the first `n` ones.
    request-takes :
        (fuel place n : ℕ) (ctx : Context) (w : World Sys)
        → Provides ext q
        → IsPrompt
        → length (to_come ext q ctx.send_data w) < fuel
        → TwoChannels ext q ctx.send_data
        → Flows ctx.send_data
        → (ctx' : Context) × (w' : World Sys) × (handle_send_data ext fuel place n ctx w
            ≡ done (ctx', w'))
          × (outflow w'.calls ≡ outflow w.calls ++ take n (unsent ctx w))
          × (unsent ctx' w' ≡ drop n (unsent ctx w))
          × (length (to_come ext q ctx'.send_data w') ≤ length (to_come ext q ctx.send_data w))
          × TwoChannels ext q ctx'.send_data
          × Flows ctx'.send_data
    request-takes fuel place n ctx w pq p h t f =
        let (ctx', w', place', written, fin, still, run, s) =
          handle_send_data-Sent ext q fuel place n ctx w pq h t in
        let f' = MovedTo-Flows ctx.send_data ctx'.send_data s.moved f in
        let (front, back) =
          append-take n written (unsent ctx' w') (unsent ctx w) s.conserves s.bounded
            (rest-none n written ctx' w' p f' s.keeps s.stops) in
        (
          ctx',
          w',
          run,
          ap outflow s.calls ∙ ap (λ b. outflow w.calls ++ b) front,
          back,
          s.fewer,
          s.apart,
          f',
        )

    -- Where the channels of bytes are queues that are not ready only when they are empty, a second
    -- channel waits only if it is another one than the first and the sender of the first is gone,
    -- picoquic gives places for the data and leaves the channels alone, and the fuel for each request
    -- exceeds the buffers that wait: any sequence of requests returns. Together they write the first
    -- bytes that were unsent, in order, as many as the requests allow together, over a swap of the
    -- channels too; the others stay unsent. So every byte is written as soon as the requests allow as
    -- many bytes as there are.
    pub requests-take :
        (fuel place : ℕ) (ns : List ℕ) (ctx : Context) (w : World Sys)
        → Provides ext q
        → IsPrompt
        → length (to_come ext q ctx.send_data w) < fuel
        → TwoChannels ext q ctx.send_data
        → Flows ctx.send_data
        → (ctx' : Context) × (w' : World Sys) × (requests fuel place ns ctx w ≡ done (ctx', w'))
          × (outflow w'.calls ≡ outflow w.calls ++ take (sum ns) (unsent ctx w))
          × (unsent ctx' w' ≡ drop (sum ns) (unsent ctx w))
    unfolding requests
    requests-take fuel place [] ctx w pq p h t f =
        (ctx, w, refl, sym (append-nil (outflow w.calls)), refl)
    requests-take fuel place (n ∷ ns) ctx w pq p h t f =
        let (ctx₁, w₁, first, out, left, fewer, t₁, f₁) =
          request-takes fuel place n ctx w pq p h t f in
        let (ctx', w', run, out', left') =
          requests-take fuel place ns ctx₁ w₁ pq p (omega (arith, fewer)) t₁ f₁ in
        (
          ctx',
          w',
          rw (first, requests) run,
          out'
              ∙ rw (out, left, take-add n (sum ns) (unsent ctx w))
                  (append_assoc (outflow w.calls) (take n (unsent ctx w))
                    (take (sum ns) (drop n (unsent ctx w)))),
          left' ∙ ap (drop (sum ns)) left ∙ sym (drop-add n (sum ns) (unsent ctx w)),
        )

-- ===== src/Connection/Returns.antt =====
-- src/connection.rs: a poll of a connection returns.
use picoquic_rs.Base.{
  ℕ, ◌+◌, ◌^◌, ◌<◌, ◌≤◌, ◌≡◌, refl, sym, subst, ◌∙◌, arith, inl, inr, Bool, false, List, [], ◌∷◌,
  ok, err, ready, not_ready, Async, Poll, Bool-cases, done, Post, Exec, ◌>>=◌, if◌then◌else◌,
}
use picoquic_rs.World
use picoquic_rs.World.{World}
use picoquic_rs.Stream.Types.{Message}
use picoquic_rs.Stream.Receive.{handle_connection_close}
use picoquic_rs.Stream.Frame.{handle_connection_close-keeps}
use picoquic_rs.Connection.Types.{Context, Ext, Streams}
use picoquic_rs.Connection.Types as Types
use picoquic_rs.Connection.Context.{each, close, close_if_asked, poll, poll_open}
use picoquic_rs.Connection.Fresh.{OwnBelow, check_create_stream_requests-fresh}
use picoquic_rs.Connection.Waiting.{
  Waiting, Channels, channels, All, All-map, Fine-Less, Good, Good-Less, Less, Less-trans,
}
use picoquic_rs.Connection.Retained.{Fits, retain_streams-Retained}
use picoquic_rs.Connection.Answering.{Asked, asked-Drains, check_create_stream_requests-Asked}
use picoquic_rs.Connection.Seen.{each-keeps}
use picoquic_rs.Connection.Telling.{each-Tells, handle_connection_close-Tells}

module _ {Sys : Type 0} (ext : Ext Sys) (k : Waiting ext) where
  -- Closing the connection takes nothing from what waits, and keeps the streams' channels and ids.
  pub close-Less :
      (ctx : Context) (w : World Sys)
      → let (ctx', w') = close ext ctx w in
        (channels ctx'.streams ≡ channels ctx.streams)
        × ((i : ℕ → Bool)
            → All (λ c. i c.0 ≡ false) (channels ctx.streams)
            → Less ext k i w.sys w'.sys)
        × (OwnBelow ctx → OwnBelow ctx')
  unfolding close
  close-Less ctx w =
      let call = World.close_cnx ctx.cnx 0 in
      let s₁ = ext.streams.call call w.sys in
      let w₁ = record w { sys = s₁; calls = call ∷ w.calls } in
      let (m', w₂) = each ext (handle_connection_close ext.streams) ctx.streams w₁ in
      let (same, less, own) =
        each-Tells ext k (handle_connection_close ext.streams) ctx.streams w₁
          (handle_connection_close-Tells ext k) in
      let s₃ = (ext.msgs.unbounded_send ctx.send_msg Types.close w₂.sys).1 in
      (
        same,
        λ i o.
            Less-trans ext k i w.sys s₁ s₃
              (
                omega (arith, k.next_rest.ends.calls call w.sys),
                λ d h. inl ((k.rest d).ends.calls call w.sys),
              )
              (Less-trans ext k i s₁ w₂.sys s₃ (less i o) (
                omega (arith, k.next_rest.tells ctx.send_msg Types.close w₂.sys),
                λ d h. inl ((k.rest d).tells ctx.send_msg Types.close w₂.sys),
              )),
        own ctx.is_client ctx.next_stream_id,
      )

  close-asked : (ctx : Context) (w : World Sys) → k.asked (close ext ctx w).1.sys ≡ k.asked w.sys
  unfolding close
  close-asked ctx w =
      let call = World.close_cnx ctx.cnx 0 in
      let s₁ = ext.streams.call call w.sys in
      let w₁ = record w { sys = s₁; calls = call ∷ w.calls } in
      let f = handle_connection_close ext.streams in
      k.rest_asked.tells ctx.send_msg Types.close (each ext f ctx.streams w₁).1.sys
      ∙ each-keeps ext k.asked f (handle_connection_close-keeps ext.streams k.asked k.apart)
          ctx.streams w₁
      ∙ k.rest_asked.ends.calls call w.sys

  -- What closing keeps of what is good.
  pub close-Good :
      (Q : List Message → Type 0) (q : Q []) (others : List Channels) (ctx : Context)
      (w : World Sys)
      → Good ext k Q (channels ctx.streams) others w.sys
      → let (ctx', w') = close ext ctx w in Good ext k Q (channels ctx'.streams) others w'.sys
  close-Good Q q others ctx w g =
      let (ctx', w') = close ext ctx w in
      let (same, less, own) = close-Less ctx w in
      subst (λ l. Good ext k Q l others w'.sys) (sym same)
        (Good-Less ext k Q q (channels ctx.streams) others w.sys w'.sys g
          (less g.is_control (All-map _ _ (channels ctx.streams) (λ c f. f.0) g.mine)))

  module _ (fuel : ℕ) (p : 0 < fuel) (others : List Channels) where
    -- What is good for a poll: what waits for the streams is less than the fuel.
    abbrev pub Able : Context → World Sys → Type 0
    Able ctx w = Good ext k (Fits fuel) (channels ctx.streams) others w.sys

    -- What a poll of the connection ends with.
    abbrev pub Settled : Context → World Sys → Context → World Sys → Type 0
    Settled ctx w ctx' w' =
        Able ctx' w'
        × OwnBelow ctx'
        × (k.asked w'.sys ≤ k.asked w.sys)
        × (ctx'.next_stream_id + k.asked w'.sys ≤ ctx.next_stream_id + k.asked w.sys)
        × (ctx'.cnx ≡ ctx.cnx)

    close-next :
        (ctx : Context) (w : World Sys)
        → ((close ext ctx w).0.next_stream_id ≡ ctx.next_stream_id)
          × ((close ext ctx w).0.cnx ≡ ctx.cnx)
    unfolding close
    close-next ctx w = (refl, refl)

    close_if_asked-Settled :
        (r : Poll (Unit {0}) (Unit {0})) (ctx : Context) (w : World Sys)
        → Able ctx w
        → OwnBelow ctx
        → let (ctx', w') = close_if_asked ext r ctx w in Settled ctx w ctx' w'
    close_if_asked-Settled (ok (ready _)) ctx w g o =
        let count = close-asked ctx w in
        let (next, cnx) = close-next ctx w in
        (
          close-Good (Fits fuel) (tt, p) others ctx w g,
          (close-Less ctx w).2 o,
          omega (arith, count),
          omega (arith, count, next),
          cnx,
        )
    close_if_asked-Settled (ok not_ready) ctx w g o = (g, o, omega arith, omega arith, refl)
    close_if_asked-Settled (err _) ctx w g o = (g, o, omega arith, omega arith, refl)

    poll_open-Settled :
        (ctx : Context) (w : World Sys)
        → Able ctx w
        → k.asked w.sys < fuel
        → ctx.next_stream_id + k.asked w.sys + 1 < 2 ^ 62
        → OwnBelow ctx
        → (ctx' : Context) × (w' : World Sys) × (poll_open ext fuel ctx w ≡ done (ctx', w'))
          × Settled ctx w ctx' w'
    unfolding poll_open
    poll_open-Settled ctx w g f n o =
        let i = g.is_control in
        let r = retain_streams-Retained ext k fuel p i ctx.streams w g.mine in
        let ctx₁ : Context = record ctx { streams = r.kept } in
        let g₁ : Able ctx₁ r.after = record {
          is_control = i;
          below = λ d h. omega (arith, g.below d h, r.less.0);
          mine = r.mine;
          theirs =
              All-map _ _ others
                (λ c. Fine-Less ext k (Fits fuel) (tt, p) i w.sys r.after.sys c r.less) g.theirs;
        } in
        let (ctx₂, w₂, run, own, up) =
          check_create_stream_requests-fresh ext (λ v. k.asked v.sys) fuel ctx₁ r.after
            (asked-Drains ext k) (omega (arith, r.same_asked)) (omega (arith, r.same_asked))
            (r.own ctx.is_client ctx.next_stream_id o) in
        let (g₂, fewer, bound, cnx, side) =
          subst (λ m. Post (Asked ext k (Fits fuel) (tt, p) others ctx₁ r.after) m) run
            (check_create_stream_requests-Asked ext k (Fits fuel) (tt, p) others fuel ctx₁ r.after
              g₁) in
        let (a, s) = ext.poll_close ctx₂.close_recv w₂.sys in
        let w₃ : World Sys = record w₂ { sys = s } in
        let level = k.rest_asked.polls_close ctx₂.close_recv w₂.sys in
        let g₃ : Able ctx₂ w₃ =
          Good-Less ext k (Fits fuel) (tt, p) (channels ctx₂.streams) others w₂.sys s g₂
            (
              omega (arith, k.next_rest.polls_close ctx₂.close_recv w₂.sys),
              λ d h. inl ((k.rest d).polls_close ctx₂.close_recv w₂.sys),
            ) in
        let (ctx', w') = close_if_asked ext a ctx₂ w₃ in
        let (g', own', fewer', bound', cnx') = close_if_asked-Settled a ctx₂ w₃ g₃ own in
        (
          ctx',
          w',
          rw (poll_open, r.returns, run) refl,
          (
            g',
            own',
            omega (arith, fewer', level, fewer, r.same_asked),
            omega (arith, bound', level, bound, r.same_asked),
            cnx' ∙ cnx,
          ),
        )

    open_run :
        (closed : Bool) (ctx ctx' : Context) (w w' : World Sys) (m : Exec (Context × World Sys))
        → closed ≡ false
        → m ≡ done (ctx', w')
        → if◌then◌else◌ {A = Exec (Async (Unit {0}) × Context × World Sys)} closed
            (done (ready tt, ctx, w))
            (m >>= λ (c, v). done (not_ready, c, v))
          ≡ done (if closed then ready tt else not_ready, ctx', w')
    open_run closed ctx ctx' w w' m e f = rw (e, f) refl

    pub poll-Settled :
        (ctx : Context) (w : World Sys)
        → Able ctx w
        → k.asked w.sys < fuel
        → ctx.next_stream_id + k.asked w.sys + 1 < 2 ^ 62
        → OwnBelow ctx
        → (ctx' : Context) × (w' : World Sys) × (poll ext fuel ctx w
            ≡ done (if ctx.closed then ready tt else not_ready, ctx', w'))
          × Settled ctx w ctx' w'
    unfolding poll
    poll-Settled ctx w g f n o = elim (Bool-cases ctx.closed) [
      | inl over ↦ (ctx, w, rw (over, poll) refl, (g, o, omega arith, omega arith, refl))
      | inr open_still ↦
          let (ctx', w', run, settled) = poll_open-Settled ctx w g f n o in
          (
            ctx',
            w',
            open_run ctx.closed ctx ctx' w w' (poll_open ext fuel ctx w) open_still run,
            settled,
          )
    ]

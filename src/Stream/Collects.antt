-- ===== src/Stream/Collects.antt =====
-- src/stream.rs: what collecting the buffers for a request for data comes to, for channels of bytes
-- that are queues.
use picoquic_rs.Base.{
  ℕ, zero, suc, ◌+◌, ◌≤◌, ◌<◌, ◌≡◌, refl, sym, ap, subst, ◌∙◌, inl, inr, true, false, List, [], ◌∷◌,
  ◌++◌, Option, none, some, done, arith, length, concat, append_assoc, append-nil, length-append,
  leb, leb→le, ok, not_ready, ◌⊎◌, Bool-cases,
}
use picoquic_rs.Errors.{Bytes}
use picoquic_rs.World.{World}
use picoquic_rs.Channel
use picoquic_rs.Swappable.{SwappableStream}
use picoquic_rs.Swappable.Laws.{
  IsQueue, pending, Apart, Moved, Moved-trans, Stalled, poll-Moved, poll-Takes,
}
use picoquic_rs.Stream.Types.{Context, Ext, Receiver}
use picoquic_rs.Stream.SendData.{
  Collected, collect_loop, collect_buffers_to_send, start, poll_receiver, drop_receiver,
}
use picoquic_rs.Stream.Copying.{Fits, Fits-snoc, bytes_of}

concat-snoc : (bufs : List Bytes) (b : Bytes) → concat (bufs ++ b ∷ []) ≡ concat bufs ++ b
concat-snoc [] b = append-nil b
concat-snoc (c ∷ bufs) b = rw (concat-snoc bufs b) (sym (append_assoc c (concat bufs) b))

start_lem :
    (max_length : ℕ) (o : Option Bytes)
    → ((start o).1 ≡ length (concat (start o).0))
      × Fits max_length (start o).0
      × (concat (start o).0 ≡ bytes_of o)
start_lem max none = (refl, tt, refl)
start_lem max (some b) = (ap length (sym (append-nil b)), tt, append-nil b)

leb-false→lt : (a b : ℕ) → leb a b ≡ false → b < a
leb-false→lt a b h = ground arith

module _ {Sys : Type 0} (ext : Ext Sys) {queue : Receiver → World Sys → List Bytes}
    (q : IsQueue (poll_receiver ext) (drop_receiver ext) (λ r. r.receiver) queue) where
  -- What is still to come from the application, in order.
  abbrev pub to_come : Option (SwappableStream Receiver) → World Sys → List Bytes
  to_come none w = []
  to_come (some s) w = pending (poll_receiver ext) (drop_receiver ext) q s w

  abbrev pub TwoChannels : Option (SwappableStream Receiver) → Type 0
  TwoChannels none = Unit
  TwoChannels (some s) = Apart (poll_receiver ext) (drop_receiver ext) q s.active_stream s.swap_to

  -- After a request the channels are the same, or the second has taken the place of the first.
  abbrev pub MovedTo :
      Option (SwappableStream Receiver) → Option (SwappableStream Receiver) → Type 0
  MovedTo none s' = s' ≡ none
  MovedTo (some s) s' =
      (t : SwappableStream Receiver) × (s' ≡ some t)
      × Moved (poll_receiver ext) (drop_receiver ext) s t

  -- The active channel was not ready when it was polled, and has not changed since.
  abbrev pub Waits : Option (SwappableStream Receiver) → World Sys → Type 0
  Waits none w = ⊥
  Waits (some s) w =
      (v : World Sys) × ((poll_receiver ext s.active_stream v).0 ≡ ok not_ready)
      × (queue s.active_stream w ≡ queue s.active_stream v)

  Stalled-Waits :
      (s : SwappableStream Receiver) (w : World Sys)
      → Stalled (poll_receiver ext) (drop_receiver ext) s w
      → Waits (some s) w
  Stalled-Waits s w (v, waits, after) = elim (q.takes s.active_stream v) [
    | inl (a, got, e) ↦ cc (got, waits)
    | inr (inl (got, same)) ↦ (v, waits, ap (queue s.active_stream) after ∙ sym same)
    | inr (inr (got, e, f)) ↦ cc (got, waits)
  ]

  -- What the loop has collected, from `bufs` and `s` at the start.
  pub record Collects (max_length : ℕ) (begun : Bytes) (s : Option (SwappableStream Receiver))
      (w : World Sys) (c : Collected) (s' : Option (SwappableStream Receiver)) (w' : World Sys)
      : Type 0 where
    pub counts : c.size ≡ length (concat c.buffers)
    pub fits : Fits max_length c.buffers
    pub conserves : concat c.buffers ++ concat (to_come s' w') ≡ begun ++ concat (to_come s w)
    pub ends : c.fin ≡ true → (c.size ≤ max_length) × (to_come s' w' ≡ [])
    pub apart : TwoChannels s'
    pub calls : w'.calls ≡ w.calls
    pub fewer : length (to_come s' w') ≤ length (to_come s w)
    pub moved : MovedTo s s'
    pub stops : (max_length < c.size) ⊎ (to_come s' w' ≡ []) ⊎ Waits s' w'

  collect_loop-Collects :
      (fuel max_length : ℕ) (bufs : List Bytes) (size : ℕ) (s : Option (SwappableStream Receiver))
      (w : World Sys)
      → length (to_come s w) < fuel
      → TwoChannels s
      → size ≡ length (concat bufs)
      → Fits max_length bufs
      → (c : Collected) × (s' : Option (SwappableStream Receiver)) × (w' : World Sys)
        × (collect_loop ext fuel max_length bufs size s w ≡ done (c, s', w'))
        × Collects max_length (concat bufs) s w c s' w'
  unfolding collect_loop Channel.poll
  collect_loop-Collects zero max bufs size s w h t e f = elim h [ ]
  collect_loop-Collects (suc fuel) max bufs size none w h t e f = elim (Bool-cases (leb size max)) [
    | inl more ↦ (
      record { buffers = bufs; size = size; fin = true },
      none,
      w,
      rw (more, collect_loop),
      record {
        counts = e;
        fits = f;
        conserves = refl;
        ends = λ _. (leb→le _ _ more, refl);
        apart = tt;
        calls = refl;
        fewer = omega arith;
        moved = refl;
        stops = inr (inl refl);
      },
    )
    | inr full ↦ (
      record { buffers = bufs; size = size; fin = false },
      none,
      w,
      rw (full, collect_loop),
      record {
        counts = e;
        fits = f;
        conserves = refl;
        ends = λ p. cc;
        apart = tt;
        calls = refl;
        fewer = omega arith;
        moved = refl;
        stops = inl (leb-false→lt size max full);
      },
    )
  ]
  collect_loop-Collects (suc fuel) max bufs size (some recv) w h t e f =
      elim (Bool-cases (leb size max)) [
        | inr full ↦ (
          record { buffers = bufs; size = size; fin = false },
          some recv,
          w,
          rw (full, collect_loop),
          record {
            counts = e;
            fits = f;
            conserves = refl;
            ends = λ p. cc;
            apart = t;
            calls = refl;
            fewer = omega arith;
            moved = (recv, refl, inl refl);
            stops = inl (leb-false→lt size max full);
          },
        )
        | inl more ↦
            let (r, recv', w', eq, takes, apart, calls) =
              poll-Takes (poll_receiver ext) (drop_receiver ext) q (λ (w : World Sys). w.calls) recv
                w (λ r v. refl) (λ r v. refl) t in
            let (moved, stalled) =
              poll-Moved (poll_receiver ext) (drop_receiver ext) recv recv' w w' r eq in
            elim takes [
              | inl (buf, got, rest) ↦
                  let (c, s', w'', run, done_so) =
                    collect_loop-Collects fuel max (bufs ++ buf ∷ []) (size + length buf)
                      (some recv') w' (omega (arith, ap length rest)) apart
                      (rw (concat-snoc bufs buf) (omega (arith, length-append (concat bufs) buf)))
                      (Fits-snoc max bufs buf (omega (arith, leb→le _ _ more))) in
                  (
                    c,
                    s',
                    w'',
                    rw (more, collect_loop, eq, got) run,
                    record {
                      counts = done_so.counts;
                      fits = done_so.fits;
                      conserves =
                          done_so.conserves
                          ∙ rw (concat-snoc bufs buf, rest)
                              (append_assoc (concat bufs) buf (concat (to_come (some recv') w')));
                      ends = done_so.ends;
                      apart = done_so.apart;
                      calls = done_so.calls ∙ calls;
                      fewer = omega (arith, done_so.fewer, ap length rest);
                      moved =
                          let (t', same, on) = done_so.moved in
                          (
                            t',
                            same,
                            Moved-trans (poll_receiver ext) (drop_receiver ext) recv recv' t' moved
                                on,
                          );
                      stops = done_so.stops;
                    },
                  )
              | inr (inl (waits, same)) ↦ (
                record { buffers = bufs; size = size; fin = false },
                some recv',
                w',
                rw (more, collect_loop, eq, waits),
                record {
                  counts = e;
                  fits = f;
                  conserves = rw same;
                  ends = λ p. cc;
                  apart = apart;
                  calls = calls;
                  fewer = omega (arith, ap length same);
                  moved = (recv', refl, moved);
                  stops = inr (inr (Stalled-Waits recv' w' (stalled waits)));
                },
              )
              | inr (inr (over, was, is)) ↦ (
                record { buffers = bufs; size = size; fin = true },
                some recv',
                w',
                rw (more, collect_loop, eq, over),
                record {
                  counts = e;
                  fits = f;
                  conserves = rw (was, is);
                  ends = λ _. (leb→le _ _ more, is);
                  apart = apart;
                  calls = calls;
                  fewer = omega (arith, ap length was, ap length is);
                  moved = (recv', refl, moved);
                  stops = inr (inl is);
                },
              )
            ]
      ]

  pub to_come-quiet :
      (s : Option (SwappableStream Receiver)) (v v' : World Sys)
      → ((r : Receiver) → queue r v' ≡ queue r v)
      → to_come s v' ≡ to_come s v
  to_come-quiet none v v' h = refl
  to_come-quiet (some s) v v' h = quiet s.active_stream s.swap_to
    where
      quiet :
          (a : Receiver) (o : Option Receiver)
          → to_come (some (record { active_stream = a; swap_to = o })) v'
            ≡ to_come (some (record { active_stream = a; swap_to = o })) v
      quiet a none = rw (h a)
      quiet a (some t) = rw (h a, h t)

  pub waits-quiet :
      (s : Option (SwappableStream Receiver)) (v v' : World Sys)
      → ((r : Receiver) → queue r v' ≡ queue r v)
      → Waits s v
      → Waits s v'
  waits-quiet none v v' h x = elim x [ ]
  waits-quiet (some s) v v' h (u, waits, same) = (u, waits, h s.active_stream ∙ same)

  pub collect-Collects :
      (fuel max_length : ℕ) (ctx : Context) (w : World Sys)
      → length (to_come ctx.send_data w) < fuel
      → TwoChannels ctx.send_data
      → (c : Collected) × (s' : Option (SwappableStream Receiver)) × (w' : World Sys)
        × (collect_buffers_to_send ext fuel max_length ctx w
            ≡ done (c, record ctx { active_buffer = none; send_data = s' }, w'))
        × Collects max_length (bytes_of ctx.active_buffer) ctx.send_data w c s' w'
  unfolding collect_buffers_to_send
  collect-Collects fuel max ctx w h t =
      let (e, f, b) = start_lem max ctx.active_buffer in
      let (c, s', w', run, done_so) =
        collect_loop-Collects fuel max (start ctx.active_buffer).0 (start ctx.active_buffer).1
          ctx.send_data w h t e f in
      (c, s', w', rw run, subst (λ x. Collects max x ctx.send_data w c s' w') b done_so)

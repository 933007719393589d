-- ===== src/Stream/Sending.antt =====
-- src/stream.rs: `handle_send_data` sends the bytes of the stream in order and loses none, for a
-- channel of bytes that is a queue.
use picoquic_rs.Base.{
  ℕ, ◌≤◌, ◌<◌, ◌≡◌, refl, sym, ap, ◌∙◌, inl, inr, min, Bool, true, false, List, [], ◌∷◌, ◌++◌, none,
  some, done, arith, length, take, drop, concat, append_assoc, length-take, take-append-drop,
  ltb→lt, ◌⊎◌, ◌&&◌, ◌||◌, not, ltb, is_some,
}
use picoquic_rs.Errors.{Bytes}
use picoquic_rs.World
use picoquic_rs.World.{World}
use picoquic_rs.Swappable.Laws.{IsQueue}
use picoquic_rs.Stream.Types.{Context, Ext, Receiver}
use picoquic_rs.Stream.SendData.{handle_send_data, request, poll_receiver, drop_receiver}
use picoquic_rs.Stream.Copying.{
  left_over, copy_buffers_lem, bytes_of, bytes_of-left_over, is_some-left_over, left_over-none,
  Fits-min,
}
use picoquic_rs.Stream.Collects.{
  TwoChannels, MovedTo, Waits, to_come, collect-Collects, to_come-quiet, waits-quiet,
}

still_lem :
    (max_length size n : ℕ) (fin : Bool)
    → (fin ≡ true → size ≤ max_length)
    → size ≡ n
    → (ltb max_length size && not fin) ≡ ltb (min max_length size) n
still_lem max size n true h e = let le = h refl in ground arith
still_lem max size n false h e = ground arith

module _ {Sys : Type 0} (ext : Ext Sys) {queue : Receiver → World Sys → List Bytes}
    (q : IsQueue (poll_receiver ext) (drop_receiver ext) (λ r. r.receiver) queue) where
  -- What picoquic is relied on for: it gives a place for the data, and the calls of it leave the
  -- channels of bytes alone.
  pub record Provides : Type 0 where
    pub dest :
        (place n : ℕ) (fin still : Bool) (v : World Sys)
        → (p : ℕ) × ((request ext place n fin still v).0 ≡ some p)
    pub request_quiet :
        (r : Receiver) (place n : ℕ) (fin still : Bool) (v : World Sys)
        → queue r (request ext place n fin still v).1 ≡ queue r v
    pub call_quiet :
        (r : Receiver) (c : World.Call) (v : World Sys)
        → queue r (World.perform ext.call c v) ≡ queue r v

  -- What a request for data did: `written` went to the buffer at `p`, under the flags `fin` and
  -- `still`.
  pub record Sent (place max_length : ℕ) (ctx : Context) (w : World Sys) (ctx' : Context)
      (w' : World Sys) (p : ℕ) (written : Bytes) (fin still : Bool) : Type 0 where
    pub calls :
        w'.calls
        ≡ World.write_buffer p written
          ∷ World.provide_stream_data_buffer place (length written) fin still
          ∷ w.calls
    pub conserves :
        written ++ (bytes_of ctx'.active_buffer ++ concat (to_come ext q ctx'.send_data w'))
        ≡ bytes_of ctx.active_buffer ++ concat (to_come ext q ctx.send_data w)
    pub bounded : length written ≤ max_length
    pub keeps : is_some ctx'.active_buffer ≡ true → length written ≡ max_length
    pub still_active : still ≡ is_some ctx'.active_buffer
    pub ends : fin ≡ true → (ctx'.active_buffer ≡ none) × (to_come ext q ctx'.send_data w' ≡ [])
    pub flag : ctx'.stop_sending_or_fin_sent ≡ fin
    pub apart : TwoChannels ext q ctx'.send_data
    pub fewer : length (to_come ext q ctx'.send_data w') ≤ length (to_come ext q ctx.send_data w)
    pub moved : MovedTo ext q ctx.send_data ctx'.send_data
    pub stops :
        (length written ≡ max_length)
        ⊎ (to_come ext q ctx'.send_data w' ≡ [])
        ⊎ Waits ext q ctx'.send_data w'

  -- `fuel` is the number of rounds that the collecting loop may take. Where the channels of bytes are
  -- queues that picoquic leaves alone, a second channel of the stream is another one than the first,
  -- and picoquic gives a place for the data, a request for data with fuel for more rounds than there
  -- are buffers in the channels returns, and does not panic. It announces as many bytes as it
  -- writes, at most what was asked for. The bytes written, then the new active buffer, then what is
  -- still in the channels are the old active buffer and then what was in the channels. A new active
  -- buffer is kept only if all that was asked for was written, and exactly if the stream is
  -- announced as still active; and where the end of the stream is announced, no byte is left. The
  -- context's flag is what was announced of the end. Less than was asked for is written only where
  -- nothing is left in the channels or the active one was not ready. The channels stay, or the second
  -- takes the place of the first.
  pub handle_send_data-Sent :
      (fuel place max_length : ℕ) (ctx : Context) (w : World Sys)
      → Provides
      → length (to_come ext q ctx.send_data w) < fuel
      → TwoChannels ext q ctx.send_data
      → (ctx' : Context) × (w' : World Sys) × (p : ℕ) × (written : Bytes) × (fin still : Bool)
        × (handle_send_data ext fuel place max_length ctx w ≡ done (ctx', w'))
        × Sent place max_length ctx w ctx' w' p written fin still
  unfolding handle_send_data
  handle_send_data-Sent fuel place max ctx w pq h t =
      let (c, s', w₁, run, cl) = collect-Collects ext q fuel max ctx w h t in
      let size = min max c.size in
      let still = ltb max c.size && not c.fin in
      let (p, given) = pq.dest place size c.fin still w₁ in
      let written = take size (concat c.buffers) in
      let total = length-take size (concat c.buffers) in
      let long : length written ≡ size = omega (arith, total, cl.counts) in
      let active = left_over (drop size (concat c.buffers)) in
      let w₂ = (request ext place size c.fin still w₁).1 in
      let w₃ = World.perform ext.call (World.write_buffer p written) w₂ in
      let unchanged : (r : Receiver) → queue r w₃ ≡ queue r w₁ = λ r.
        pq.call_quiet r (World.write_buffer p written) w₂
        ∙ pq.request_quiet r place size c.fin still w₁ in
      let untouched = to_come-quiet ext q s' w₁ w₃ unchanged in
      (
        record ctx {
          data_send = ctx.data_send || ltb 0 c.size;
          stop_sending_or_fin_sent = c.fin;
          active_buffer = active;
          send_data = s';
        },
        w₃,
        p,
        written,
        c.fin,
        still,
        rw (
          run,
          given,
          copy_buffers_lem size size [] c.buffers (omega arith)
              (rw cl.counts (Fits-min max c.buffers cl.fits)),
        ),
        record {
          calls = rw long (
              ap
                (λ cs.
                  World.write_buffer p written
                  ∷ World.provide_stream_data_buffer place size c.fin still
                  ∷ cs)
                cl.calls);
          conserves =
              rw
                (
                  bytes_of-left_over (drop size (concat c.buffers)),
                  untouched,
                  ← append_assoc written (drop size (concat c.buffers))
                      (concat (to_come ext q s' w₁)),
                  take-append-drop size (concat c.buffers),
                )
                cl.conserves;
          bounded = omega (arith, total);
          keeps = λ e. omega (
            arith,
            total,
            cl.counts,
            ltb→lt _ _ (sym (is_some-left_over size (concat c.buffers)) ∙ e),
          );
          still_active =
              still_lem max c.size (length (concat c.buffers)) c.fin (λ e. (cl.ends e).0) cl.counts
              ∙ sym (is_some-left_over size (concat c.buffers));
          ends = λ e. (
            left_over-none size (concat c.buffers) (omega (arith, cl.counts, (cl.ends e).0)),
            untouched ∙ (cl.ends e).1,
          );
          flag = refl;
          apart = cl.apart;
          fewer = rw untouched cl.fewer;
          moved = cl.moved;
          stops = elim cl.stops [
            | inl more ↦ inl (omega (arith, long))
            | inr (inl over) ↦ inr (inl (untouched ∙ over))
            | inr (inr waits) ↦ inr (inr (waits-quiet ext q s' w₁ w₃ unchanged waits))
          ];
        },
      )

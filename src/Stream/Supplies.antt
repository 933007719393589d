-- ===== src/Stream/Supplies.antt =====
-- src/stream.rs: what a stream leaves alone while it collects and writes the data to send.
use picoquic_rs.Base.{
  ℕ, Bool, zero, suc, ◌+◌, ◌++◌, ◌≡◌, ◌∙◌, Option-cases, none, some, inl, inr, Option, List, ◌∷◌,
  [], Post, Post-always, Post-bind, Poll-cases, min, Bool-cases, length, leb, ltb, ◌&&◌, not,
}
use picoquic_rs.Errors.{Bytes}
use picoquic_rs.World
use picoquic_rs.World.{World}
use picoquic_rs.Channel
use picoquic_rs.Swappable
use picoquic_rs.Swappable.{SwappableStream, poll_loop}
use picoquic_rs.Stream.Types.{Context, Ext, Receiver}
use picoquic_rs.Stream.SendData.{
  collect_loop, collect_buffers_to_send, copy_buffers, handle_send_data, poll_receiver,
  drop_receiver, start,
}

module _ {Sys : Type 0} (ext : Ext Sys) {A : Type 0} (seen : Sys → A) where
  -- The operations that sending uses change nothing that is seen.
  pub record Supplies : Type 0 where
    pub poll_bytes : (c : ℕ) (s : Sys) → seen (ext.bytes_stream.poll c s).1 ≡ seen s
    pub drops_receiver : (c : ℕ) (s : Sys) → seen (ext.drop_receiver c s) ≡ seen s
    pub called : (c : World.Call) (s : Sys) → seen (ext.call c s) ≡ seen s
    pub provides :
        (p n : ℕ) (fin still : Bool) (s : Sys) → seen (ext.provide p n fin still s).1 ≡ seen s

module _ {Sys : Type 0} (ext : Ext Sys) {A : Type 0} (seen : Sys → A) (a : Supplies ext seen) where
  pub poll_receiver-keeps :
      (r : Receiver) (w : World Sys) → seen (poll_receiver ext r w).1.sys ≡ seen w.sys
  unfolding Channel.poll
  poll_receiver-keeps r w = a.poll_bytes r.receiver w.sys

  module _ (v : A) where
    poll_loop-keeps :
        (fuel : ℕ) (b : SwappableStream Receiver) (w : World Sys)
        → seen w.sys ≡ v
        → Post (λ x. seen x.2.sys ≡ v) (poll_loop (poll_receiver ext) (drop_receiver ext) fuel b w)
    unfolding poll_loop
    poll_loop-keeps zero b w h = tt
    poll_loop-keeps (suc fuel) b w h =
        let (r, w') = poll_receiver ext b.active_stream w in
        let same = poll_receiver-keeps b.active_stream w ∙ h in
        elim (Poll-cases r) [
          | inl (x, got) ↦ rw (got, poll_loop) same
          | inr (inl (e, got)) ↦ rw (got, poll_loop) same
          | inr (inr (inl got)) ↦ rw (got, poll_loop) same
          | inr (inr (inr got)) ↦ elim (Option-cases b.swap_to) [
            | inl n ↦ rw (got, n, poll_loop) same
            | inr (t, n) ↦
                rw (got, n, poll_loop)
                  (poll_loop-keeps fuel (Swappable.new t) (drop_receiver ext b.active_stream w')
                    (a.drops_receiver b.active_stream.receiver w'.sys ∙ same))
          ]
        ]

    pub swappable_poll-keeps :
        (b : SwappableStream Receiver) (w : World Sys)
        → seen w.sys ≡ v
        → Post (λ x. seen x.2.sys ≡ v) (Swappable.poll (poll_receiver ext) (drop_receiver ext) b w)
    unfolding Swappable.poll
    swappable_poll-keeps b w h = poll_loop-keeps 2 b w h

    collect_loop-keeps :
        (fuel max_length : ℕ) (bufs : List Bytes) (size : ℕ) (b : Option (SwappableStream Receiver))
        (w : World Sys)
        → seen w.sys ≡ v
        → Post (λ x. seen x.2.sys ≡ v) (collect_loop ext fuel max_length bufs size b w)
    unfolding collect_loop
    collect_loop-keeps zero max_length bufs size b w h = tt
    collect_loop-keeps (suc fuel) max_length bufs size b w h =
        elim (Bool-cases (leb size max_length)) [
          | inr off ↦ rw (off, collect_loop) h
          | inl on ↦ elim (Option-cases b) [
            | inl n ↦ rw (on, n, collect_loop) h
            | inr (s, n) ↦
                rw (on, n, collect_loop)
                  (Post-bind (λ x. seen x.2.sys ≡ v) _
                    (Swappable.poll (poll_receiver ext) (drop_receiver ext) s w) _
                    (swappable_poll-keeps s w h)
                    (λ x k. elim (Poll-cases x.0) [
                      | inl (buf, got) ↦ rw got (
                          collect_loop-keeps fuel max_length (bufs ++ buf ∷ []) (size + length buf)
                            (some x.1) x.2 k)
                      | inr (inl (e, got)) ↦ rw got tt
                      | inr (inr (inl got)) ↦ rw got k
                      | inr (inr (inr got)) ↦ rw got k
                    ]))
          ]
        ]

    pub handle_send_data-keeps :
        (fuel place max_length : ℕ) (ctx : Context) (w : World Sys)
        → seen w.sys ≡ v
        → Post (λ x. seen x.1.sys ≡ v) (handle_send_data ext fuel place max_length ctx w)
    unfolding handle_send_data collect_buffers_to_send
    handle_send_data-keeps fuel place max_length ctx w h =
        Post-bind (λ x. seen x.2.sys ≡ v) _ (collect_buffers_to_send ext fuel max_length ctx w) _
          (Post-bind (λ x. seen x.2.sys ≡ v) _
            (collect_loop ext fuel max_length (start ctx.active_buffer).0
              (start ctx.active_buffer).1 ctx.send_data w)
            _
            (collect_loop-keeps fuel max_length (start ctx.active_buffer).0
              (start ctx.active_buffer).1 ctx.send_data w h)
            (λ x k. k))
          (λ x k.
            let c = x.0 in
            let still_active = ltb max_length c.size && not c.fin in
            let size = min max_length c.size in
            let (dest, s) = ext.provide place size c.fin still_active x.2.sys in
            elim (Option-cases dest) [
              | inl n ↦ rw n tt
              | inr (p, n) ↦ rw n (
                  Post-bind (λ y. Unit {0}) (λ z. seen z.1.sys ≡ v)
                    (copy_buffers size [] none c.buffers) _
                    (Post-always (λ y. Unit {0}) (copy_buffers size [] none c.buffers) (λ y. tt))
                    (λ y t.
                      a.called (World.write_buffer p y.0) s
                      ∙ a.provides place size c.fin still_active x.2.sys
                      ∙ k))
            ])

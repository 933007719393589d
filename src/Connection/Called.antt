-- ===== src/Connection/Called.antt =====
-- src/connection.rs: what picoquic's callbacks for the streams of a connection keep of what waits.
use picoquic_rs.Base.{
  ℕ, ◌≡◌, refl, sym, ap, subst, ◌∙◌, arith, inl, inr, Bool, false, not, ◌&&◌, ltb, min, List, [],
  ◌∷◌, ◌++◌, none, some, Option-cases, Bool-cases, ◌==◌, Exec, done, panic, out_of_fuel, Post,
  Post-always, Post-bind, Post-both, Post-mono,
}
use picoquic_rs.World.{World}
use picoquic_rs.Stream.Types.{Event, Message}
use picoquic_rs.Stream.Types as StreamTypes
use picoquic_rs.Stream.Receive.{handle_data, handle_event}
use picoquic_rs.Stream.SendData.{
  collect_buffers_to_send, collect_loop, copy_buffers, handle_send_data, start,
}
use picoquic_rs.Stream.Drive as Stream
use picoquic_rs.Stream.Supplies.{Supplies, handle_send_data-keeps}
use picoquic_rs.Stream.Controls.{channels_of}
use picoquic_rs.Connection.Types.{Ext, Streams, lookup}
use picoquic_rs.Connection.Waiting.{Rest, Waiting, Channels, channels, All, Less, Less-trans}
use picoquic_rs.Connection.Telling.{handle_data-Tells, handle_event-Tells}

pub Post-all :
    {A D : Type 0} (P : D → A → Type 0) (m : Exec A)
    → ((d : D) → Post (P d) m)
    → Post (λ a. (d : D) → P d a) m
Post-all P (done a) h = h
Post-all P panic h = tt
Post-all P out_of_fuel h = tt

-- What holds of all streams holds of the one that is found.
pub lookup-All :
    (P : Channels → Type 0) (id : ℕ) (s : StreamTypes.Context) (m : Streams)
    → lookup id m ≡ some s
    → All P (channels m)
    → P (channels_of s)
unfolding lookup
lookup-All P id s [] h a = ground arith
lookup-All P id s ((j, t) ∷ m) h a = elim (Bool-cases (j == id)) [
  | inl same ↦ let found : t ≡ s = cc (h, same) in subst P (ap channels_of found) a.0
  | inr other ↦ lookup-All P id s m (sym (rw other refl) ∙ h) a.1
]

pub All-last :
    (P : Channels → Type 0) (l : List Channels) (c : Channels) → All P (l ++ c ∷ []) → P c
All-last P [] c a = a.0
All-last P (x ∷ l) c a = All-last P l c a.1

module _ {Sys : Type 0} (ext : Ext Sys) (k : Waiting ext) where
  -- One step of a stream that may end in a panic: its channels stay, and nothing is taken.
  abbrev pub Steady :
      (ℕ → Bool) → StreamTypes.Context → World Sys → StreamTypes.Context × World Sys → Type 0
  Steady i s w x = (channels_of x.0 ≡ channels_of s) × Less ext k i w.sys x.1.sys

  supplies : {A : Type 0} (view : Sys → A) → Rest ext view → Supplies ext.streams view
  supplies view o = record {
    poll_bytes = o.poll_bytes;
    drops_receiver = o.ends.drops_receiver;
    called = o.ends.calls;
    provides = o.provides;
  }

  handle_send_data-channels :
      (fuel place size : ℕ) (s : StreamTypes.Context) (w : World Sys)
      → Post
          (λ x. channels_of x.0 ≡ channels_of s)
          (handle_send_data ext.streams fuel place size s w)
  unfolding handle_send_data collect_buffers_to_send
  handle_send_data-channels fuel place size s w =
      Post-bind (λ x. channels_of x.1 ≡ channels_of s) _
        (collect_buffers_to_send ext.streams fuel size s w) _
        (Post-bind (λ x. Unit {0}) (λ x. channels_of x.1 ≡ channels_of s)
          (collect_loop ext.streams fuel size (start s.active_buffer).0 (start s.active_buffer).1
            s.send_data w)
          _ (Post-always _ _ (λ x. tt)) (λ x t. refl))
        (λ x same.
          let c = x.0 in
          let still_active = ltb size c.size && not c.fin in
          let n = min size c.size in
          let dest = (ext.streams.provide place n c.fin still_active x.2.sys).0 in
          elim (Option-cases dest) [
            | inl e ↦ rw e tt
            | inr (p, e) ↦ rw e (
                Post-bind (λ y. Unit {0}) (λ z. channels_of z.0 ≡ channels_of s)
                  (copy_buffers n [] none c.buffers) _ (Post-always _ _ (λ y. tt)) (λ y t. same))
          ])

  handle_send_data-Steady :
      (i : ℕ → Bool) (fuel place size : ℕ) (s : StreamTypes.Context) (w : World Sys)
      → Post (Steady i s w) (handle_send_data ext.streams fuel place size s w)
  handle_send_data-Steady i fuel place size s w =
      let m = handle_send_data ext.streams fuel place size s w in
      let numbers =
        handle_send_data-keeps ext.streams k.next (supplies k.next k.next_rest) (k.next w.sys) fuel
          place size s w refl in
      let all =
        Post-all (λ d x. k.waits d x.1.sys ≡ k.waits d w.sys) m
          (λ d.
            handle_send_data-keeps ext.streams (k.waits d) (supplies (k.waits d) (k.rest d))
              (k.waits d w.sys) fuel place size s w refl) in
      Post-mono _ _ m (λ x (same, (n, h)). (same, (omega (arith, n), λ d e. inl (h d))))
        (Post-both _ _ m (handle_send_data-channels fuel place size s w)
          (Post-both _ _ m numbers all))

  pub stream_callback-Steady :
      (i : ℕ → Bool) (fuel ptr size : ℕ) (e : Event) (s : StreamTypes.Context) (w : World Sys)
      → i s.recv_msg ≡ false
      → Post (Steady i s w) (Stream.handle_callback ext.streams fuel ptr size e s w)
  unfolding Stream.handle_callback
  stream_callback-Steady i fuel ptr size StreamTypes.prepare_to_send s w h =
      handle_send_data-Steady i fuel ptr size s w
  stream_callback-Steady i fuel ptr size e s w h =
      let b = ext.streams.slice ptr size w.sys in
      let (s₁, w₁) = handle_data ext.streams s b w in
      let (s₂, w₂) = handle_event ext.streams s₁ e w₁ in
      let (same, less) = handle_data-Tells ext k s b w in
      let (same', less') = handle_event-Tells ext k s₁ e w₁ in
      (
        same' ∙ same,
        Less-trans ext k i w.sys w₁.sys w₂.sys (less i h) (less' i (ap (λ c. i c.0) same ∙ h)),
      )

-- ===== src/Stream/Reading.antt =====
-- src/stream.rs: what the application reads from a stream is what the peer sent on it.
use picoquic_rs.Base.{
  ℕ, zero, suc, ◌*◌, ◌<◌, ◌≡◌, refl, ap, ◌∙◌, true, false, not, List, [], ◌∷◌, ◌++◌, length, none,
  some, ok, err, ready, not_ready, Exec, done, out_of_fuel, ◌>>=◌, arith, if◌then◌else◌,
}
use picoquic_rs.World.{World}
use picoquic_rs.Stream.Types.{Context, Ext, Event, Message, Stream, stream_fin, stream_reset}
use picoquic_rs.Stream.Types as Types
use picoquic_rs.Stream.Handle as Handle
use picoquic_rs.Stream.StopSending.{Happening, happens}
use picoquic_rs.Stream.Delivery.{Open, tells, happens-tells}
use picoquic_rs.Stream.Arrives.{
  Reading, going_on, over, was_reset, failed, after, arrives, heard, IsSwapFree, heard-tells,
  tells-IsSwapFree, tells-length,
}

module _ {Sys : Type 0} (ext : Ext Sys) where
  abbrev stopped : Stream → World Sys → Reading × Stream × World Sys
  stopped s w = (([], if s.is_reset then was_reset else over), s, w)

  -- The application reads on until there is nothing, the stream has ended or it failed; on fuel.
  unfoldable pub read_all : ℕ → Stream → World Sys → Exec (Reading × Stream × World Sys)
  read_all zero s w = out_of_fuel
  read_all (suc fuel) s w = do
    (r, s', w') ← Handle.poll ext s w
    elim r [
      | err e ↦ done (([], failed e), s', w')
      | ok not_ready ↦ done (([], going_on), s', w')
      | ok (ready none) ↦ done (stopped s' w')
      | ok (ready (some b)) ↦ do (x, s'', w'') ← read_all fuel s' w'; done (after b x, s'', w'')
    ]

  -- What the application is told waits in its channel until it polls it.
  pub record Mailbox {recv : ℕ} (o : Open ext recv) : Type 0 where
    pub first :
        (s : Sys) (m : Message) (ms : List Message)
        → o.log s ≡ m ∷ ms
        → let (r, s') = ext.msgs.poll recv s in (r ≡ ok (ready (some m))) × (o.log s' ≡ ms)
    pub empty :
        (s : Sys)
        → o.log s ≡ []
        → let (r, s') = ext.msgs.poll recv s in (r ≡ ok not_ready) × (o.log s' ≡ [])

  module _ {recv : ℕ} (o : Open ext recv) (x : Mailbox o) where
    asked :
        (s : Stream) (w : World Sys) (m : Message) (ms : List Message)
        → s.recv_msg ≡ recv
        → o.log w.sys ≡ m ∷ ms
        → let w' : World Sys = record w { sys = (ext.msgs.poll s.recv_msg w.sys).1 } in
          (Handle.poll ext s w ≡ Handle.receive ext s w' (ok (ready (some m))))
          × (o.log w'.sys ≡ ms)
    unfolding Handle.poll
    asked s w m ms c h =
        let (got, rest) = x.first w.sys m ms h in
        let w' : World Sys = record w { sys = (ext.msgs.poll s.recv_msg w.sys).1 } in
        let got' : (ext.msgs.poll s.recv_msg w.sys).0 ≡ ok (ready (some m)) = rw c got in
        (ap (Handle.receive ext s w') got', rw c rest)

    nothing :
        (s : Stream) (w : World Sys)
        → s.recv_msg ≡ recv
        → o.log w.sys ≡ []
        → Handle.poll ext s w
          ≡ done (ok not_ready, s, record w { sys = (ext.msgs.poll s.recv_msg w.sys).1 })
    unfolding Handle.poll
    nothing s w c h =
        let w' : World Sys = record w { sys = (ext.msgs.poll s.recv_msg w.sys).1 } in
        let got : (ext.msgs.poll s.recv_msg w.sys).0 ≡ ok not_ready = rw c (x.empty w.sys h).0 in
        ap (Handle.receive ext s w') got

    read_all-heard :
        (ms : List Message) (fuel : ℕ) (s : Stream) (w : World Sys)
        → s.recv_msg ≡ recv
        → s.is_reset ≡ false
        → o.log w.sys ≡ ms
        → IsSwapFree ms
        → length ms < fuel
        → (s' : Stream) × (w' : World Sys) × (read_all fuel s w ≡ done (heard ms, s', w'))
    unfolding read_all heard IsSwapFree
    read_all-heard ms zero s w c n h p k = absurd (omega arith)
    read_all-heard [] (suc fuel) s w c n h p k =
        let w' : World Sys = record w { sys = (ext.msgs.poll s.recv_msg w.sys).1 } in
        (s, w', rw (nothing s w c h, read_all) refl)
    read_all-heard (Types.recv_data b ∷ ms) (suc fuel) s w c n h p k =
        let w' : World Sys = record w { sys = (ext.msgs.poll s.recv_msg w.sys).1 } in
        let (got, rest) = asked s w (Types.recv_data b) ms c h in
        let (s', w'', run) = read_all-heard ms fuel s w' c n rest p (omega arith) in
        (s', w'', rw (got, read_all) (rw run refl))
    read_all-heard (Types.reset ∷ ms) (suc fuel) s w c n h p k =
        let w' : World Sys = record w { sys = (ext.msgs.poll s.recv_msg w.sys).1 } in
        (record s { is_reset = true }, w', rw ((asked s w Types.reset ms c h).0, read_all) refl)
    read_all-heard (Types.error e ∷ ms) (suc fuel) s w c n h p k =
        let w' : World Sys = record w { sys = (ext.msgs.poll s.recv_msg w.sys).1 } in
        (s, w', rw ((asked s w (Types.error e) ms c h).0, read_all) refl)
    read_all-heard (Types.close ∷ ms) (suc fuel) s w c n h p k =
        let w' : World Sys = record w { sys = (ext.msgs.poll s.recv_msg w.sys).1 } in
        (s, w', rw ((asked s w Types.close ms c h).0, read_all, n) refl)
    read_all-heard (Types.swap_send_data r y ∷ ms) (suc fuel) s w c n h p k = elim p [ ]

    -- Where the application's channel is a queue that takes every message and that nothing else
    -- changes: after any history of a stream, from an empty channel, the application that polls its
    -- stream until it has nothing, ends or fails gets, with two polls for each event and one more as
    -- fuel, exactly the non-empty data that the peer sent while the stream was open, in order, up to
    -- the first end, and then how the stream stands: going on, over (also when the connection closed),
    -- reset by the peer, or failed with the connection's error. It never panics.
    pub happens-arrives :
        (hs : List Happening) (ctx : Context) (w : World Sys) (s : Stream) (fuel : ℕ)
        → ctx.recv_msg ≡ recv
        → s.recv_msg ≡ recv
        → s.is_reset ≡ false
        → o.log w.sys ≡ []
        → 2 * length hs < fuel
        → let is_open = not ctx.fin_received_or_recv_msg_dropped in
          (s' : Stream) × (w' : World Sys) × (read_all fuel s (happens ext hs (ctx, w)).1
            ≡ done (arrives is_open hs, s', w'))
    happens-arrives hs ctx w s fuel c d n h k =
        let is_open = not ctx.fin_received_or_recv_msg_dropped in
        let ms = tells is_open hs in
        let log : o.log (happens ext hs (ctx, w)).1.sys ≡ ms =
          happens-tells ext o hs ctx w c ∙ ap (λ l. l ++ ms) h in
        let (s', w', run) =
          read_all-heard ms fuel s (happens ext hs (ctx, w)).1 d n log (tells-IsSwapFree hs is_open)
            (omega (arith, tells-length hs is_open)) in
        (s', w', run ∙ ap (λ r. done (r, s', w')) (heard-tells hs is_open))

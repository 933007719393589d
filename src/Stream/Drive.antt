-- ===== src/Stream/Drive.antt =====
-- src/stream.rs: `Context` as a future, and the callback.
use picoquic_rs.Base.{
  ℕ, zero, suc, ◌&&◌, not, Option, none, some, is_none, Result, ok, err, ready, not_ready, Poll,
  Exec, done, panic, out_of_fuel, ◌>>=◌, if◌then◌else◌,
}
use picoquic_rs.Errors.{Error, Bytes, from_kind, unknown}
use picoquic_rs.World
use picoquic_rs.World.{World, Mpsc, Call, on_sys, with_sys, perform}
use picoquic_rs.Swappable
use picoquic_rs.Swappable.{SwappableStream, set_swap_to}
use picoquic_rs.Stream.Types.{reset, swap_send_data, Context, Ext, Receiver, Event, prepare_to_send}
use picoquic_rs.Stream.Receive.{
  drop_swappable, reset_context, recv_message_dropped, handle_data, handle_event,
}
use picoquic_rs.Stream.SendData.{poll_receiver, drop_receiver, handle_send_data}

module _ {Sys : Type 0} (ext : Ext Sys) where
  open ext use {msgs}

  -- `handle_callback`
  unfoldable pub handle_callback :
      ℕ → ℕ → ℕ → Event → Context → World Sys → Exec (Context × World Sys)
  unfolding handle_data handle_event handle_send_data
  handle_callback fuel ptr length prepare_to_send ctx w = handle_send_data ext fuel ptr length ctx w
  handle_callback fuel ptr length event ctx w =
      let (ctx', w') = handle_data ext ctx (ext.slice ptr length w.sys) w in
      done (handle_event ext ctx' event w')

  unfoldable pub handle_send_data_dropped : Context → World Sys → Context × World Sys
  unfolding reset_context drop_swappable
  handle_send_data_dropped ctx w =
      let w' : World Sys = elim ctx.send_data [ none ↦ w | some s ↦ drop_swappable ext s w ] in
      let ctx' = record ctx { send_data = none } in
      if not ctx.data_send && is_none ctx.active_buffer
      then reset_context ext ctx' w'
      else if not ctx.stop_sending_or_fin_sent
      then (ctx', perform ext.call (World.mark_active_stream ctx.cnx ctx.id 1) w')
      else (ctx', w')

  abbrev set_swap :
      Context → Option (SwappableStream Receiver) → Receiver → World Sys → Context × World Sys
  set_swap ctx none r w = (ctx, drop_receiver ext r w)
  set_swap ctx (some s) r w = (
    record ctx { send_data = some (set_swap_to s r) },
    elim s.swap_to [ none ↦ w | some t ↦ drop_receiver ext t w ],
  )

  -- The message `SwapSendData`. A receiver that waited already is dropped, and so is the new one
  -- where the stream sends nothing any more; the old sender is dropped last.
  unfoldable pub swap_receiver : Context → Receiver → ℕ → World Sys → Context × World Sys
  swap_receiver ctx r old_sender w =
      let (ctx', w') = set_swap ctx ctx.send_data r w in
      (ctx', with_sys w' (ext.drop_sender old_sender))

  -- The loop of `poll_control_msg`, on fuel.
  unfoldable pub poll_control_msg :
      ℕ → Context → World Sys → Exec (Poll (Unit {0}) Error × Context × World Sys)
  unfolding reset_context recv_message_dropped swap_receiver
  poll_control_msg zero ctx w = out_of_fuel
  poll_control_msg (suc fuel) ctx w =
      let (r, w') = on_sys w (msgs.poll ctx.control_msg w.sys) in
      elim r [
        | err _ ↦ done (err (from_kind unknown), ctx, w')
        | ok not_ready ↦ done (ok not_ready, ctx, w')
        | ok (ready none) ↦
            let (ctx', w'') = recv_message_dropped ext ctx w' in done (ok (ready tt), ctx', w'')
        | ok (ready (some reset)) ↦
            let (ctx', w'') = reset_context ext ctx w' in poll_control_msg fuel ctx' w''
        | ok (ready (some (swap_send_data r old))) ↦
            let (ctx', w'') = swap_receiver ctx r old.sender w' in poll_control_msg fuel ctx' w''
        | _ ↦ panic
      ]

  abbrev pub sent_or_dropped :
      Context
      → World Sys
      → Poll (Option Bytes) Error
      → Result (Unit {0}) Error × Context × World Sys
  sent_or_dropped ctx w (err e) = (err e, ctx, w)
  sent_or_dropped ctx w (ok not_ready) = (ok tt, ctx, w)
  sent_or_dropped ctx w (ok (ready (some buf))) = (
    ok tt,
    record ctx { active_buffer = some buf },
    perform ext.call (World.mark_active_stream ctx.cnx ctx.id 1) w,
  )
  sent_or_dropped ctx w (ok (ready none)) =
      let (ctx', w') = handle_send_data_dropped ctx w in (ok tt, ctx', w')

  unfoldable pub poll_send_data :
      Context → World Sys → Exec (Result (Unit {0}) Error × Context × World Sys)
  unfolding handle_send_data_dropped
  poll_send_data ctx w = elim ctx.active_buffer [
    | some buf ↦ done (ok tt, ctx, w)
    | none ↦ elim ctx.send_data [
      | none ↦ done (ok tt, ctx, w)
      | some recv ↦ do
        (r, recv', w') ← Swappable.poll (poll_receiver ext) (drop_receiver ext) recv w
        done (sent_or_dropped (record ctx { send_data = some recv' }) w' r)
    ]
  ]

  abbrev pub finished : Context → Poll (Unit {0}) Error
  finished ctx =
      if ctx.stop_sending_or_fin_sent && ctx.fin_received_or_recv_msg_dropped
      then ok (ready tt)
      else ok not_ready

  -- `Future::poll`
  unfoldable pub poll : ℕ → Context → World Sys → Exec (Poll (Unit {0}) Error × Context × World Sys)
  unfolding poll_control_msg poll_send_data
  poll fuel ctx w = do
    (r, ctx₁, w₁) ← poll_control_msg fuel ctx w
    elim r [
      | err e ↦ done (err e, ctx₁, w₁)
      | ok _ ↦ do
        (s, ctx₂, w₂) ← poll_send_data ctx₁ w₁
        elim s [ err e ↦ done (err e, ctx₂, w₂) | ok _ ↦ done (finished ctx₂, ctx₂, w₂) ]
    ]

-- ===== src/Connection/Context.antt =====
-- src/connection.rs: `Context`, from its construction to its future.
use picoquic_rs.Base.{
  ℕ, zero, suc, ◌+◌, ◌%◌, ◌^◌, Bool, true, false, [], ◌∷◌, none, some, is_some, ok, err, Async,
  ready, not_ready, Poll, Exec, done, panic, out_of_fuel, ◌>>=◌, if◌then◌else◌, ◌==◌,
}
use picoquic_rs.Errors.{Error, ErrorFn}
use picoquic_rs.World
use picoquic_rs.World.{World, on_sys, with_sys, perform}
use picoquic_rs.Channel
use picoquic_rs.Stream.Types.{SocketAddr, Event, almost_ready}
use picoquic_rs.Stream.Types as StreamTypes
use picoquic_rs.Stream.Receive.{
  new_stream, handle_connection_error, handle_connection_close, drop_context,
}
use picoquic_rs.Stream.Drive as Stream
use picoquic_rs.Ffi.Cnx as Cnx
use picoquic_rs.Ffi.StreamId.{generate_stream_id}
use picoquic_rs.Connection.Types.{
  Context, Ext, Message, NewStreamHandle, Streams, lookup, insert, build,
}

module _ {Sys : Type 0} (ext : Ext Sys) where
  open ext use {msgs, streams}

  -- `send_msg.unbounded_send`, whose result is not looked at.
  abbrev tell : Context → Message → World Sys → World Sys
  tell ctx m w = (on_sys w (msgs.unbounded_send ctx.send_msg m w.sys)).1

  -- `Context::new`. The receiver of requests is polled once, which registers the task, and the
  -- answer is thrown away.
  unfoldable pub new_context :
      ℕ → ℕ → ℕ → Bool → SocketAddr → ℕ → World Sys → (Context × NewStreamHandle) × World Sys
  new_context cnx send_msg close_recv is_client local_addr size w =
      let ((send, recv), w₁) = Channel.pair ext.create_requests w in
      let (_, w₂) = Channel.poll ext.requests_stream recv w₁ in
      (
        (
          record {
            send_msg = send_msg;
            close_recv = close_recv;
            recv_create_stream = recv;
            streams = [];
            cnx = cnx;
            closed = false;
            is_client = is_client;
            next_stream_id = 0;
            wait_for_ready_state = none;
            local_addr = local_addr;
            stream_send_channel_default_size = size;
          },
          send,
        ),
        perform streams.call (World.set_callback cnx true) w₂,
      )

  -- `handle_stream_callback`: an id that is not known makes a new stream, which is announced after
  -- the callback was handled.
  unfoldable pub handle_stream_callback :
      ℕ → ℕ → ℕ → ℕ → Event → Context → World Sys → Exec (Context × World Sys)
  handle_stream_callback fuel id ptr length event ctx w = elim (lookup id ctx.streams) [
    | some s ↦ do
      (s', w') ← Stream.handle_callback streams fuel ptr length event s w
      done (record ctx { streams = insert id s' ctx.streams }, w')
    | none ↦ do
      let ((stream, s), w₁) =
          new_stream streams id ctx.cnx ctx.local_addr ctx.is_client
            ctx.stream_send_channel_default_size w
      (s', w₂) ← Stream.handle_callback streams fuel ptr length event s w₁
      done (
        record ctx { streams = insert id s' ctx.streams },
        tell ctx (Message.new_stream stream) w₂,
      )
  ]

  -- `process_wait_for_ready_state`
  unfoldable pub process_wait_for_ready_state : Context → World Sys → Exec (Context × World Sys)
  process_wait_for_ready_state ctx w = elim ctx.wait_for_ready_state [
    | none ↦ panic
    | some (builder, sender) ↦ done (
      record ctx { wait_for_ready_state = none },
      with_sys w
          (ext.answer_connection sender (ok (build builder (ext.local_cnxid ctx.cnx w.sys)))),
    )
  ]

  -- `handle_callback`
  unfoldable pub handle_callback :
      ℕ → ℕ → ℕ → ℕ → Event → Context → World Sys → Exec (Context × World Sys)
  unfolding process_wait_for_ready_state handle_stream_callback
  handle_callback fuel id ptr length almost_ready ctx w =
      if is_some ctx.wait_for_ready_state then process_wait_for_ready_state ctx w else done (ctx, w)
  handle_callback fuel id ptr length event ctx w =
      if id == 0 then done (ctx, w) else handle_stream_callback fuel id ptr length event ctx w

  -- One request: the stream is made under the next id, which must be new, and handed over.
  unfoldable pub create_stream :
      Context
      → StreamTypes.Stream × StreamTypes.Context
      → ℕ
      → ℕ
      → World Sys
      → Exec (Context × World Sys)
  create_stream ctx (stream, s) id sender w = elim (lookup id ctx.streams) [
    | some _ ↦ panic
    | none ↦ done (
      record ctx { streams = insert id s ctx.streams },
      with_sys w (ext.answer_stream sender (ok stream)),
    )
  ]

  -- The loop of `check_create_stream_requests`, on fuel.
  unfoldable pub check_create_stream_requests : ℕ → Context → World Sys → Exec (Context × World Sys)
  unfolding create_stream
  check_create_stream_requests zero ctx w = out_of_fuel
  check_create_stream_requests (suc fuel) ctx w =
      let (r, w₁) = Channel.poll ext.requests_stream ctx.recv_create_stream w in
      elim r [
        | ok (ready (some (stype, sender))) ↦ do
          let id = generate_stream_id ctx.next_stream_id ctx.is_client stype
          let ctx₁ = record ctx { next_stream_id = (ctx.next_stream_id + 1) % 2 ^ 64 }
          let (both, w₂) =
              new_stream streams id ctx.cnx ctx.local_addr ctx.is_client
                ctx.stream_send_channel_default_size w₁
          (ctx₂, w₃) ← create_stream ctx₁ both id sender w₂
          check_create_stream_requests fuel ctx₂ w₃
        | _ ↦ done (ctx, w₁)
      ]

  -- `values_mut().for_each(...)`
  abbrev pub each :
      (StreamTypes.Context → World Sys → StreamTypes.Context × World Sys)
      → Streams
      → World Sys
      → Streams × World Sys
  each f [] w = ([], w)
  each f ((id, s) ∷ m) w = let (s', w₁) = f s w in let (m', w₂) = each f m w₁ in ((id, s') ∷ m', w₂)

  -- `Context::close`
  unfoldable pub close : Context → World Sys → Context × World Sys
  close ctx w =
      let w₁ = Cnx.close streams.call ctx.cnx w in
      let (m, w₂) = each (handle_connection_close streams) ctx.streams w₁ in
      let ctx' = record ctx { closed = true; streams = m } in (ctx', tell ctx' Message.close w₂)

  -- The loop of `check_and_handle_error` that answers the requests still there, on fuel.
  unfoldable pub refuse_requests : ℕ → Context → ErrorFn → World Sys → Exec (World Sys)
  refuse_requests zero ctx e w = out_of_fuel
  refuse_requests (suc fuel) ctx e w =
      let (r, w₁) = Channel.poll ext.requests_stream ctx.recv_create_stream w in
      elim r [
        | ok (ready (some (_, sender))) ↦
            refuse_requests fuel ctx e (with_sys w₁ (ext.answer_stream sender (err (e tt))))
        | _ ↦ done w₁
      ]

  unfoldable pub handle_error : ℕ → ErrorFn → Context → World Sys → Exec (Context × World Sys)
  unfolding refuse_requests
  handle_error fuel e ctx w = do
    let (m, w₁) = each (λ s v. handle_connection_error streams s e v) ctx.streams w
    let ctx₁ = record ctx { streams = m }
    let w₂ = Channel.propagate_error ctx.recv_create_stream e w₁
    let w₃ = Channel.close ext.requests_close ctx.recv_create_stream w₂
    w₄ ← refuse_requests fuel ctx₁ e w₃
    done (
      record ctx₁ { wait_for_ready_state = none },
      elim ctx.wait_for_ready_state [
        | some (_, send) ↦ with_sys w₄ (ext.answer_connection send (err (e tt)))
        | none ↦ tell ctx₁ (Message.error (e tt)) w₄
      ],
    )

  -- `check_and_handle_error`
  unfoldable pub check_and_handle_error : ℕ → Context → World Sys → Exec (Context × World Sys)
  unfolding handle_error
  check_and_handle_error fuel ctx w =
      elim (Cnx.error ext.is_handshake_error (ext.local_error ctx.cnx w.sys)
        (ext.remote_error ctx.cnx w.sys)) [
          | none ↦ done (ctx, w)
          | some e ↦ handle_error fuel e ctx w
        ]

  abbrev pub keeps : Poll (Unit {0}) Error → Bool
  keeps (ok not_ready) = true
  keeps _ = false

  -- `streams.retain(...)`: each stream is polled, and dropped unless it answers that it is not ready.
  unfoldable pub retain_streams : ℕ → Streams → World Sys → Exec (Streams × World Sys)
  retain_streams fuel [] w = done ([], w)
  retain_streams fuel ((id, s) ∷ m) w = do
    (r, s', w₁) ← Stream.poll streams fuel s w
    let w₂ = if keeps r then w₁ else drop_context streams s' w₁
    (m', w₃) ← retain_streams fuel m w₂
    done (if keeps r then (id, s') ∷ m' else m', w₃)

  -- The connection is closed where the application asked for it.
  abbrev pub close_if_asked : Poll (Unit {0}) (Unit {0}) → Context → World Sys → Context × World Sys
  close_if_asked (ok (ready _)) ctx w = close ctx w
  close_if_asked _ ctx w = (ctx, w)

  -- `Future::poll` of a connection that is not closed, with fuel for each of its loops.
  unfoldable pub poll_open : ℕ → Context → World Sys → Exec (Context × World Sys)
  unfolding retain_streams check_create_stream_requests close
  poll_open fuel ctx w = do
    (m, w₁) ← retain_streams fuel ctx.streams w
    (ctx₂, w₂) ← check_create_stream_requests fuel (record ctx { streams = m }) w₁
    let (r, w₃) = on_sys w₂ (ext.poll_close ctx₂.close_recv w₂.sys)
    done (close_if_asked r ctx₂ w₃)

  -- `Future::poll`
  unfoldable pub poll : ℕ → Context → World Sys → Exec (Async (Unit {0}) × Context × World Sys)
  unfolding poll_open
  poll fuel ctx w =
      if ctx.closed
      then done (ready tt, ctx, w)
      else (poll_open fuel ctx w >>= λ (ctx', w'). done (not_ready, ctx', w'))

  -- What dropping the map of streams drops.
  unfoldable pub drop_streams : Streams → World Sys → World Sys
  drop_streams [] w = w
  drop_streams ((id, s) ∷ m) w = drop_streams m (drop_context streams s w)

  -- `Drop for Context`, and then the drop of its streams; the drop of the halves of its own channels
  -- is left out.
  unfoldable pub drop : Context → World Sys → World Sys
  unfolding drop_streams
  drop ctx w = drop_streams ctx.streams (perform streams.call (World.set_callback ctx.cnx false) w)

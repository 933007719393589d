-- ===== src/Stream/SendData.antt =====
-- src/stream.rs: what `Context` does when picoquic asks for data to send.
use picoquic_rs.Base.{
  ℕ, zero, suc, ◌+◌, ◌-◌, min, Bool, true, false, ◌&&◌, ◌||◌, not, List, [], ◌∷◌, ◌++◌, Option,
  none, some, is_none, ok, err, ready, not_ready, Poll, Exec, done, panic, out_of_fuel, ◌>>=◌,
  if◌then◌else◌, leb, ltb, length, take, drop, is_empty,
}
use picoquic_rs.Errors.{Error, Bytes}
use picoquic_rs.World
use picoquic_rs.World.{World, Call, on_sys, with_sys, perform}
use picoquic_rs.Channel
use picoquic_rs.Swappable
use picoquic_rs.Swappable.{SwappableStream}
use picoquic_rs.Stream.Types.{Context, Ext, Receiver}

-- The copying loop of `handle_send_data`: `written` is what `dest_slice` holds so far, `length`
-- bytes is its size, and the rest of a buffer that does not fit becomes the active buffer.
unfoldable pub copy_buffers : ℕ → Bytes → Option Bytes → List Bytes → Exec (Bytes × Option Bytes)
copy_buffers size written active [] = done (written, active)
copy_buffers size written active (buf ∷ bufs) =
    let fitting = min (length written + length buf) size - length written in
    let copying = ltb (length written) size in
    let written' : Bytes = if copying then written ++ take fitting buf else written in
    let buf' : Bytes = if copying then drop fitting buf else buf in
    let keep = copy_buffers size written' (some buf') bufs in
    let next = copy_buffers size written' active bufs in
    if not (is_empty buf') && is_none active
    then keep
    else if not (is_empty buf')
    then panic
    else next

-- `SmallVec` of buffers, their total size, and whether the stream has ended.
pub record Collected : Type 0 where
  pub buffers : List Bytes
  pub size : ℕ
  pub fin : Bool

-- The buffers and the size that `collect_buffers_to_send` starts with: the active buffer, if any.
abbrev pub start : Option Bytes → List Bytes × ℕ
start none = ([], 0)
start (some buf) = (buf ∷ [], length buf)

module _ {Sys : Type 0} (ext : Ext Sys) where
  abbrev pub poll_receiver : Receiver → World Sys → Poll (Option Bytes) Error × World Sys
  poll_receiver = Channel.poll ext.bytes_stream

  abbrev pub drop_receiver : Receiver → World Sys → World Sys
  drop_receiver r w = with_sys w (ext.drop_receiver r.receiver)

  -- The loop of `collect_buffers_to_send`, on fuel.
  unfoldable pub collect_loop :
      ℕ
      → ℕ
      → List Bytes
      → ℕ
      → Option (SwappableStream Receiver)
      → World Sys
      → Exec (Collected × Option (SwappableStream Receiver) × World Sys)
  collect_loop zero max_length bufs size s w = out_of_fuel
  collect_loop (suc fuel) max_length bufs size s w = elim (leb size max_length) [
    | false ↦ done (record { buffers = bufs; size = size; fin = false }, s, w)
    | true ↦ elim s [
      | none ↦ done (record { buffers = bufs; size = size; fin = true }, none, w)
      | some recv ↦ do
        (r, recv', w') ← Swappable.poll poll_receiver drop_receiver recv w
        elim r [
          | err e ↦ panic
          | ok not_ready ↦
              done (record { buffers = bufs; size = size; fin = false }, some recv', w')
          | ok (ready none) ↦
              done (record { buffers = bufs; size = size; fin = true }, some recv', w')
          | ok (ready (some buf)) ↦
              collect_loop fuel max_length (bufs ++ buf ∷ []) (size + length buf) (some recv') w'
        ]
    ]
  ]

  unfoldable pub collect_buffers_to_send :
      ℕ → ℕ → Context → World Sys → Exec (Collected × Context × World Sys)
  collect_buffers_to_send fuel max_length ctx w =
      let (bufs, size) = start ctx.active_buffer in
      do
        (c, s, w') ← collect_loop fuel max_length bufs size ctx.send_data w
        done (c, record ctx { active_buffer = none; send_data = s }, w')

  -- `picoquic_provide_stream_data_buffer`
  abbrev pub request : ℕ → ℕ → Bool → Bool → World Sys → Option ℕ × World Sys
  request place size fin still w =
      let (dest, s) = ext.provide place size fin still w.sys in
      (
        dest,
        record w {
          sys = s;
          calls = World.provide_stream_data_buffer place size fin still ∷ w.calls;
        },
      )

  -- `handle_send_data`; `place` is picoquic's context pointer for this request.
  unfoldable pub handle_send_data : ℕ → ℕ → ℕ → Context → World Sys → Exec (Context × World Sys)
  unfolding collect_buffers_to_send
  handle_send_data fuel place max_length ctx w = do
    (c, ctx₁, w₁) ← collect_buffers_to_send fuel max_length ctx w
    let still_active = ltb max_length c.size && not c.fin
    let size = min max_length c.size
    let (dest, w₂) = request place size c.fin still_active w₁
    p ← elim dest [ none ↦ panic | some p ↦ done p ]
    (written, active) ← copy_buffers size [] none c.buffers
    done (
      record ctx₁ {
        data_send = ctx.data_send || ltb 0 c.size;
        stop_sending_or_fin_sent = c.fin;
        active_buffer = active;
      },
      perform ext.call (World.write_buffer p written) w₂,
    )

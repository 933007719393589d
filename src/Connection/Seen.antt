-- ===== src/Connection/Seen.antt =====
-- src/connection.rs: what waits for a connection and what it sends, and the refusing of requests.
use picoquic_rs.Base.{
  ℕ, zero, suc, ◌<◌, ◌≡◌, refl, ap, ◌∙◌, List, [], ◌∷◌, ◌++◌, map, length, append_assoc, append-nil,
  Option, none, some, Result, ok, err, map_err, ready, done, arith,
}
use picoquic_rs.Errors.{Error, ErrorFn, from_kind, unknown}
use picoquic_rs.World.{World}
use picoquic_rs.Channel
use picoquic_rs.Stream.Types.{Stream, Event, callback_close, application_close}
use picoquic_rs.Stream.Types as StreamTypes
use picoquic_rs.Stream.Aside.{Aside}
use picoquic_rs.Connection.Types.{
  Connection, ConnectionBuilder, Context, Ext, Message, Request, Streams, close, error,
}
use picoquic_rs.Connection.Context.{each, refuse_requests}

-- What waits for a connection and what it has sent: the requests for streams, the answers to them,
-- the messages to the application and the answers to who asked for the connection.
pub record Seen : Type 0 where
  pub waiting : List Request
  pub answers : List (ℕ × Result Stream Error)
  pub told : List Message
  pub connected : List (ℕ × Result Connection Error)

abbrev pub tell : Message → Seen → Seen
tell m v = record v { told = v.told ++ m ∷ [] }

abbrev pub answer : ℕ × Result Stream Error → Seen → Seen
answer a v = record v { answers = v.answers ++ a ∷ [] }

abbrev pub connect : ℕ × Result Connection Error → Seen → Seen
connect a v = record v { connected = v.connected ++ a ∷ [] }

abbrev pub refuse : ErrorFn → Seen → Seen
refuse e v = record v {
  waiting = [];
  answers = v.answers ++ map (λ r. (r.1, err (e tt))) v.waiting;
}

-- The error goes to who asked for the connection, while it is not there yet, and to the
-- application otherwise.
abbrev pub fail : ErrorFn → Option (ConnectionBuilder × ℕ) → Seen → Seen
fail e none v = tell (error (e tt)) v
fail e (some (_, sender)) v = connect (sender, err (e tt)) v

-- What the end of a connection makes of it, with the connection's error, if it has one.
abbrev pub ended : Option ErrorFn → Context → Seen → Seen
ended none ctx v = tell close v
ended (some e) ctx v = tell close (fail e ctx.wait_for_ready_state (refuse e v))

refuse-none : (e : ErrorFn) (v : Seen) → v.waiting ≡ [] → v ≡ refuse e v
refuse-none e v h = ground (arith, append-nil v.answers)

refuse-first :
    (e : ErrorFn) (r : Request) (l : List Request) (v : Seen)
    → v.waiting ≡ r ∷ l
    → refuse e (answer (r.1, err (e tt)) (record v { waiting = l })) ≡ refuse e v
refuse-first e r l v h =
    ground (arith, append_assoc v.answers ((r.1, err (e tt)) ∷ []) (map (λ x. (x.1, err (e tt))) l))

module _ {Sys : Type 0} (ext : Ext Sys) where
  -- The channels as queues: each operation changes what it is for, and nothing else.
  pub record Outside (ctx : Context) : Type 0 where
    pub seen : Sys → Seen
    pub aside : Aside ext.streams seen
    pub first :
        (s : Sys) (r : Request) (l : List Request)
        → (seen s).waiting ≡ r ∷ l
        → let (p, s') = ext.requests_stream.poll ctx.recv_create_stream.receiver s in
          (p ≡ ok (ready (some r))) × (seen s' ≡ record (seen s) { waiting = l })
    pub over :
        (s : Sys)
        → (seen s).waiting ≡ []
        → let (p, s') = ext.requests_stream.poll ctx.recv_create_stream.receiver s in
          (p ≡ ok (ready none)) × (seen s' ≡ seen s)
    pub closes :
        (s : Sys) → seen (ext.requests_close.close ctx.recv_create_stream.receiver s) ≡ seen s
    pub answers :
        (n : ℕ) (r : Result Stream Error) (s : Sys)
        → seen (ext.answer_stream n r s) ≡ answer (n, r) (seen s)
    pub connects :
        (n : ℕ) (r : Result Connection Error) (s : Sys)
        → seen (ext.answer_connection n r s) ≡ connect (n, r) (seen s)
    pub tells :
        (m : Message) (s : Sys)
        → seen (ext.msgs.unbounded_send ctx.send_msg m s).1 ≡ tell m (seen s)

  pub each-keeps :
      {A : Type 0} (seen : Sys → A)
      (f : StreamTypes.Context → World Sys → StreamTypes.Context × World Sys)
      → ((s : StreamTypes.Context) (w : World Sys) → seen (f s w).1.sys ≡ seen w.sys)
      → (m : Streams) (w : World Sys) → seen (each ext f m w).1.sys ≡ seen w.sys
  each-keeps seen f k [] w = refl
  each-keeps seen f k ((id, s) ∷ m) w = each-keeps seen f k m (f s w).1 ∙ k s w

  module _ (ctx : Context) (o : Outside ctx) where
    polled-over :
        (w : World Sys)
        → (o.seen w.sys).waiting ≡ []
        → let (p, w') = Channel.poll ext.requests_stream ctx.recv_create_stream w in
          (p ≡ ok (ready none)) × (o.seen w'.sys ≡ o.seen w.sys)
    unfolding Channel.poll
    polled-over w h =
        let (got, same) = o.over w.sys h in (ap (map_err (λ _. from_kind unknown)) got, same)

    polled-first :
        (w : World Sys) (r : Request) (l : List Request)
        → (o.seen w.sys).waiting ≡ r ∷ l
        → let (p, w') = Channel.poll ext.requests_stream ctx.recv_create_stream w in
          (p ≡ ok (ready (some r))) × (o.seen w'.sys ≡ record (o.seen w.sys) { waiting = l })
    unfolding Channel.poll
    polled-first w r l h =
        let (got, same) = o.first w.sys r l h in (ap (map_err (λ _. from_kind unknown)) got, same)

    pub refuse-all :
        (l : List Request) (fuel : ℕ) (e : ErrorFn) (m : Streams) (w : World Sys)
        → (o.seen w.sys).waiting ≡ l
        → length l < fuel
        → (w' : World Sys) × (refuse_requests ext fuel (record ctx { streams = m }) e w ≡ done w')
          × (o.seen w'.sys ≡ refuse e (o.seen w.sys))
    unfolding refuse_requests
    refuse-all l zero e m w h k = absurd (omega arith)
    refuse-all [] (suc fuel) e m w h k =
        let (got, same) = polled-over w h in
        (
          (Channel.poll ext.requests_stream ctx.recv_create_stream w).1,
          rw (got, refuse_requests) refl,
          same ∙ refuse-none e (o.seen w.sys) h,
        )
    refuse-all ((t, sender) ∷ l) (suc fuel) e m w h k =
        let w₁ = (Channel.poll ext.requests_stream ctx.recv_create_stream w).1 in
        let (got, same) = polled-first w (t, sender) l h in
        let w₂ : World Sys = record w₁ { sys = ext.answer_stream sender (err (e tt)) w₁.sys } in
        let now = o.answers sender (err (e tt)) w₁.sys ∙ ap (answer (sender, err (e tt))) same in
        let (w', run, all) = refuse-all l fuel e m w₂ (ap (λ v. v.waiting) now) (omega arith) in
        (
          w',
          rw (got, refuse_requests) run,
          all ∙ ap (refuse e) now ∙ refuse-first e (t, sender) l (o.seen w.sys) h,
        )

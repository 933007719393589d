-- ===== src/Connection/Served.antt =====
-- src/connection.rs: every request for a stream is granted, in order, under the next id.
use picoquic_rs.Base.{
  ℕ, zero, suc, ◌+◌, ◌%◌, ◌^◌, ◌<◌, ◌≡◌, refl, sym, ap, ◌∙◌, Bool, Bool-cases, inl, inr, List, [],
  ◌∷◌, ◌++◌, map, length, append_assoc, append-nil, Option, none, some, Result, ok, err, map_err,
  ready, not_ready, done, arith, ◌==◌, if◌then◌else◌,
}
use picoquic_rs.Errors.{Error, from_kind, unknown}
use picoquic_rs.World.{World}
use picoquic_rs.Channel
use picoquic_rs.Stream.Types.{Stream, SocketAddr}
use picoquic_rs.Stream.Types as StreamTypes
use picoquic_rs.Stream.Receive.{new_stream}
use picoquic_rs.Stream.Id.{StreamType}
use picoquic_rs.Stream.Frame.{Apart, new_stream-keeps}
use picoquic_rs.Ffi.StreamId.{generate_stream_id, generate_stream_id-decode}
use picoquic_rs.Connection.Types.{Context, Ext, Request, Streams, lookup, insert}
use picoquic_rs.Connection.Requests.{Queue}
use picoquic_rs.Connection.Fresh.{OwnBelow, Own-mono, insert-Own, lookup-fresh, after_request}
use picoquic_rs.Connection.Context.{check_create_stream_requests, create_stream}

-- Whom each request is answered, and with which id, from the number `next` on.
unfoldable pub granted : ℕ → Bool → List Request → List (ℕ × ℕ)
granted next is_client [] = []
granted next is_client ((stype, sender) ∷ l) =
    (sender, generate_stream_id next is_client stype) ∷ granted (next + 1) is_client l

-- An answer with a stream under the id.
abbrev pub stream_answer : ℕ × ℕ → ℕ × Option ℕ
stream_answer (sender, id) = (sender, some id)

abbrev pub answer_id : ℕ × Result Stream Error → ℕ × Option ℕ
answer_id (sender, ok s) = (sender, some s.id)
answer_id (sender, err e) = (sender, none)

abbrev pub ids : Streams → List ℕ
ids = map (λ e. e.0)

insert-ids :
    (id : ℕ) (s : StreamTypes.Context) (m : Streams)
    → lookup id m ≡ none
    → ids (insert id s m) ≡ ids m ++ id ∷ []
unfolding insert lookup
insert-ids id s [] h = refl
insert-ids id s ((j, t) ∷ m) h = elim (Bool-cases (j == id)) [
  | inl same ↦ cc (h, same)
  | inr other ↦ rw other (
      ap (λ l. j ∷ l)
        (insert-ids id s m (ap (λ b. if b then some t else lookup id m) (sym other) ∙ h)))
]

module _ {Sys : Type 0} (ext : Ext Sys) where
  -- The requests `l` were granted from `ctx` and `w` to `ctx'` and `w'`.
  pub record Granted (ctx : Context) (answers : World Sys → List (ℕ × Result Stream Error))
      (l : List Request) (w : World Sys) (ctx' : Context) (w' : World Sys) : Type 0 where
    pub new : List (ℕ × Result Stream Error)
    pub answered : answers w' ≡ answers w ++ new
    pub streams : map answer_id new ≡ map stream_answer (granted ctx.next_stream_id ctx.is_client l)
    pub kept :
        ids ctx'.streams
        ≡ ids ctx.streams ++ map (λ g. g.1) (granted ctx.next_stream_id ctx.is_client l)
    pub counted : ctx'.next_stream_id ≡ ctx.next_stream_id + length l

  -- One request granted before others.
  grant-first :
      (ctx ctx₂ ctx' : Context) (t : StreamType) (sender : ℕ) (l : List Request) (stream : Stream)
      (answers : World Sys → List (ℕ × Result Stream Error)) (w w₂ w' : World Sys)
      → ctx₂.next_stream_id ≡ ctx.next_stream_id + 1
      → ctx₂.is_client ≡ ctx.is_client
      → stream.id ≡ generate_stream_id ctx.next_stream_id ctx.is_client t
      → ids ctx₂.streams
        ≡ ids ctx.streams ++ generate_stream_id ctx.next_stream_id ctx.is_client t ∷ []
      → answers w₂ ≡ answers w ++ (sender, ok stream) ∷ []
      → Granted ctx₂ answers l w₂ ctx' w'
      → Granted ctx answers ((t, sender) ∷ l) w ctx' w'
  unfolding granted
  grant-first ctx ctx₂ ctx' t sender l stream answers w w₂ w' next same_side id entry logged g =
      record {
        new = (sender, ok stream) ∷ g.new;
        answered =
            g.answered ∙ rw logged (append_assoc (answers w) ((sender, ok stream) ∷ []) g.new);
        streams = cc (g.streams, id, next, same_side);
        kept =
            g.kept
            ∙ rw (entry, next, same_side)
                (append_assoc (ids ctx.streams)
                  (generate_stream_id ctx.next_stream_id ctx.is_client t ∷ [])
                  (map (λ x. x.1) (granted (ctx.next_stream_id + 1) ctx.is_client l)));
        counted = omega (arith, g.counted, next);
      }

  -- The channel of requests asked once, with a request at the front.
  take-first :
      (recv : Channel.ReceiverWithError ℕ) (w : World Sys) (r : Request) (l : List Request)
      (q : Queue ext recv.receiver not_ready)
      → q.queue w.sys ≡ r ∷ l
      → let (p, w') = Channel.poll ext.requests_stream recv w in
        (p ≡ ok (ready (some r))) × (q.queue w'.sys ≡ l) × (q.answers w'.sys ≡ q.answers w.sys)
  unfolding Channel.poll
  take-first recv w r l q h =
      let (s', polled, rest, same) = q.head w.sys r l h in
      (
        ap (λ x. map_err (λ _. from_kind unknown) x.0) polled,
        ap (λ x. q.queue x.1) polled ∙ rest,
        ap (λ x. q.answers x.1) polled ∙ same,
      )

  new_stream-id :
      (id cnx : ℕ) (addr : SocketAddr) (is_client : Bool) (size : ℕ) (w : World Sys)
      → (new_stream ext.streams id cnx addr is_client size w).0.0.id ≡ id
  unfolding new_stream
  new_stream-id id cnx addr is_client size w = refl

  grant-all :
      (l : List Request) (fuel : ℕ) (ctx : Context) (w : World Sys)
      (q : Queue ext ctx.recv_create_stream.receiver not_ready)
      → Apart ext.streams q.queue
      → Apart ext.streams q.answers
      → q.queue w.sys ≡ l
      → length l < fuel
      → ctx.next_stream_id + length l < 2 ^ 62
      → OwnBelow ctx
      → (ctx' : Context) × (w' : World Sys) × (check_create_stream_requests ext fuel ctx w
          ≡ done (ctx', w'))
        × (q.queue w'.sys ≡ [])
        × Granted ctx (λ v. q.answers v.sys) l w ctx' w'
  unfolding check_create_stream_requests Channel.poll granted
  grant-all l zero ctx w q a b h k n o = absurd (omega arith)
  grant-all [] (suc fuel) ctx w q a b h k n o =
      let (s', polled, none_left, same) = q.empty w.sys h in
      (
        ctx,
        record w { sys = s' },
        rw (check_create_stream_requests, polled)
            (ap (λ x. done (ctx, record w { sys = x.1 })) polled),
        none_left,
        record {
          new = [];
          answered = same ∙ sym (append-nil _);
          streams = refl;
          kept = sym (append-nil _);
          counted = omega arith;
        },
      )
  grant-all ((t, sender) ∷ l) (suc fuel) ctx w q a b h k n o =
      let c = ctx.is_client in
      let w₁ = (Channel.poll ext.requests_stream ctx.recv_create_stream w).1 in
      let (got, left, same) = take-first ctx.recv_create_stream w (t, sender) l q h in
      let id = generate_stream_id ctx.next_stream_id c t in
      let size = ctx.stream_send_channel_default_size in
      let both = new_stream ext.streams id ctx.cnx ctx.local_addr c size w₁ in
      let next = (ctx.next_stream_id + 1) % 2 ^ 64 in
      let next_eq : next ≡ ctx.next_stream_id + 1 = omega arith in
      let ctx₂ : Context = record ctx {
        next_stream_id = next;
        streams = insert id both.0.1 ctx.streams;
      } in
      let parts = generate_stream_id-decode ctx.next_stream_id c t (omega arith) in
      let fresh =
        lookup-fresh c ctx.next_stream_id id ctx.streams o parts.1 (omega (arith, parts.0)) in
      let mine =
        insert-Own c next id both.0.1 ctx.streams (λ _. omega (arith, parts.0))
          (Own-mono c ctx.next_stream_id next ctx.streams (omega arith) o) in
      let (kept, logged) = q.answered sender (ok both.0.0) both.1.sys in
      let quiet = new_stream-keeps ext.streams q.queue a id ctx.cnx ctx.local_addr c size w₁ in
      let unseen = new_stream-keeps ext.streams q.answers b id ctx.cnx ctx.local_addr c size w₁ in
      let (ctx', w', run, over, g) =
        grant-all l fuel ctx₂ (after_request ext ctx t sender w₁) q a b (kept ∙ quiet ∙ left)
          (omega arith) (omega arith) mine in
      (
        ctx',
        w',
        rw (got, check_create_stream_requests, create_stream, fresh) run,
        over,
        grant-first ctx ctx₂ ctx' t sender l both.0.0 (λ v. q.answers v.sys) w
            (after_request ext ctx t sender w₁) w' next_eq refl
            (new_stream-id id ctx.cnx ctx.local_addr c size w₁)
            (insert-ids id both.0.1 ctx.streams fresh)
            (logged ∙ ap (λ x. x ++ (sender, ok both.0.0) ∷ []) (unseen ∙ same)) g,
      )

  -- Where the channel of requests is a queue that, like the answers, no operation of a stream changes,
  -- the fuel exceeds the requests in it, the streams of ours have numbers below the next one and the
  -- numbers stay below 2 ^ 62: the loop returns with the queue empty; every request that was in it was
  -- answered, once and in order, with a stream under the id that `generate_stream_id` makes of the
  -- next number, the connection's side and the type asked for; the contexts of exactly these streams
  -- were added; and the next number is behind the last one used.
  pub check_create_stream_requests-grants :
      (fuel : ℕ) (ctx : Context) (w : World Sys)
      (q : Queue ext ctx.recv_create_stream.receiver not_ready)
      → Apart ext.streams q.queue
      → Apart ext.streams q.answers
      → length (q.queue w.sys) < fuel
      → ctx.next_stream_id + length (q.queue w.sys) < 2 ^ 62
      → OwnBelow ctx
      → (ctx' : Context) × (w' : World Sys) × (check_create_stream_requests ext fuel ctx w
          ≡ done (ctx', w'))
        × (q.queue w'.sys ≡ [])
        × Granted ctx (λ v. q.answers v.sys) (q.queue w.sys) w ctx' w'
  check_create_stream_requests-grants fuel ctx w q a b k n o =
      grant-all (q.queue w.sys) fuel ctx w q a b refl k n o

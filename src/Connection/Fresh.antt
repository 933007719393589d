-- ===== src/Connection/Fresh.antt =====
-- src/connection.rs: the streams that the application asks for get new ids.
use picoquic_rs.Base.{
  ℕ, zero, suc, ◌+◌, ◌/◌, ◌%◌, ◌^◌, ◌≤◌, ◌<◌, ◌≡◌, refl, ap, ◌∙◌, inl, inr, Bool, [], ◌∷◌, none,
  some, ok, ready, done, arith, Bool-cases, Poll-cases, ◌==◌, ==_iff,
}
use picoquic_rs.World.{World, with_sys}
use picoquic_rs.Channel
use picoquic_rs.Stream.Id.{StreamType, is_client_initiated}
use picoquic_rs.Stream.Types as StreamTypes
use picoquic_rs.Stream.Receive.{new_stream}
use picoquic_rs.Ffi.StreamId.{generate_stream_id, generate_stream_id-decode}
use picoquic_rs.Connection.Types.{Context, Ext, Streams, lookup, insert}
use picoquic_rs.Connection.Context.{check_create_stream_requests, create_stream}

-- The streams of ours that are there were made under numbers below the next one.
abbrev pub Own : Bool → ℕ → Streams → Type 0
Own is_client next [] = Unit
Own is_client next ((id, s) ∷ m) =
    (is_client_initiated id ≡ is_client → id / 4 ≤ next) × Own is_client next m

abbrev pub OwnBelow : Context → Type 0
OwnBelow ctx = Own ctx.is_client ctx.next_stream_id ctx.streams

pub lookup-fresh :
    (is_client : Bool) (next id : ℕ) (m : Streams)
    → Own is_client next m
    → is_client_initiated id ≡ is_client
    → next < id / 4
    → lookup id m ≡ none
unfolding lookup
lookup-fresh c next id [] o i h = refl
lookup-fresh c next id ((j, s) ∷ m) o i h = elim (Bool-cases (j == id)) [
  | inl same ↦
      let e = (==_iff j id).0 same in
      absurd (omega (arith, o.0 (ap is_client_initiated e ∙ i), ap (λ x. x / 4) e))
  | inr other ↦ rw other (lookup-fresh c next id m o.1 i h)
]

pub Own-mono :
    (is_client : Bool) (n k : ℕ) (m : Streams) → n ≤ k → Own is_client n m → Own is_client k m
Own-mono c n k [] h o = tt
Own-mono c n k ((id, s) ∷ m) h o = (λ i. omega (arith, o.0 i), Own-mono c n k m h o.1)

pub insert-Own :
    (is_client : Bool) (next id : ℕ) (s : StreamTypes.Context) (m : Streams)
    → (is_client_initiated id ≡ is_client → id / 4 ≤ next)
    → Own is_client next m
    → Own is_client next (insert id s m)
unfolding insert
insert-Own c next id s [] h o = (h, tt)
insert-Own c next id s ((j, t) ∷ m) h o = elim (Bool-cases (j == id)) [
  | inl same ↦ rw same (h, o.1)
  | inr other ↦ rw other (o.0, insert-Own c next id s m h o.1)
]

module _ {Sys : Type 0} (ext : Ext Sys) where
  -- The world after one request was answered.
  abbrev pub after_request : Context → StreamType → ℕ → World Sys → World Sys
  after_request ctx stype sender w =
      let id = generate_stream_id ctx.next_stream_id ctx.is_client stype in
      let ((stream, s), w') =
        new_stream ext.streams id ctx.cnx ctx.local_addr ctx.is_client
          ctx.stream_send_channel_default_size w in
      with_sys w' (ext.answer_stream sender (ok stream))

  -- A bound on the requests that are there: each one that is received and answered lowers it.
  abbrev pub Drains : (World Sys → ℕ) → Type 0
  Drains count =
      (ctx : Context) (w w' : World Sys) (stype : StreamType) (sender : ℕ)
      → Channel.poll ext.requests_stream ctx.recv_create_stream w
        ≡ (ok (ready (some (stype, sender))), w')
      → count (after_request ctx stype sender w') < count w

  -- If the streams of ours that are there have numbers below the next one, and the numbers do not
  -- reach 2 ^ 62 with the requests that are there, answering the requests returns with fuel for one
  -- round more than there are requests: it never meets a stream that is there under the new id, and
  -- the streams of ours have numbers below the next one again.
  pub check_create_stream_requests-fresh :
      (count : World Sys → ℕ) (fuel : ℕ) (ctx : Context) (w : World Sys)
      → Drains count
      → count w < fuel
      → ctx.next_stream_id + count w + 1 < 2 ^ 62
      → OwnBelow ctx
      → (ctx' : Context) × (w' : World Sys) × (check_create_stream_requests ext fuel ctx w
          ≡ done (ctx', w'))
        × OwnBelow ctx'
        × (ctx.next_stream_id ≤ ctx'.next_stream_id)
  unfolding check_create_stream_requests
  check_create_stream_requests-fresh count zero ctx w d h n o = elim h [ ]
  check_create_stream_requests-fresh count (suc fuel) ctx w d h n o =
      elim (Poll-cases (Channel.poll ext.requests_stream ctx.recv_create_stream w).0) [
        | inr (inl (e, got)) ↦ (ctx, w', rw (got, check_create_stream_requests), o, omega arith)
        | inr (inr (inl got)) ↦ (ctx, w', rw (got, check_create_stream_requests), o, omega arith)
        | inr (inr (inr got)) ↦ (ctx, w', rw (got, check_create_stream_requests), o, omega arith)
        | inl ((stype, sender), got) ↦
            let id = generate_stream_id ctx.next_stream_id ctx.is_client stype in
            let parts =
              generate_stream_id-decode ctx.next_stream_id ctx.is_client stype (omega arith) in
            let next = (ctx.next_stream_id + 1) % 2 ^ 64 in
            let both =
              new_stream ext.streams id ctx.cnx ctx.local_addr ctx.is_client
                ctx.stream_send_channel_default_size w' in
            let less = d ctx w w' stype sender (λ i. (got i, w')) in
            let ctx₂ = record ctx {
              next_stream_id = next;
              streams = insert id both.0.1 ctx.streams;
            } in
            let fresh =
              lookup-fresh ctx.is_client ctx.next_stream_id id ctx.streams o parts.1
                (omega (arith, parts.0)) in
            let mine =
              insert-Own ctx.is_client next id both.0.1 ctx.streams (λ _. omega (arith, parts.0))
                (Own-mono ctx.is_client ctx.next_stream_id next ctx.streams (omega arith) o) in
            let (ctx', v, run, own, up) =
              check_create_stream_requests-fresh count fuel ctx₂ (after_request ctx stype sender w')
                d (omega (arith, less)) (omega (arith, less)) mine in
            (
              ctx',
              v,
              rw (got, check_create_stream_requests, create_stream, fresh) run,
              own,
              omega arith,
            )
      ]
    where
      w' : World Sys
      w' = (Channel.poll ext.requests_stream ctx.recv_create_stream w).1

-- ===== src/Connection/Answering.antt =====
-- src/connection.rs: what answering the requests for streams keeps of what waits.
use picoquic_rs.Base.{
  ℕ, Bool, zero, suc, none, ◌+◌, ◌%◌, ◌^◌, ◌<◌, ◌≤◌, ◌≡◌, refl, sym, ap, subst, ◌∙◌, arith, inl,
  inr, [], List, some, Result, ok, err, ready, map_err, Poll-cases, Option-cases, Post, Post-mono,
}
use picoquic_rs.Errors.{from_kind, unknown}
use picoquic_rs.World.{World}
use picoquic_rs.Channel
use picoquic_rs.Stream.Types.{Message}
use picoquic_rs.Stream.Id.{StreamType}
use picoquic_rs.Stream.Receive.{new_stream}
use picoquic_rs.Stream.Frame.{new_stream-keeps}
use picoquic_rs.Ffi.StreamId.{generate_stream_id}
use picoquic_rs.Connection.Types.{Context, Ext, Request, insert, lookup}
use picoquic_rs.Connection.Context.{check_create_stream_requests, create_stream}
use picoquic_rs.Connection.Fresh.{Drains, after_request}
use picoquic_rs.Connection.Waiting.{Waiting, Channels, channels, Good, Good-Less, Less}
use picoquic_rs.Connection.Newcomers.{channels-new, new_stream-Good}

map_err-ok : {A E F : Type 0} (f : E → F) (r : Result A E) (a : A) → map_err f r ≡ ok a → r ≡ ok a
map_err-ok f (ok x) a h = ground (arith, h)
map_err-ok f (err x) a h = ground (arith, h)

module _ {Sys : Type 0} (ext : Ext Sys) (k : Waiting ext) where
  polled-asked :
      (r : Channel.ReceiverWithError ℕ) (w : World Sys)
      → k.asked (Channel.poll ext.requests_stream r w).1.sys ≤ k.asked w.sys
  unfolding Channel.poll
  polled-asked r w = k.no_more r.receiver w.sys

  pub polled-Less :
      (i : ℕ → Bool) (r : Channel.ReceiverWithError ℕ) (w : World Sys)
      → Less ext k i w.sys (Channel.poll ext.requests_stream r w).1.sys
  unfolding Channel.poll
  polled-Less i r w = (
    omega (arith, k.next_request r.receiver w.sys),
    λ d h. inl (k.polls_request d r.receiver w.sys),
  )

  after_request-asked :
      (ctx : Context) (t : StreamType) (sender : ℕ) (w : World Sys)
      → k.asked (after_request ext ctx t sender w).sys ≡ k.asked w.sys
  after_request-asked ctx t sender w =
      let id = generate_stream_id ctx.next_stream_id ctx.is_client t in
      let size = ctx.stream_send_channel_default_size in
      let made = new_stream ext.streams id ctx.cnx ctx.local_addr ctx.is_client size w in
      k.rest_asked.answers sender (ok made.0.0) made.1.sys
      ∙ new_stream-keeps ext.streams k.asked k.apart id ctx.cnx ctx.local_addr ctx.is_client size w

  received-asked :
      (ctx : Context) (w w' : World Sys) (r : Request)
      → Channel.poll ext.requests_stream ctx.recv_create_stream w ≡ (ok (ready (some r)), w')
      → k.asked w'.sys < k.asked w.sys
  unfolding Channel.poll
  received-asked ctx w w' r got =
      let c = ctx.recv_create_stream.receiver in
      let polled = ext.requests_stream.poll c w.sys in
      let first : polled.0 ≡ ok (ready (some r)) =
        map_err-ok (λ _. from_kind unknown) polled.0 (ready (some r)) (ap (λ x. x.0) got) in
      let after : polled.1 ≡ w'.sys = ap (λ x. x.1.sys) got in
      omega (arith, k.received c w.sys r first, ap k.asked after)

  pub asked-Drains : Drains ext (λ w. k.asked w.sys)
  asked-Drains ctx w w' t sender got =
      omega (arith, after_request-asked ctx t sender w', received-asked ctx w w' (t, sender) got)

  module _ (Q : List Message → Type 0) (q : Q []) (others : List Channels) where
    -- What answering requests keeps, where numbers and requests stay within a bound.
    abbrev pub Asked : Context → World Sys → Context × World Sys → Type 0
    Asked ctx w x =
        Good ext k Q (channels x.0.streams) others x.1.sys
        × (k.asked x.1.sys ≤ k.asked w.sys)
        × (x.0.next_stream_id + k.asked x.1.sys ≤ ctx.next_stream_id + k.asked w.sys)
        × (x.0.cnx ≡ ctx.cnx)
        × (x.0.is_client ≡ ctx.is_client)

    after_request-Good :
        (ctx : Context) (t : StreamType) (sender : ℕ) (w : World Sys)
        → let id = generate_stream_id ctx.next_stream_id ctx.is_client t in
          lookup id ctx.streams ≡ none
          → Good ext k Q (channels ctx.streams) others w.sys
          → let made =
              new_stream ext.streams id ctx.cnx ctx.local_addr ctx.is_client
                ctx.stream_send_channel_default_size w in
            Good ext k Q
              (channels (insert id made.0.1 ctx.streams))
              others
              (after_request ext ctx t sender w).sys
    after_request-Good ctx t sender w free g =
        let id = generate_stream_id ctx.next_stream_id ctx.is_client t in
        let size = ctx.stream_send_channel_default_size in
        let made = new_stream ext.streams id ctx.cnx ctx.local_addr ctx.is_client size w in
        let l = channels (insert id made.0.1 ctx.streams) in
        let g₁ : Good ext k Q l others made.1.sys =
          subst (λ l. Good ext k Q l others made.1.sys)
            (sym (channels-new id made.0.1 ctx.streams free))
            (new_stream-Good ext k Q q (channels ctx.streams) others id ctx.cnx ctx.local_addr
              ctx.is_client size w g) in
        Good-Less ext k Q q l others made.1.sys (after_request ext ctx t sender w).sys g₁ (
          omega (arith, k.next_rest.answers sender (ok made.0.0) made.1.sys),
          λ d h. inl ((k.rest d).answers sender (ok made.0.0) made.1.sys),
        )

    pub check_create_stream_requests-Asked :
        (fuel : ℕ) (ctx : Context) (w : World Sys)
        → Good ext k Q (channels ctx.streams) others w.sys
        → Post (Asked ctx w) (check_create_stream_requests ext fuel ctx w)
    unfolding check_create_stream_requests create_stream
    check_create_stream_requests-Asked zero ctx w g = tt
    check_create_stream_requests-Asked (suc fuel) ctx w g =
        let r = ctx.recv_create_stream in
        let w₁ = (Channel.poll ext.requests_stream r w).1 in
        let g₁ =
          Good-Less ext k Q q (channels ctx.streams) others w.sys w₁.sys g
            (polled-Less g.is_control r w) in
        let fewer = polled-asked r w in
        let stop : Asked ctx w (ctx, w₁) = (g₁, fewer, omega (arith, fewer), refl, refl) in
        elim (Poll-cases (Channel.poll ext.requests_stream r w).0) [
          | inr (inl (e, got)) ↦ rw (got, check_create_stream_requests) stop
          | inr (inr (inl got)) ↦ rw (got, check_create_stream_requests) stop
          | inr (inr (inr got)) ↦ rw (got, check_create_stream_requests) stop
          | inl ((t, sender), got) ↦
              let id = generate_stream_id ctx.next_stream_id ctx.is_client t in
              elim (Option-cases (lookup id ctx.streams)) [
                | inr (s, there) ↦ rw (got, check_create_stream_requests, create_stream, there) tt
                | inl free ↦
                    let made =
                      new_stream ext.streams id ctx.cnx ctx.local_addr ctx.is_client
                        ctx.stream_send_channel_default_size w₁ in
                    let ctx₂ : Context = record ctx {
                      next_stream_id = (ctx.next_stream_id + 1) % 2 ^ 64;
                      streams = insert id made.0.1 ctx.streams;
                    } in
                    let w₂ = after_request ext ctx t sender w₁ in
                    let level = after_request-asked ctx t sender w₁ in
                    let less = received-asked ctx w w₁ (t, sender) (λ j. (got j, w₁)) in
                    rw (got, check_create_stream_requests, create_stream, free)
                      (Post-mono (Asked ctx₂ w₂) (Asked ctx w)
                        (check_create_stream_requests ext fuel ctx₂ w₂)
                        (λ x (g', fewer', bound, cnx, side). (
                          g',
                          omega (arith, fewer', level, less),
                          omega (arith, bound, level, less),
                          cnx,
                          side,
                        ))
                        (check_create_stream_requests-Asked fuel ctx₂ w₂
                          (after_request-Good ctx t sender w₁ free g₁)))
              ]
        ]

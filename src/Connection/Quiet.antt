-- ===== src/Connection/Quiet.antt =====
-- src/connection.rs: what the polls of a connection's streams and the refusing of requests leave alone.
use picoquic_rs.Base.{
  ℕ, zero, suc, ◌≡◌, ◌∙◌, [], ◌∷◌, Bool-cases, inl, inr, err, Post, Poll, Post-bind, Poll-cases,
  if◌then◌else◌,
}
use picoquic_rs.Errors.{Error, ErrorFn}
use picoquic_rs.World.{World}
use picoquic_rs.Channel
use picoquic_rs.Stream.Types as StreamTypes
use picoquic_rs.Stream.Receive.{drop_context}
use picoquic_rs.Stream.Drive as Stream
use picoquic_rs.Stream.Aside.{Aside, drop_context-keeps}
use picoquic_rs.Stream.Unseen.{poll-keeps}
use picoquic_rs.Connection.Types.{Context, Ext, Streams}
use picoquic_rs.Connection.Context.{keeps, refuse_requests, retain_streams}

module _ {Sys : Type 0} (ext : Ext Sys) {A : Type 0} (seen : Sys → A) where
  -- No operation of the streams changes what is seen, nor do the polls, nor the refusal of a request.
  pub record Quiet : Type 0 where
    pub aside : Aside ext.streams seen
    pub polls : (c : ℕ) (s : Sys) → seen (ext.requests_stream.poll c s).1 ≡ seen s
    pub closes : (c : ℕ) (s : Sys) → seen (ext.requests_close.close c s) ≡ seen s
    pub polls_close : (c : ℕ) (s : Sys) → seen (ext.poll_close c s).1 ≡ seen s
    pub refuses : (n : ℕ) (e : Error) (s : Sys) → seen (ext.answer_stream n (err e) s) ≡ seen s

  module _ (k : Quiet) (c : A) where
    dropped-keeps :
        (x : Poll (Unit {0}) Error × StreamTypes.Context × World Sys)
        → seen x.2.sys ≡ c
        → seen (if keeps ext x.0 then x.2 else drop_context ext.streams x.1 x.2).sys ≡ c
    dropped-keeps x l = elim (Bool-cases (keeps ext x.0)) [
      | inl e ↦ rw e l
      | inr e ↦ rw e (drop_context-keeps ext.streams seen k.aside x.1 x.2 ∙ l)
    ]

    pub retain_streams-keeps :
        (fuel : ℕ) (m : Streams) (w : World Sys)
        → seen w.sys ≡ c
        → Post (λ x. seen x.1.sys ≡ c) (retain_streams ext fuel m w)
    unfolding retain_streams
    retain_streams-keeps fuel [] w h = h
    retain_streams-keeps fuel ((id, s) ∷ m) w h =
        Post-bind (λ x. seen x.2.sys ≡ c) (λ x. seen x.1.sys ≡ c) (Stream.poll ext.streams fuel s w)
          _ (poll-keeps ext.streams seen k.aside c fuel s w h)
          (λ x l.
            let w₂ : World Sys = if keeps ext x.0 then x.2 else drop_context ext.streams x.1 x.2 in
            Post-bind (λ y. seen y.1.sys ≡ c) (λ y. seen y.1.sys ≡ c) (retain_streams ext fuel m w₂)
              _ (retain_streams-keeps fuel m w₂ (dropped-keeps x l)) (λ y o. o))

    pub polled-keeps :
        (r : Channel.ReceiverWithError ℕ) (w : World Sys)
        → seen (Channel.poll ext.requests_stream r w).1.sys ≡ seen w.sys
    unfolding Channel.poll
    polled-keeps r w = k.polls r.receiver w.sys

    pub refuse_requests-keeps :
        (fuel : ℕ) (ctx : Context) (e : ErrorFn) (w : World Sys)
        → seen w.sys ≡ c
        → Post (λ v. seen v.sys ≡ c) (refuse_requests ext fuel ctx e w)
    unfolding refuse_requests
    refuse_requests-keeps zero ctx e w h = tt
    refuse_requests-keeps (suc fuel) ctx e w h =
        let (r, w₁) = Channel.poll ext.requests_stream ctx.recv_create_stream w in
        let same = polled-keeps ctx.recv_create_stream w ∙ h in
        elim (Poll-cases r) [
          | inl ((t, sender), got) ↦
              rw (got, refuse_requests)
                (refuse_requests-keeps fuel ctx e
                  (record w₁ { sys = ext.answer_stream sender (err (e tt)) w₁.sys })
                  (k.refuses sender (e tt) w₁.sys ∙ same))
          | inr (inl (x, got)) ↦ rw (got, refuse_requests) same
          | inr (inr (inl got)) ↦ rw (got, refuse_requests) same
          | inr (inr (inr got)) ↦ rw (got, refuse_requests) same
        ]

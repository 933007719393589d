-- ===== src/Connection/Refusal.antt =====
-- src/connection.rs: every request for a stream that is still there is answered when the connection
-- fails.
use picoquic_rs.Base.{
  ℕ, zero, suc, ◌<◌, ◌≡◌, refl, sym, ap, ◌∙◌, List, [], ◌∷◌, ◌++◌, map, length, append_assoc,
  append-nil, none, Result, err, ready, Exec, done, arith,
}
use picoquic_rs.Errors.{Error, ErrorFn}
use picoquic_rs.World.{World}
use picoquic_rs.Channel
use picoquic_rs.Stream.Types.{Stream}
use picoquic_rs.Connection.Types.{Context, Ext, Request}
use picoquic_rs.Connection.Requests.{Queue}
use picoquic_rs.Connection.Context.{refuse_requests}

module _ {Sys : Type 0} (ext : Ext Sys) where
  abbrev refusal : ErrorFn → Request → ℕ × Result Stream Error
  refusal e (_, sender) = (sender, err (e tt))

  -- The loop returns with the requests `l` taken and refused one by one.
  refuse_requests-all :
      (l : List Request) (fuel : ℕ) (ctx : Context) (e : ErrorFn) (w : World Sys)
      (q : Queue ext ctx.recv_create_stream.receiver (ready none))
      → q.queue w.sys ≡ l
      → length l < fuel
      → (w' : World Sys) × (refuse_requests ext fuel ctx e w ≡ done w')
        × (q.queue w'.sys ≡ [])
        × (q.answers w'.sys ≡ q.answers w.sys ++ map (refusal e) l)
  unfolding refuse_requests Channel.poll
  refuse_requests-all l zero ctx e w q h k = absurd (omega arith)
  refuse_requests-all [] (suc fuel) ctx e w q h k =
      let (s', polled, none_left, same) = q.empty w.sys h in
      (
        record w { sys = s' },
        rw (refuse_requests, polled) (ap (λ x. done (record w { sys = x.1 })) polled),
        none_left,
        same ∙ sym (append-nil _),
      )
  refuse_requests-all ((t, sender) ∷ l) (suc fuel) ctx e w q h k =
      let (s', polled, rest, same) = q.head w.sys (t, sender) l h in
      let (kept, logged) = q.answered sender (err (e tt)) s' in
      let go : Sys → Exec (World Sys) = λ v.
        refuse_requests ext fuel ctx e
          (record w { sys = ext.answer_stream sender (err (e tt)) v }) in
      let w₁ : World Sys = record w { sys = ext.answer_stream sender (err (e tt)) s' } in
      let (w', run, over, all) =
        refuse_requests-all l fuel ctx e w₁ q (kept ∙ rest) (omega arith) in
      (
        w',
        rw (refuse_requests, polled) (ap (λ x. go x.1) polled ∙ run),
        over,
        all
            ∙ rw (logged, same)
                (append_assoc (q.answers w.sys) (refusal e (t, sender) ∷ []) (map (refusal e) l)),
      )

  -- If the channel of requests is a queue and the fuel exceeds the requests in it, the loop of
  -- `check_and_handle_error` returns with the queue empty, and has answered every request that was in
  -- it, in order and once, with the error.
  pub refuse_requests-answers :
      (fuel : ℕ) (ctx : Context) (e : ErrorFn) (w : World Sys)
      (q : Queue ext ctx.recv_create_stream.receiver (ready none))
      → length (q.queue w.sys) < fuel
      → (w' : World Sys) × (refuse_requests ext fuel ctx e w ≡ done w')
        × (q.queue w'.sys ≡ [])
        × (q.answers w'.sys ≡ q.answers w.sys ++ map (λ r. (r.1, err (e tt))) (q.queue w.sys))
  refuse_requests-answers fuel ctx e w q k = refuse_requests-all _ fuel ctx e w q refl k

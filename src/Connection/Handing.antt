-- ===== src/Connection/Handing.antt =====
-- src/connection.rs: handing a stream to the application, and the ids of the streams that are served.
use picoquic_rs.Base.{
  ℕ, ◌≡◌, refl, sym, ap, subst, ◌∙◌, List, [], ◌∷◌, ◌++◌, append_assoc, append-nil, none,
  Bool-cases, inl, inr, Result, ok, Post, Post-bind, Post-always, if◌then◌else◌,
}
use picoquic_rs.Errors.{Error}
use picoquic_rs.World.{World}
use picoquic_rs.Stream.Types.{Stream, Event, almost_ready, callback_close, application_close}
use picoquic_rs.Stream.Types as StreamTypes
use picoquic_rs.Stream.Receive.{drop_context}
use picoquic_rs.Stream.Drive as Stream
use picoquic_rs.Connection.Types.{Connection, Context, Ext, Message, Streams, lookup, insert}
use picoquic_rs.Connection.Context.{each, keeps, retain_streams}
use picoquic_rs.Connection.Quiet.{Quiet}
use picoquic_rs.Connection.Serves.{
  ids, Serves, rest, opened, ended, Serves-trans, Serves-behind, lookup-Free, insert-new,
}

module _ {Sys : Type 0} (ext : Ext Sys) where
  pub ids-each :
      (f : StreamTypes.Context → World Sys → StreamTypes.Context × World Sys) (m : Streams)
      (w : World Sys)
      → ids (each ext f m w).0 ≡ ids m
  ids-each f [] w = refl
  ids-each f ((id, s) ∷ m) w = ap (λ l. id ∷ l) (ids-each f m (f s w).1)

  pub retain_streams-ids :
      (fuel : ℕ) (m : Streams) (w : World Sys)
      → Post (λ x. Serves (ids m) [] (ids x.0)) (retain_streams ext fuel m w)
  unfolding retain_streams
  retain_streams-ids fuel [] w = rest
  retain_streams-ids fuel ((id, s) ∷ m) w =
      Post-bind (λ x. Unit {0}) (λ x. Serves (id ∷ ids m) [] (ids x.0))
        (Stream.poll ext.streams fuel s w) _ (Post-always _ _ (λ x. tt))
        (λ x l.
          let w₂ : World Sys = if keeps ext x.0 then x.2 else drop_context ext.streams x.1 x.2 in
          Post-bind (λ y. Serves (ids m) [] (ids y.0)) (λ y. Serves (id ∷ ids m) [] (ids y.0))
            (retain_streams ext fuel m w₂) _ (retain_streams-ids fuel m w₂)
            (λ y o. elim (Bool-cases (keeps ext x.0)) [
              | inl e ↦ rw e (Serves-behind id (ids m) [] (ids y.0) o refl)
              | inr e ↦ rw e (ended [] (ids m) id refl o)
            ]))

  -- The ids of the streams that were handed to the application, the newest last: with the answer to
  -- a request and with the message that announces a stream of the peer. Nothing else changes them.
  pub record Handing : Type 0 where
    pub handed : Sys → List ℕ
    pub quiet : Quiet ext handed
    pub grants :
        (n : ℕ) (st : Stream) (s : Sys)
        → handed (ext.answer_stream n (ok st) s) ≡ handed s ++ st.id ∷ []
    pub announces :
        (c : ℕ) (st : Stream) (s : Sys)
        → handed (ext.msgs.unbounded_send c (Message.new_stream st) s).1 ≡ handed s ++ st.id ∷ []
    pub tells_close :
        (c : ℕ) (s : Sys) → handed (ext.msgs.unbounded_send c Message.close s).1 ≡ handed s
    pub tells_error :
        (c : ℕ) (e : Error) (s : Sys)
        → handed (ext.msgs.unbounded_send c (Message.error e) s).1 ≡ handed s
    pub connects :
        (n : ℕ) (r : Result Connection Error) (s : Sys)
        → handed (ext.answer_connection n r s) ≡ handed s

  module _ (k : Handing) where
    -- What was handed over on the way, and what became of the ids of the streams that are served.
    abbrev pub Hands : Streams → World Sys → Streams → World Sys → Type 0
    Hands m w m' w' =
        (hs : List ℕ) × (k.handed w'.sys ≡ k.handed w.sys ++ hs) × Serves (ids m) hs (ids m')

    abbrev pub HandsTo : Context → World Sys → Context × World Sys → Type 0
    HandsTo ctx w x = Hands ctx.streams w x.0.streams x.1

    pub Hands-trans :
        (m m' m'' : Streams) (w w' w'' : World Sys)
        → Hands m w m' w'
        → Hands m' w' m'' w''
        → Hands m w m'' w''
    Hands-trans m m' m'' w w' w'' (hs, e, s) (ks, f, t) = (
      hs ++ ks,
      f ∙ ap (λ l. l ++ ks) e ∙ append_assoc (k.handed w.sys) hs ks,
      Serves-trans (ids m) hs (ids m') ks (ids m'') s t,
    )

    -- Nothing is handed over, and streams end at most.
    pub Hands-none :
        (m m' : Streams) (w w' : World Sys)
        → k.handed w'.sys ≡ k.handed w.sys
        → Serves (ids m) [] (ids m')
        → Hands m w m' w'
    Hands-none m m' w w' same s = ([], same ∙ sym (append-nil (k.handed w.sys)), s)

    pub Hands-same :
        (m m' : Streams) (w w' : World Sys)
        → k.handed w'.sys ≡ k.handed w.sys
        → ids m' ≡ ids m
        → Hands m w m' w'
    Hands-same m m' w w' same e =
        Hands-none m m' w w' same (subst (λ l. Serves (ids m) [] l) (sym e) rest)

    -- A stream is handed over and served under a new id.
    pub Hands-new :
        (id : ℕ) (s : StreamTypes.Context) (m : Streams) (w w' : World Sys)
        → lookup id m ≡ none
        → k.handed w'.sys ≡ k.handed w.sys ++ id ∷ []
        → Hands m w (insert id s m) w'
    Hands-new id s m w w' got e = (
      id ∷ [],
      e,
      opened id (lookup-Free id m got)
          (subst (λ l. Serves (ids m ++ id ∷ []) [] l) (sym (insert-new id s m got)) rest),
    )

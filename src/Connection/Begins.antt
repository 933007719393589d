-- ===== src/Connection/Begins.antt =====
-- src/connection.rs: what the beginning of a connection leaves alone.
use picoquic_rs.Base.{ℕ, ◌≡◌, refl, ◌∙◌, Bool, true, Option, none, some, Result, ok, err}
use picoquic_rs.Errors.{Error}
use picoquic_rs.World
use picoquic_rs.World.{World}
use picoquic_rs.Channel
use picoquic_rs.Stream.Types.{SocketAddr}
use picoquic_rs.Ffi.MicroSeconds.{Duration, as_micro_seconds}
use picoquic_rs.Connection.Types.{Ext}
use picoquic_rs.Connection.Context as Con
use picoquic_rs.Connection.Callback.{create, create_builder}

module _ {Sys : Type 0} (ext : Ext Sys) {A : Type 0} (seen : Sys → A) where
  -- No operation that makes a connection changes what is seen.
  pub record Begins : Type 0 where
    pub channel : (s : Sys) → seen (ext.msgs.unbounded s).1 ≡ seen s
    pub oneshot : (s : Sys) → seen (ext.create_oneshot s).1 ≡ seen s
    pub create_requests : (s : Sys) → seen (ext.create_requests s).1 ≡ seen s
    pub polls : (c : ℕ) (s : Sys) → seen (ext.requests_stream.poll c s).1 ≡ seen s
    pub calls : (c : World.Call) (s : Sys) → seen (ext.streams.call c s) ≡ seen s

  module _ (b : Begins) where
    new_context-keeps :
        (cnx send recv : ℕ) (client : Bool) (local : SocketAddr) (size : ℕ) (w : World Sys)
        → seen (Con.new_context ext cnx send recv client local size w).1.sys ≡ seen w.sys
    unfolding Con.new_context Channel.pair Channel.poll
    new_context-keeps cnx send recv client local size w =
        let ((s, r), v) = ext.create_requests w.sys in
        b.calls (World.set_callback cnx true) (ext.requests_stream.poll r v).1
        ∙ b.polls r v
        ∙ b.create_requests w.sys

    pub create_builder-keeps :
        (cnx : ℕ) (peer local : SocketAddr) (client : Bool) (keep : Option Duration) (size : ℕ)
        (w : World Sys)
        → seen (create_builder ext cnx peer local client keep size w).1.sys ≡ seen w.sys
    unfolding create_builder
    create_builder-keeps cnx peer local client keep size w =
        let (m, s₁) = ext.msgs.unbounded w.sys in
        let ((a, r), s₂) = ext.create_oneshot s₁ in
        let begun =
          new_context-keeps cnx m r client local size (record w { sys = s₂ })
          ∙ b.oneshot s₁
          ∙ b.channel w.sys in
        elim keep
          as (λ o. seen (create_builder ext cnx peer local client o size w).1.sys ≡ seen w.sys) [
            | none ↦ begun
            | some d ↦ b.calls (World.enable_keep_alive cnx (as_micro_seconds d)) _ ∙ begun
          ]

    pub create-keeps :
        (cnx : Result ℕ Error) (peer local : SocketAddr) (keep : Option Duration) (sender size : ℕ)
        (w : World Sys)
        → seen (create ext cnx peer local keep sender size w).1.sys ≡ seen w.sys
    unfolding create
    create-keeps (err e) peer local keep sender size w = refl
    create-keeps (ok cnx) peer local keep sender size w =
        create_builder-keeps cnx peer local true keep size w

-- ===== src/Connection/Released.antt =====
-- src/connection.rs: what giving up a reference to a connection's context, and dropping it with its
-- streams, leaves alone.
use picoquic_rs.Base.{
  ℕ, ◌-◌, ◌≡◌, refl, ◌∙◌, arith, inl, inr, Bool, false, Bool-cases, ◌==◌, [], ◌∷◌,
}
use picoquic_rs.World
use picoquic_rs.World.{World}
use picoquic_rs.Stream.Types as StreamTypes
use picoquic_rs.Stream.Receive.{drop_context}
use picoquic_rs.Stream.Aside.{Aside, drop_context-keeps}
use picoquic_rs.Connection.Types.{Ext, Streams}
use picoquic_rs.Connection.Context.{drop, drop_streams}
use picoquic_rs.Connection.Callback.{Shared, release}
use picoquic_rs.Connection.Waiting.{Waiting, channels, All, Less, Less-trans}
use picoquic_rs.Connection.Retained.{dropped-Less, dropped-asked}

module _ {Sys : Type 0} (ext : Ext Sys) where
  -- What holds of a world, and of it after the drop of the context, holds after giving up a reference.
  release-either :
      (P : World Sys → Type 0) (s : Shared) (w : World Sys)
      → P w
      → P (drop ext s.context w)
      → P (release ext s w).1
  unfolding release
  release-either P s w p q = elim (Bool-cases (s.strong - 1 == 0)) [
    | inl last ↦ rw last q
    | inr other ↦ rw other p
  ]

  module _ {A : Type 0} (seen : Sys → A)
      (called : (c : World.Call) (s : Sys) → seen (ext.streams.call c s) ≡ seen s)
      (dropped : (s : StreamTypes.Context) (w : World Sys)
        → seen (drop_context ext.streams s w).sys ≡ seen w.sys) where
    drop_streams-keeps :
        (m : Streams) (w : World Sys) → seen (drop_streams ext m w).sys ≡ seen w.sys
    unfolding drop_streams
    drop_streams-keeps [] w = refl
    drop_streams-keeps ((id, s) ∷ m) w =
        drop_streams-keeps m (drop_context ext.streams s w) ∙ dropped s w

    release-same : (s : Shared) (w : World Sys) → seen (release ext s w).1.sys ≡ seen w.sys
    unfolding drop
    release-same s w =
        let call = World.set_callback s.context.cnx false in
        let w₁ : World Sys = record w {
          sys = ext.streams.call call w.sys;
          calls = call ∷ w.calls;
        } in
        release-either (λ v. seen v.sys ≡ seen w.sys) s w refl
          (drop_streams-keeps s.context.streams w₁ ∙ called call w.sys)

  -- What no operation of the streams changes.
  pub release-keeps :
      {A : Type 0} (seen : Sys → A)
      → Aside ext.streams seen
      → (s : Shared) (w : World Sys) → seen (release ext s w).1.sys ≡ seen w.sys
  release-keeps seen a s w =
      release-same seen a.apart.called (drop_context-keeps ext.streams seen a) s w

  module _ (k : Waiting ext) where
    pub release-asked :
        (s : Shared) (w : World Sys) → k.asked (release ext s w).1.sys ≡ k.asked w.sys
    release-asked s w = release-same k.asked k.apart.called (dropped-asked ext k) s w

    drop_streams-Less :
        (i : ℕ → Bool) (m : Streams) (w : World Sys)
        → All (λ c. i c.0 ≡ false) (channels m)
        → Less ext k i w.sys (drop_streams ext m w).sys
    unfolding drop_streams
    drop_streams-Less i [] w h = (omega arith, λ d e. inl refl)
    drop_streams-Less i ((id, s) ∷ m) w h =
        let w₁ = drop_context ext.streams s w in
        Less-trans ext k i w.sys w₁.sys (drop_streams ext m w₁).sys (dropped-Less ext k i s w h.0)
          (drop_streams-Less i m w₁ h.1)

    -- Nothing comes in on the channels of control messages.
    pub release-Less :
        (i : ℕ → Bool) (s : Shared) (w : World Sys)
        → All (λ c. i c.0 ≡ false) (channels s.context.streams)
        → Less ext k i w.sys (release ext s w).1.sys
    unfolding drop
    release-Less i s w h =
        let call = World.set_callback s.context.cnx false in
        let w₁ : World Sys = record w {
          sys = ext.streams.call call w.sys;
          calls = call ∷ w.calls;
        } in
        let m = s.context.streams in
        release-either (λ v. Less ext k i w.sys v.sys) s w (omega arith, λ d e. inl refl)
          (Less-trans ext k i w.sys w₁.sys (drop_streams ext m w₁).sys
            (
              omega (arith, k.next_rest.ends.calls call w.sys),
              λ d e. inl ((k.rest d).ends.calls call w.sys),
            )
            (drop_streams-Less i m w₁ h))

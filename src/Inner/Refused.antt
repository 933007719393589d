-- ===== src/Inner/Refused.antt =====
-- src/context_inner.rs: which requests for connections the future survives.
use picoquic_rs.Base.{
  ℕ, zero, suc, ◌<◌, ◌≡◌, refl, ◌∙◌, arith, inl, inr, Bool, true, false, ◌&&◌, not, Bool-cases,
  List, [], ◌∷◌, length, Option, some, Result, ok, err, ready, not_ready, Exec, done, panic,
  if◌then◌else◌, ◌==◌,
}
use picoquic_rs.Errors.{Error, from_kind, from_foreign, unknown, nul_error}
use picoquic_rs.World.{World, on_sys}
use picoquic_rs.Stream.Types.{SocketAddr}
use picoquic_rs.Ffi.Cnx.{new_cnx}
use picoquic_rs.Ffi.MicroSeconds.{Duration}
use picoquic_rs.Connection.Callback.{create}
use picoquic_rs.Connection.Begins.{Begins, create-keeps}
use picoquic_rs.Inner.Accept.{
  CContext, Ext, NewConnectionMsg, check_for_new_connection_request, push_made,
}
use Prim.Native.String.{String}

-- A run that panics or one that returns.
abbrev pub Survives : {A : Type 0} → Bool → Exec A → Type 0
Survives {A = A} true m = (x : A) × (m ≡ done x)
Survives false m = m ≡ panic

module _ {Sys : Type 0} (ext : Ext Sys) (recv : ℕ) where
  -- The requests for connections are a queue, which nothing else changes.
  pub record Queued : Type 0 where
    pub waiting : Sys → List NewConnectionMsg
    pub first :
        (s : Sys) (m : NewConnectionMsg) (l : List NewConnectionMsg)
        → waiting s ≡ m ∷ l
        → ((ext.requests.poll recv s).0 ≡ ok (ready (some m)))
          × (waiting (ext.requests.poll recv s).1 ≡ l)
    pub over : (s : Sys) → waiting s ≡ [] → (ext.requests.poll recv s).0 ≡ ok not_ready
    pub client :
        (a : SocketAddr) (n : String) (t : ℕ) (s : Sys)
        → waiting (ext.create_client_cnx a n t s).1 ≡ waiting s
    pub begins : Begins ext.con waiting

  abbrev pub all_specified : List NewConnectionMsg → Bool
  all_specified [] = true
  all_specified ((addr, name, sender) ∷ l) = not (ext.is_unspecified addr) && all_specified l

  module _ (q : Queued) where
    -- The connection for an address that is specified, or why there is none.
    new_cnx-done :
        (addr : SocketAddr) (name : String) (now : ℕ) (w : World Sys)
        → ext.is_unspecified addr ≡ false
        → (r : Result ℕ Error) × (v : World Sys) × (new_cnx
              (ext.is_unspecified addr)
              (ext.has_nul name)
              (λ u. on_sys u (ext.create_client_cnx addr name now u.sys))
              w
            ≡ done (r, v))
          × (q.waiting v.sys ≡ q.waiting w.sys)
    unfolding new_cnx
    new_cnx-done addr name now w h = elim (Bool-cases (ext.has_nul name)) [
      | inl nul ↦ (err (from_foreign nul_error), w, rw (h, nul, new_cnx) refl, refl)
      | inr fine ↦
          let (ptr, s) = ext.create_client_cnx addr name now w.sys in
          (
            if ptr == 0 then err (from_kind unknown) else ok ptr,
            record w { sys = s },
            rw (h, fine, new_cnx) refl,
            q.client addr name now w.sys,
          )
    ]

    new_cnx-panic :
        (addr : SocketAddr) (name : String) (now : ℕ) (w : World Sys)
        → ext.is_unspecified addr ≡ true
        → new_cnx
            (ext.is_unspecified addr)
            (ext.has_nul name)
            (λ u. on_sys u (ext.create_client_cnx addr name now u.sys))
            w
          ≡ panic
    unfolding new_cnx
    new_cnx-panic addr name now w h = rw (h, new_cnx) refl

    survives :
        (l : List NewConnectionMsg) (fuel now size : ℕ) (local_addr : SocketAddr)
        (keep_alive : Option Duration) (c : CContext) (w : World Sys)
        → q.waiting w.sys ≡ l
        → length l < fuel
        → Survives
            (all_specified l)
            (check_for_new_connection_request ext fuel recv local_addr now keep_alive size c w)
    unfolding check_for_new_connection_request
    survives l zero now size la keep c w e h = absurd (omega arith)
    survives [] (suc fuel) now size la keep c w e h = (
      (c, (on_sys w (ext.requests.poll recv w.sys)).1),
      rw (q.over w.sys e, check_for_new_connection_request) refl,
    )
    survives ((addr, name, sender) ∷ l) (suc fuel) now size la keep c w e h =
        let w₁ = (on_sys w (ext.requests.poll recv w.sys)).1 in
        let (got, left) = q.first w.sys (addr, name, sender) l e in
        elim (Bool-cases (ext.is_unspecified addr)) [
          | inl bad ↦
              rw (got, check_for_new_connection_request, new_cnx-panic addr name now w₁ bad, bad)
                refl
          | inr good ↦
              let (r, w₂, made, same) = new_cnx-done addr name now w₁ good in
              let (t, w₃) = create ext.con r addr la keep sender size w₂ in
              let kept = create-keeps ext.con q.waiting q.begins r addr la keep sender size w₂ in
              rw (got, check_for_new_connection_request, made, good)
                (survives l fuel now size la keep (push_made c t) w₃ (kept ∙ same ∙ left)
                  (omega arith))
        ]

    -- Where the requests for connections are a queue that stays open, and nothing else changes it, with
    -- fuel for more rounds than requests wait: if every request that waits is for an address that is
    -- specified, `check_for_new_connection_request` returns, whatever the names are and whether or not
    -- picoquic makes the connections; and if one of them is for an unspecified address, it panics,
    -- wherever in the queue that one is, and with it the future that drives all connections.
    pub check_for_new_connection_request-Survives :
        (fuel now size : ℕ) (local_addr : SocketAddr) (keep_alive : Option Duration) (c : CContext)
        (w : World Sys)
        → length (q.waiting w.sys) < fuel
        → Survives
            (all_specified (q.waiting w.sys))
            (check_for_new_connection_request ext fuel recv local_addr now keep_alive size c w)
    check_for_new_connection_request-Survives fuel now size la keep c w h =
        survives (q.waiting w.sys) fuel now size la keep c w refl h

-- ===== src/Ffi/QuicCtx/Release.antt =====
-- src/ffi/quic_ctx.rs: `QuicCtx::new` keeps picoquic's context exactly if it succeeds.
use picoquic_rs.Base.{
  ℕ, ◌+◌, ◌-◌, ◌≡◌, refl, ◌∙◌, inl, inr, true, false, Option, none, some, Result, ok, err, Exec,
  done, panic, out_of_fuel, arith, Bool, ◌==◌, if◌then◌else◌, Bool-cases, List, ==_iff,
}
use picoquic_rs.Errors.{Error, Bytes}
use picoquic_rs.Config.{Config, FileFormat}
use Prim.Native.String.{String}
use picoquic_rs.Ffi.QuicCtx.{
  QuicCtx, Picoquic, Create, Step, ◌>>◌, if_set, authenticate, install, configure, keep_or_free,
  new, set_tls_certificate_chain, set_tls_root_certificates, set_tls_private_key, make_certs_iovec,
  key_bytes, filenames, and_then, attempt, Filenames, create_and_configure,
}

module _ {Sys H : Type 0} (k : Picoquic Sys H) where
  -- `live` counts the contexts of picoquic: one more where a context is created, one less where one is
  -- freed, and no other call of the set-up changes it.
  pub record Counts (live : Sys → ℕ) : Type 0 where
    pub created :
        (c : Create) (s : Sys)
        → live (k.create c s).1 ≡ (if (k.create c s).0 == 0 then live s else live s + 1)
    pub freed : (p : ℕ) (s : Sys) → live (k.free p s) ≡ live s - 1
    pub authenticated : (p n : ℕ) (s : Sys) → live (k.set_client_authentication p n s) ≡ live s
    pub chain_set :
        (p : ℕ) (l : List Bytes) (s : Sys) → live (k.set_tls_certificate_chain p l s) ≡ live s
    pub roots_set :
        (p : ℕ) (l : List Bytes) (s : Sys) → live (k.set_tls_root_certificates p l s).1 ≡ live s
    pub key_set : (p : ℕ) (b : Bytes) (s : Sys) → live (k.set_tls_key p b s).1 ≡ live s
    pub handler_set :
        (p : ℕ) (h : H) (s : Sys) → live (k.set_verify_certificate_callback p h s).1 ≡ live s

  -- One context more where the result is a `QuicCtx`, none more where it is an error, and a panic only
  -- where `Null` holds.
  unfoldable pub Owns : (Sys → ℕ) → ℕ → Type 0 → Exec (Result QuicCtx Error × Sys) → Type 0
  Owns live n Null (done (ok q, s)) = live s ≡ n + 1
  Owns live n Null (done (err e, s)) = live s ≡ n
  Owns live n Null panic = Null
  Owns live n Null out_of_fuel = ⊥

  -- What picoquic is asked to create.
  abbrev pub asked_for : Config H → ℕ → Sys → Option String × Option String × Option String → Create
  asked_for c ctx s (cert, key, root) = record {
    connection_buckets = 16;
    cert_filename = cert;
    key_filename = key;
    root_cert_filename = root;
    default_ctx = ctx;
    reset_seed = c.reset_seed;
    current_time = k.current_time s;
  }

  -- With these file names, picoquic gave a null pointer, and created no context.
  abbrev pub NullFor : (Sys → ℕ) → Config H → ℕ → Sys → Type 0
  NullFor live c ctx s =
      (names : Option String × Option String × Option String) × (filenames k c ≡ ok names)
      × ((k.create (asked_for c ctx s names) s).0 ≡ 0)
      × (live (k.create (asked_for c ctx s names) s).1 ≡ live s)

  module _ (live : Sys → ℕ) where
    abbrev Quiet : Step k → Type 0
    Quiet f = (s : Sys) → live (f s).1 ≡ live s

    >>-Quiet : (f g : Step k) → Quiet f → Quiet g → Quiet (◌>>◌ k f g)
    >>-Quiet f g hf hg s = split (f s) (hf s)
      where
        split :
            (r : Result (Unit {0}) Error × Sys)
            → live r.1 ≡ live s
            → live (and_then k r g).1 ≡ live s
        split (ok u, s') e = hg s' ∙ e
        split (err x, s') e = e

    if_set-Quiet {ℓ} :
        {A : Type ℓ} (o : Option A) (f : A → Step k)
        → ((a : A) → Quiet (f a))
        → Quiet (if_set k o f)
    if_set-Quiet none f h s = refl
    if_set-Quiet (some a) f h s = h a s

    attempt-Quiet {ℓ} :
        {A : Type ℓ} (m : Result A Error) (f : A → Step k)
        → ((a : A) → Quiet (f a))
        → Quiet (attempt k m f)
    attempt-Quiet (err e) f h s = refl
    attempt-Quiet (ok a) f h s = h a s

    module _ (t : Counts live) where
      chain-Quiet :
          (q : ℕ) (l : List Bytes) (format : FileFormat)
          → Quiet (set_tls_certificate_chain k q l format)
      unfolding set_tls_certificate_chain
      chain-Quiet q l format =
          attempt-Quiet (make_certs_iovec k l format) _ (λ certs s. t.chain_set q certs s)

      roots-Quiet :
          (q : ℕ) (l : List Bytes) (format : FileFormat)
          → Quiet (set_tls_root_certificates k q l format)
      unfolding set_tls_root_certificates
      roots-Quiet q l format =
          attempt-Quiet (make_certs_iovec k l format) _ (λ certs s. t.roots_set q certs s)

      key-Quiet :
          (q : ℕ) (b : Bytes) (format : FileFormat) → Quiet (set_tls_private_key k q b format)
      unfolding set_tls_private_key
      key-Quiet q b format = attempt-Quiet (key_bytes k b format) _ (λ bytes s. t.key_set q bytes s)

      authenticate-Quiet : (on : Bool) (q : ℕ) → Quiet (authenticate k on q)
      authenticate-Quiet true q s = t.authenticated q 1 s
      authenticate-Quiet false q s = refl

      configure-Quiet : (q : ℕ) (c : Config H) → Quiet (configure k q c)
      unfolding configure
      configure-Quiet q c =
          let auth : Step k = authenticate k c.client_authentication q in
          let chain = λ (x : FileFormat × List Bytes). set_tls_certificate_chain k q x.1 x.0 in
          let key = λ (x : FileFormat × Bytes). set_tls_private_key k q x.1 x.0 in
          let roots = λ (x : FileFormat × List Bytes). set_tls_root_certificates k q x.1 x.0 in
          let chain_set : Step k = if_set k c.certificate_chain chain in
          let key_set : Step k = if_set k c.private_key key in
          let roots_set : Step k = if_set k c.root_certificates roots in
          let handler_set : Step k = if_set k c.verify_certificate_handler (install k q) in
          let two : Step k = ◌>>◌ k auth chain_set in
          let three : Step k = ◌>>◌ k two key_set in
          let four : Step k = ◌>>◌ k three roots_set in
          >>-Quiet four handler_set
            (>>-Quiet three roots_set
              (>>-Quiet two key_set
                (>>-Quiet auth chain_set (authenticate-Quiet c.client_authentication q)
                  (if_set-Quiet c.certificate_chain chain (λ x. chain-Quiet q x.1 x.0)))
                (if_set-Quiet c.private_key key (λ x. key-Quiet q x.1 x.0)))
              (if_set-Quiet c.root_certificates roots (λ x. roots-Quiet q x.1 x.0)))
            (if_set-Quiet c.verify_certificate_handler (install k q) (λ h s. t.handler_set q h s))

      keep_or_free-Owns :
          (Null : Type 0) (q n : ℕ) (r : Result (Unit {0}) Error × Sys)
          → live r.1 ≡ n + 1
          → Owns live n Null (done (keep_or_free k q r))
      unfolding Owns
      keep_or_free-Owns Null q n (ok u, s) h = h
      keep_or_free-Owns Null q n (err e, s) h = omega (arith, t.freed q s)

  -- Where creating a context of picoquic makes one more unless it gives a null pointer, freeing one
  -- makes one less, and the other calls of the set-up keep their number, `QuicCtx::new` leaves exactly
  -- one more if it succeeds and none more if it fails, whichever step fails; otherwise it panics, and
  -- then the file names were fine and picoquic gave a null pointer and created none.
  pub new-Owns :
      (live : Sys → ℕ) (c : Config H) (default_ctx : ℕ) (s : Sys)
      → Counts live
      → Owns live (live s) (NullFor live c default_ctx s) (new k c default_ctx s)
  unfolding new Owns
  new-Owns live c ctx s t = split (filenames k c) refl
    where
      Null : Type 0
      Null = NullFor live c ctx s

      split :
          (r : Filenames k)
          → filenames k c ≡ r
          → Owns live (live s) Null (create_and_configure k c ctx s r)
      split (err e) named = refl
      split (ok names) named =
          let args = asked_for c ctx s names in
          let (q, s') = k.create args s in
          let counted = t.created args s in
          elim (Bool-cases (q == 0)) [
            | inl null ↦ rw null (names, named, (==_iff q 0).0 null, counted ∙ rw null refl)
            | inr there ↦
                let one_more : live s' ≡ live s + 1 = counted ∙ rw there refl in
                rw there (
                  keep_or_free-Owns live t Null q (live s) (configure k q c s')
                    (configure-Quiet live t q c s' ∙ one_more))
          ]

-- ===== src/Ffi/QuicCtx.antt =====
-- src/ffi/quic_ctx.rs: `QuicCtx::new`, which hands the configuration to picoquic.
pub mod Release
pub mod Converts
pub mod Examples
use picoquic_rs.Base.{
  ℕ, ◌-◌, ◌^◌, Bool, List, [], ◌∷◌, Option, none, some, Result, ok, err, Exec, done, panic, ◌==◌,
  if◌then◌else◌,
}
use picoquic_rs.Errors.{
  Error, Bytes, from_kind, from_foreign, none_unicode, nul_error, error_stack, failure, unknown,
}
use picoquic_rs.Ffi.MicroSeconds.{Duration, max_delay}
use picoquic_rs.Config.{Config, FileFormat, pem, der, FilePath}
use picoquic_rs.Verify.{setup_callback}
use Prim.Native.String.{String}

-- The arguments of `picoquic_create` that are not constants. `default_ctx` is the pointer for the
-- callback of new connections.
pub record Create : Type 0 where
  pub connection_buckets : ℕ
  pub cert_filename : Option String
  pub key_filename : Option String
  pub root_cert_filename : Option String
  pub default_ctx : ℕ
  pub reset_seed : Option Bytes
  pub current_time : ℕ

-- Picoquic's set-up calls, with their return values as bit patterns, 0 for a null pointer, and the
-- conversions of the standard library and of openssl. `H` is the type of the handlers.
pub record Picoquic (Sys H : Type 0) : Type 0 where
  pub into_string : FilePath → Option String
  pub has_nul : String → Bool
  pub x509_pem_to_der : Bytes → Option Bytes
  pub private_key_pem_to_der : Bytes → Option Bytes
  pub current_time : Sys → ℕ
  pub create : Create → Sys → ℕ × Sys
  pub set_client_authentication : ℕ → ℕ → Sys → Sys
  pub set_tls_certificate_chain : ℕ → List Bytes → Sys → Sys
  pub set_tls_root_certificates : ℕ → List Bytes → Sys → ℕ × Sys
  pub set_tls_key : ℕ → Bytes → Sys → ℕ × Sys
  pub set_verify_certificate_callback : ℕ → H → Sys → ℕ × Sys
  pub free : ℕ → Sys → Sys

-- `QuicCtx`
pub record QuicCtx : Type 0 where
  pub quic : ℕ
  pub max_delay : Duration

infixl 5 ◌>>=◌
abbrev pub ◌>>=◌ {ℓ κ} :
    {A : Type ℓ} {B : Type κ} → Result A Error → (A → Result B Error) → Result B Error
ok a >>= f = f a
err e >>= f = err e

abbrev from_openssl {ℓ} : {A : Type ℓ} → Option A → Result A Error
from_openssl none = err (from_foreign error_stack)
from_openssl (some a) = ok a

module _ {Sys H : Type 0} (k : Picoquic Sys H) where
  -- `create_cstring`
  unfoldable pub create_cstring : Option FilePath → Result (Option String) Error
  create_cstring none = ok none
  create_cstring (some p) = elim (k.into_string p) [
    | none ↦ err (from_kind none_unicode)
    | some s ↦ if k.has_nul s then err (from_foreign nul_error) else ok (some s)
  ]

  abbrev to_der : List Bytes → Result (List Bytes) Error
  to_der [] = ok []
  to_der (c ∷ cs) = do d ← from_openssl (k.x509_pem_to_der c); ds ← to_der cs; ok (d ∷ ds)

  -- `make_certs_iovec`; the array of pointers is the list.
  unfoldable pub make_certs_iovec : List Bytes → FileFormat → Result (List Bytes) Error
  make_certs_iovec certs der = ok certs
  make_certs_iovec certs pem = to_der certs

  -- A step of the set-up: it answers, and changes what is outside.
  abbrev pub Step : Type 0
  Step = Sys → Result (Unit {0}) Error × Sys

  -- `m?` at the start of a step.
  abbrev pub attempt {ℓ} : {A : Type ℓ} → Result A Error → (A → Step) → Step
  attempt (err e) f s = (err e, s)
  attempt (ok a) f s = f a s

  unfoldable pub set_tls_certificate_chain : ℕ → List Bytes → FileFormat → Step
  set_tls_certificate_chain quic chain format =
      attempt (make_certs_iovec chain format)
        (λ certs s. (ok tt, k.set_tls_certificate_chain quic certs s))

  -- `-1` and `-2` as 32 bits.
  abbrev root_answer : ℕ → Result (Unit {0}) Error
  root_answer res =
      if res == 2 ^ 32 - 1
      then err (from_foreign (failure "Error at loading a root certificate"))
      else if res == 2 ^ 32 - 2
      then err (from_foreign (failure "Error at adding a root certificate, maybe a duplicate?"))
      else ok tt

  unfoldable pub set_tls_root_certificates : ℕ → List Bytes → FileFormat → Step
  set_tls_root_certificates quic certs format =
      attempt (make_certs_iovec certs format) (λ iovec s.
        let (res, s') = k.set_tls_root_certificates quic iovec s in (root_answer res, s'))

  abbrev key_bytes : Bytes → FileFormat → Result Bytes Error
  key_bytes key der = ok key
  key_bytes key pem = from_openssl (k.private_key_pem_to_der key)

  unfoldable pub set_tls_private_key : ℕ → Bytes → FileFormat → Step
  set_tls_private_key quic key format = attempt (key_bytes key format) (λ bytes s.
      let (res, s') = k.set_tls_key quic bytes s in
      (if res == 0 then ok tt else err (from_kind unknown), s'))

  abbrev pub and_then : Result (Unit {0}) Error × Sys → Step → Result (Unit {0}) Error × Sys
  and_then (ok _, s) g = g s
  and_then (err e, s) g = (err e, s)

  infixl 5 ◌>>◌
  -- `f?; g`
  abbrev pub ◌>>◌ : Step → Step → Step
  ◌>>◌ f g s = and_then (f s) g

  abbrev pub if_set {ℓ} : {A : Type ℓ} → Option A → (A → Step) → Step
  if_set none f s = (ok tt, s)
  if_set (some a) f s = f a s

  abbrev pub authenticate : Bool → ℕ → Step
  authenticate on quic s = (ok tt, if on then k.set_client_authentication quic 1 s else s)

  abbrev pub install : ℕ → H → Step
  install quic handler s =
      let (res, s') = k.set_verify_certificate_callback quic handler s in (setup_callback res, s')

  -- What `QuicCtx::new` does with the context that picoquic gave it.
  unfoldable pub configure : ℕ → Config H → Step
  unfolding set_tls_certificate_chain set_tls_root_certificates set_tls_private_key
  configure quic c =
      authenticate c.client_authentication quic
      >> if_set c.certificate_chain (λ (format, chain). set_tls_certificate_chain quic chain format)
      >> if_set c.private_key (λ (format, key). set_tls_private_key quic key format)
      >> if_set c.root_certificates (λ (format, certs). set_tls_root_certificates quic certs format)
      >> if_set c.verify_certificate_handler (install quic)

  abbrev pub Filenames : Type 0
  Filenames = Result (Option String × Option String × Option String) Error

  abbrev filenames : Config H → Filenames
  filenames c = do
    cert ← create_cstring c.certificate_chain_filename
    key ← create_cstring c.private_key_filename
    root ← create_cstring c.root_certificate_filename
    ok (cert, key, root)

  -- A context that could not be configured is dropped, which frees it.
  abbrev keep_or_free : ℕ → Result (Unit {0}) Error × Sys → Result QuicCtx Error × Sys
  keep_or_free quic (ok _, s) = (ok (record { quic = quic; max_delay = max_delay }), s)
  keep_or_free quic (err e, s) = (err e, k.free quic s)

  abbrev create_and_configure : Config H → ℕ → Sys → Filenames → Exec (Result QuicCtx Error × Sys)
  create_and_configure c default_ctx s (err e) = done (err e, s)
  create_and_configure c default_ctx s (ok (cert, key, root)) =
      let (quic, s') =
        k.create
          (record {
            connection_buckets = 16;
            cert_filename = cert;
            key_filename = key;
            root_cert_filename = root;
            default_ctx = default_ctx;
            reset_seed = c.reset_seed;
            current_time = k.current_time s;
          })
          s in
      if quic == 0 then panic else done (keep_or_free quic (configure quic c s'))

  -- `QuicCtx::new`
  unfoldable pub new : Config H → ℕ → Sys → Exec (Result QuicCtx Error × Sys)
  unfolding create_cstring configure
  new c default_ctx s = create_and_configure c default_ctx s (filenames c)

  -- `Drop for QuicCtx`
  unfoldable pub drop : QuicCtx → Sys → Sys
  drop q = k.free q.quic

-- ===== src/Verify.antt =====
-- src/ffi/verify_certificate.rs: the callbacks by which picotls asks for certificates and signatures
-- to be verified. The parts of openssl that they use are parameters.
pub mod Laws
pub mod Default
pub mod Boxes
pub mod Owned
mod Examples
use picoquic_rs.Base.{
  ℕ, ◌+◌, Bool, true, false, ◌&&◌, ◌||◌, List, [], ◌∷◌, ◌++◌, Option, none, some, Result, ok, err,
  is_empty, ◌==◌, if◌then◌else◌,
}
use picoquic_rs.Errors.{Error, Bytes, from_kind, out_of_memory_error}
use picoquic_rs.Ffi.Cnx.{ConnectionType}

-- The constants of picotls and openssl.
pub record Codes : Type 0 where
  pub bad_certificate : ℕ
  pub certificate_expired : ℕ
  pub certificate_revoked : ℕ
  pub certificate_unknown : ℕ
  pub decrypt_error : ℕ
  pub error_library : ℕ
  pub error_no_memory : ℕ
  pub x509_out_of_mem : ℕ
  pub x509_cert_revoked : ℕ
  pub x509_cert_has_expired : ℕ

-- An `ErrorStack`: the codes of its errors, read as `i32`.
abbrev pub ErrorStack : Type 0
ErrorStack = List ℕ

-- A verifier's state, and what openssl answers. `set_up_rsa` stands for three calls, in order.
pub record Openssl (Cert Key Verifier : Type 0) : Type 0 where
  pub from_der : Bytes → Result Cert ErrorStack
  pub stack_new : Result (Unit {0}) ErrorStack
  pub stack_push : List Cert → Cert → Result (Unit {0}) ErrorStack
  pub public_key : Cert → Result Key ErrorStack
  pub new_verifier : Key → Result Verifier ErrorStack
  pub is_rsa : Key → Bool
  pub set_rsa_padding : Verifier → Result Verifier ErrorStack
  pub set_rsa_pss_saltlen : Verifier → Result Verifier ErrorStack
  pub set_rsa_mgf1_md : Verifier → Result Verifier ErrorStack
  pub update : Verifier → Bytes → Result Verifier ErrorStack
  pub verify : Verifier → Bytes → Result Bool ErrorStack

-- `setup_callback`, from what `picoquic_set_verify_certificate_callback` returns.
unfoldable pub setup_callback : ℕ → Result (Unit {0}) Error
setup_callback result = if result == 0 then ok tt else err (from_kind out_of_memory_error)

infixl 5 ◌>>=◌
abbrev pub ◌>>=◌ {ℓ κ} :
    {E : Type 0} {A : Type ℓ} {B : Type κ} → Result A E → (A → Result B E) → Result B E
ok a >>= f = f a
err e >>= f = err e

module _ (k : Codes) where
  -- `ssl_error_to_error_code`
  unfoldable pub ssl_error_to_error_code : ErrorStack → ℕ
  ssl_error_to_error_code [] = k.certificate_unknown
  ssl_error_to_error_code (code ∷ _) =
      if code == k.x509_out_of_mem
      then k.error_no_memory
      else if code == k.x509_cert_revoked
      then k.certificate_revoked
      else if code == k.x509_cert_has_expired
      then k.certificate_expired
      else k.certificate_unknown

module _ {Cert Key Verifier : Type 0} (s : Openssl Cert Key Verifier) where
  -- `extract_certificates`, for at least one certificate: the first one and the chain.
  abbrev push_all : List Cert → List Bytes → Result (List Cert) ErrorStack
  push_all chain [] = ok chain
  push_all chain (b ∷ bs) = do
    cert ← s.from_der b
    _ ← s.stack_push chain cert
    push_all (chain ++ cert ∷ []) bs

  unfoldable pub extract_certificates : Bytes → List Bytes → Result (Cert × List Cert) ErrorStack
  extract_certificates first others = do
    cert ← s.from_der first
    _ ← s.stack_new
    chain ← push_all [] others
    ok (cert, chain)

  module _ (k : Codes) where
    abbrev pub check_key : Cert → Result Key ErrorStack → ℕ × Option Key
    check_key cert (ok key) = (0, some key)
    check_key cert (err e) = (ssl_error_to_error_code k e, none)

    abbrev pub check_answer : Cert → Result Bool ErrorStack → ℕ × Option Key
    check_answer cert (ok true) = check_key cert (s.public_key cert)
    check_answer cert (ok false) = (k.certificate_unknown, none)
    check_answer cert (err e) = (ssl_error_to_error_code k e, none)

    abbrev pub check_certificates :
        (Cert → List Cert → Result Bool ErrorStack)
        → Result (Cert × List Cert) ErrorStack
        → ℕ × Option Key
    check_certificates handler (err e) = (k.bad_certificate, none)
    check_certificates handler (ok (cert, chain)) = check_answer cert (handler cert chain)

    -- `verify_certificate_callback_impl`: the code, and the key that `verify_sign_ctx` is set to. The
    -- handler knows the connection's id and type.
    unfoldable pub verify_certificate_callback :
        (ℕ → ConnectionType → Cert → List Cert → Result Bool ErrorStack)
        → ℕ
        → ConnectionType
        → List Bytes
        → ℕ × Option Key
    unfolding extract_certificates ssl_error_to_error_code
    verify_certificate_callback handler id type [] = (k.certificate_unknown, none)
    verify_certificate_callback handler id type (first ∷ others) =
        check_certificates (handler id type) (extract_certificates first others)

    -- The three settings of a verifier for RSA.
    abbrev pub set_up_rsa : Key → Verifier → Result Verifier ErrorStack
    set_up_rsa key v =
        if s.is_rsa key
        then (s.set_rsa_padding v >>= s.set_rsa_pss_saltlen >>= s.set_rsa_mgf1_md)
        else ok v

    abbrev pub sign_code : Result Verifier ErrorStack → Bytes → ℕ
    sign_code (err e) sign = k.error_library
    sign_code (ok v) sign = elim (s.verify v sign) [ ok true ↦ 0 | _ ↦ k.decrypt_error ]

    -- `verify_sign_callback`
    unfoldable pub verify_sign_callback : Key → Bytes → Bytes → ℕ
    verify_sign_callback key bytes sign =
        if is_empty bytes || is_empty sign
        then 0
        else sign_code (s.new_verifier key >>= set_up_rsa key >>= λ v. s.update v bytes) sign

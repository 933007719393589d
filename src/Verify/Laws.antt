-- ===== src/Verify/Laws.antt =====
-- src/ffi/verify_certificate.rs: when a certificate and a signature are accepted.
use picoquic_rs.Base.{
  ℕ, ◌≡◌, ◌≢◌, ◌↔◌, ◌⊎◌, refl, inl, inr, Bool, true, false, List, [], ◌∷◌, Option, some, Result, ok,
  err, arith,
}
use picoquic_rs.Errors.{Bytes}
use picoquic_rs.Ffi.Cnx.{ConnectionType}
use picoquic_rs.Verify.{
  Codes, Openssl, ErrorStack, ◌>>=◌, extract_certificates, verify_certificate_callback, set_up_rsa,
  check_key, check_answer, check_certificates, sign_code, verify_sign_callback,
  ssl_error_to_error_code,
}

-- No code for a failure is the code for success.
pub record AreFailures (k : Codes) : Type 0 where
  pub bad_certificate : k.bad_certificate ≢ 0
  pub certificate_expired : k.certificate_expired ≢ 0
  pub certificate_revoked : k.certificate_revoked ≢ 0
  pub certificate_unknown : k.certificate_unknown ≢ 0
  pub decrypt_error : k.decrypt_error ≢ 0
  pub error_library : k.error_library ≢ 0
  pub error_no_memory : k.error_no_memory ≢ 0

ssl_error-ne-zero : (k : Codes) → AreFailures k → (e : ErrorStack) → ssl_error_to_error_code k e ≢ 0
unfolding ssl_error_to_error_code
ssl_error-ne-zero k f [] = f.certificate_unknown
ssl_error-ne-zero k f (code ∷ _) = ground arith

module _ {Cert Key Verifier : Type 0} (s : Openssl Cert Key Verifier) (k : Codes) where
  -- What has to hold of a first certificate and its chain, for the key `key` to be taken from it.
  abbrev pub Trusts :
      (Cert → List Cert → Result Bool ErrorStack)
      → Result (Cert × List Cert) ErrorStack
      → Option Key
      → Type 0
  Trusts handler (ok (cert, chain)) (some key) =
      (handler cert chain ≡ ok true) × (s.public_key cert ≡ ok key)
  Trusts handler _ _ = ⊥

  -- At least one certificate, and the whole list can be read and is trusted.
  abbrev pub TrustsList :
      (Cert → List Cert → Result Bool ErrorStack) → List Bytes → Option Key → Type 0
  TrustsList handler [] key = ⊥
  TrustsList handler (first ∷ others) key = Trusts handler (extract_certificates s first others) key

  check_key-Trusts :
      (f : AreFailures k) (handler : Cert → List Cert → Result Bool ErrorStack) (cert : Cert)
      (chain : List Cert)
      → handler cert chain ≡ ok true
      → (r : Result Key ErrorStack) → s.public_key cert ≡ r
      → ((check_key s k cert r).0 ≡ 0) ↔ Trusts handler (ok (cert, chain)) (check_key s k cert r).1
  check_key-Trusts f handler cert chain h (ok key) e = (λ _. (h, e), λ _. refl)
  check_key-Trusts f handler cert chain h (err x) e =
      (λ p. ssl_error-ne-zero k f x p, λ p. absurd p)

  check_answer-Trusts :
      (f : AreFailures k) (handler : Cert → List Cert → Result Bool ErrorStack) (cert : Cert)
      (chain : List Cert) (r : Result Bool ErrorStack)
      → handler cert chain ≡ r
      → ((check_answer s k cert r).0 ≡ 0)
        ↔ Trusts handler (ok (cert, chain)) (check_answer s k cert r).1
  check_answer-Trusts f handler cert chain (ok true) e =
      check_key-Trusts f handler cert chain e (s.public_key cert) refl
  check_answer-Trusts f handler cert chain (ok false) e =
      (λ p. f.certificate_unknown p, λ p. absurd p)
  check_answer-Trusts f handler cert chain (err x) e =
      (λ p. ssl_error-ne-zero k f x p, λ p. absurd p)

  check_certificates-Trusts :
      (f : AreFailures k) (handler : Cert → List Cert → Result Bool ErrorStack)
      (r : Result (Cert × List Cert) ErrorStack)
      → ((check_certificates s k handler r).0 ≡ 0)
        ↔ Trusts handler r (check_certificates s k handler r).1
  check_certificates-Trusts f handler (ok (cert, chain)) =
      check_answer-Trusts f handler cert chain (handler cert chain) refl
  check_certificates-Trusts f handler (err x) = (λ p. f.bad_certificate p, λ p. absurd p)

  -- Where no failure has the code 0, the callback answers 0 exactly if there is a certificate, all of
  -- them can be read, the handler accepts the first one with the others as its chain, and the key
  -- that is handed on for the signature is the first one's.
  pub verify_certificate_callback-accepts :
      (handler : ℕ → ConnectionType → Cert → List Cert → Result Bool ErrorStack) (id : ℕ)
      (type : ConnectionType) (certs : List Bytes)
      → AreFailures k
      → let (code, key) = verify_certificate_callback s k handler id type certs in
        (code ≡ 0) ↔ TrustsList (handler id type) certs key
  unfolding verify_certificate_callback
  verify_certificate_callback-accepts handler id type [] f =
      (λ p. f.certificate_unknown p, λ p. absurd p)
  verify_certificate_callback-accepts handler id type (first ∷ others) f =
      check_certificates-Trusts f (handler id type) (extract_certificates s first others)

  -- The verifier made for the key, set up and fed with the data, and its answer.
  abbrev pub fed : Key → Bytes → Result Verifier ErrorStack
  fed key bytes = s.new_verifier key >>= set_up_rsa s k key >>= λ v. s.update v bytes

  abbrev pub SignatureHolds : Result Verifier ErrorStack → Bytes → Type 0
  SignatureHolds (ok v) sign = s.verify v sign ≡ ok true
  SignatureHolds (err e) sign = ⊥

  sign_code-holds :
      (f : AreFailures k) (r : Result Verifier ErrorStack) (sign : Bytes)
      → (sign_code s k r sign ≡ 0) ↔ SignatureHolds r sign
  sign_code-holds f (err e) sign = (λ p. f.error_library p, λ p. absurd p)
  sign_code-holds f (ok v) sign = ground (arith, f.decrypt_error)

  -- Where no failure has the code 0, the callback for a signature answers 0 exactly if the data is
  -- empty, or the signature is empty, or the verifier set up for the key and fed with the data
  -- accepts the signature.
  pub verify_sign_callback-accepts :
      (key : Key) (bytes sign : Bytes)
      → AreFailures k
      → (verify_sign_callback s k key bytes sign ≡ 0)
        ↔ ((bytes ≡ []) ⊎ (sign ≡ []) ⊎ SignatureHolds (fed key bytes) sign)
  unfolding verify_sign_callback
  verify_sign_callback-accepts key [] sign f = (λ _. inl refl, λ _. refl)
  verify_sign_callback-accepts key (b ∷ bytes) [] f = (λ _. inr (inl refl), λ _. refl)
  verify_sign_callback-accepts key (b ∷ bytes) (c ∷ sign) f = (
    λ p. inr (inr ((sign_code-holds f (fed key (b ∷ bytes)) (c ∷ sign)).0 p)),
    elim [
      | inl e ↦ cc
      | inr (inl e) ↦ cc
      | inr (inr h) ↦ (sign_code-holds f (fed key (b ∷ bytes)) (c ∷ sign)).1 h
    ],
  )

-- ===== src/Verify/Examples.antt =====
-- src/ffi/verify_certificate.rs: theorems at concrete inputs. A certificate is its bytes, its first
-- byte is the key, and a signature holds if it is the data.
use picoquic_rs.Base.{
  ℕ, ◌+◌, ◌≡◌, ◌↔◌, ◌⊎◌, Bool, true, false, List, [], ◌∷◌, Result, ok, err, arith, ◌==◌, length,
  none, done,
}
use picoquic_rs.Errors.{Bytes}
use picoquic_rs.Ffi.Cnx.{ConnectionType, incoming}
use picoquic_rs.Verify.{
  Codes, Openssl, ErrorStack, verify_certificate_callback, verify_sign_callback,
}
use picoquic_rs.Verify.Laws.{
  AreFailures, TrustsList, SignatureHolds, fed, verify_certificate_callback-accepts,
  verify_sign_callback-accepts,
}
use picoquic_rs.Verify.Boxes.{set_up, free_ctx}
use picoquic_rs.Verify.Owned.{Event, Session, certificates, signature, happens, live, set_up-owned}

abbrev codes : Codes
codes = record {
  bad_certificate = 42;
  certificate_expired = 45;
  certificate_revoked = 44;
  certificate_unknown = 46;
  decrypt_error = 51;
  error_library = 515;
  error_no_memory = 513;
  x509_out_of_mem = 17;
  x509_cert_revoked = 23;
  x509_cert_has_expired = 10;
}

codes-AreFailures : AreFailures codes
codes-AreFailures = omega arith

abbrev key_of : Bytes → Result ℕ ErrorStack
key_of [] = err (10 ∷ [])
key_of (b ∷ _) = ok b

abbrev toy : Openssl Bytes ℕ ℕ
toy = record {
  from_der = λ b. ok b;
  stack_new = ok tt;
  stack_push = λ chain cert. ok tt;
  public_key = key_of;
  new_verifier = λ key. ok key;
  is_rsa = λ key. true;
  set_rsa_padding = λ v. ok v;
  set_rsa_pss_saltlen = λ v. ok v;
  set_rsa_mgf1_md = λ v. ok v;
  update = λ v b. ok (v + length b);
  verify = λ v sign. ok (v == length sign);
}

abbrev long_chain : ℕ → ConnectionType → Bytes → List Bytes → Result Bool ErrorStack
long_chain id type cert [] = ok false
long_chain id type cert (c ∷ chain) = ok true

verify_certificate_callback-accepts_example :
    let (code, key) =
      verify_certificate_callback toy codes long_chain 3 incoming ((7 ∷ []) ∷ (8 ∷ []) ∷ []) in
    (code ≡ 0) ↔ TrustsList toy codes (long_chain 3 incoming) ((7 ∷ []) ∷ (8 ∷ []) ∷ []) key
verify_certificate_callback-accepts_example =
    verify_certificate_callback-accepts toy codes long_chain 3 incoming ((7 ∷ []) ∷ (8 ∷ []) ∷ [])
      codes-AreFailures

verify_sign_callback-accepts_example :
    (verify_sign_callback toy codes 1 (5 ∷ []) (6 ∷ 7 ∷ []) ≡ 0) ↔ (
      (◌≡◌ {A = Bytes} (5 ∷ []) [])
      ⊎ (◌≡◌ {A = Bytes} (6 ∷ 7 ∷ []) [])
      ⊎ SignatureHolds toy codes (fed toy codes 1 (5 ∷ [])) (6 ∷ 7 ∷ []))
verify_sign_callback-accepts_example =
    verify_sign_callback-accepts toy codes 1 (5 ∷ []) (6 ∷ 7 ∷ []) codes-AreFailures

-- Two chains of certificates, and the signatures for the second key and for the first.
abbrev asks : List Event
asks =
    certificates 3 incoming ((7 ∷ []) ∷ (8 ∷ []) ∷ [])
    ∷ certificates 3 incoming ((9 ∷ []) ∷ (8 ∷ []) ∷ [])
    ∷ signature 1 (5 ∷ []) (6 ∷ 7 ∷ [])
    ∷ signature 0 [] []
    ∷ []

set_up-owned_example :
    let (result, boxes, sys') = set_up {Sys = ℕ} (λ ptr s. (0, s)) tt (none ∷ []) 4 in
    (t : Session (Unit {0}) ℕ) × (happens toy codes
        (λ h. long_chain)
        1
        asks
        (record { handlers = boxes; keys = []; held = [] })
      ≡ done t)
    × (t.held ≡ live 0 t.keys)
    × (free_ctx 1 t.handlers ≡ done (none ∷ none ∷ []))
set_up-owned_example =
    set_up-owned toy codes (λ h. long_chain) (λ ptr s. (0, s)) tt (none ∷ []) 4 asks

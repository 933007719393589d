-- ===== src/Ffi/QuicCtx/Examples.antt =====
-- src/ffi/quic_ctx.rs: a picoquic whose state counts its contexts, and theorems at concrete inputs. An
-- empty certificate cannot be converted, and of two root certificates the second one is refused.
use picoquic_rs.Base.{
  ℕ, ◌+◌, ◌-◌, ◌^◌, ◌≡◌, ◌↔◌, refl, false, List, [], ◌∷◌, Option, none, some, ok, err, done,
}
use picoquic_rs.Errors.{Bytes, from_foreign, failure}
use picoquic_rs.Config.{Config, default, set_root_certificates, der, pem}
use picoquic_rs.Ffi.QuicCtx.{Picoquic, new, make_certs_iovec}
use picoquic_rs.Ffi.QuicCtx.Release.{Counts, NullFor, Owns, new-Owns}
use picoquic_rs.Ffi.QuicCtx.Converts.{Converted, make_certs_iovec-Converted}

abbrev to_der : Bytes → Option Bytes
to_der [] = none
to_der (b ∷ bs) = some (1 ∷ b ∷ bs)

abbrev root_code : List Bytes → ℕ
root_code (_ ∷ _ ∷ _) = 2 ^ 32 - 2
root_code _ = 0

abbrev pub counting : Picoquic ℕ ℕ
counting = record {
  into_string = λ p. some p;
  has_nul = λ s. false;
  x509_pem_to_der = to_der;
  private_key_pem_to_der = to_der;
  current_time = λ s. 0;
  create = λ c s. (7, s + 1);
  set_client_authentication = λ p n s. s;
  set_tls_certificate_chain = λ p l s. s;
  set_tls_root_certificates = λ p l s. (root_code l, s);
  set_tls_key = λ p b s. (0, s);
  set_verify_certificate_callback = λ p h s. (0, s);
  free = λ p s. s - 1;
}

pub counting-Counts : Counts counting (λ s. s)
counting-Counts = record {
  created = λ c s. refl;
  freed = λ p s. refl;
  authenticated = λ p n s. refl;
  chain_set = λ p l s. refl;
  roots_set = λ p l s. refl;
  key_set = λ p b s. refl;
  handler_set = λ p h s. refl;
}

abbrev twice : Config ℕ
twice = set_root_certificates default ((4 ∷ []) ∷ (5 ∷ []) ∷ []) der

new-Owns_example :
    Owns counting (λ s. s) 3 (NullFor counting (λ s. s) twice 11 3) (new counting twice 11 3)
new-Owns_example = new-Owns counting (λ s. s) twice 11 3 counting-Counts

-- The second root certificate is refused, and the context is freed.
twice_refused :
    new counting twice 11 3
    ≡ done
        (err (from_foreign (failure "Error at adding a root certificate, maybe a duplicate?")), 3)
unfolding new set_root_certificates default make_certs_iovec
twice_refused = refl

make_certs_iovec-Converted_example :
    (make_certs_iovec counting ((4 ∷ []) ∷ (5 ∷ []) ∷ []) pem
      ≡ ok ((1 ∷ 4 ∷ []) ∷ (1 ∷ 5 ∷ []) ∷ []))
    ↔ Converted counting ((4 ∷ []) ∷ (5 ∷ []) ∷ []) ((1 ∷ 4 ∷ []) ∷ (1 ∷ 5 ∷ []) ∷ [])
make_certs_iovec-Converted_example =
    make_certs_iovec-Converted counting ((4 ∷ []) ∷ (5 ∷ []) ∷ [])
      ((1 ∷ 4 ∷ []) ∷ (1 ∷ 5 ∷ []) ∷ [])

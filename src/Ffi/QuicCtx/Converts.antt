-- ===== src/Ffi/QuicCtx/Converts.antt =====
-- src/ffi/quic_ctx.rs: which certificates and file names are accepted.
use picoquic_rs.Base.{◌≡◌, ◌↔◌, refl, List, [], ◌∷◌, Option, none, some, Result, ok, err}
use picoquic_rs.Errors.{Error, Bytes}
use picoquic_rs.Config.{pem}
use picoquic_rs.Ffi.QuicCtx.{Picoquic, make_certs_iovec, to_der, from_openssl, ◌>>=◌}

module _ {Sys H : Type 0} (k : Picoquic Sys H) where
  -- The converted certificates are those of the list, one by one and in order.
  pub Converted : List Bytes → List Bytes → Type 0
  Converted [] [] = Unit {0}
  Converted (c ∷ cs) (d ∷ ds) = (k.x509_pem_to_der c ≡ some d) × Converted cs ds
  Converted _ _ = ⊥

  cons_ok :
      (o : Option Bytes) (r : Result (List Bytes) Error) (ds : List Bytes)
      → (from_openssl o >>= λ d. r >>= λ l. ok (d ∷ l)) ≡ ok ds
      → (d : Bytes) × (l : List Bytes) × (o ≡ some d) × (r ≡ ok l) × (ds ≡ d ∷ l)
  cons_ok none r ds h = cc
  cons_ok (some d) (err e) ds h = cc
  cons_ok (some d) (ok l) ds h = (d, l, refl, refl, cc)

  to_der-Converted : (cs ds : List Bytes) → to_der k cs ≡ ok ds → Converted cs ds
  unfolding Converted
  to_der-Converted [] [] h = tt
  to_der-Converted [] (d ∷ ds) h = cc
  to_der-Converted (c ∷ cs) ds h =
      let (d, ds', converted, rest, e) = cons_ok (k.x509_pem_to_der c) (to_der k cs) ds h in
      rw e (converted, to_der-Converted cs ds' rest)

  Converted-to_der : (cs ds : List Bytes) → Converted cs ds → to_der k cs ≡ ok ds
  unfolding Converted
  Converted-to_der [] [] h = refl
  Converted-to_der [] (d ∷ ds) h = elim h [ ]
  Converted-to_der (c ∷ cs) [] h = elim h [ ]
  Converted-to_der (c ∷ cs) (d ∷ ds) h = rw (h.0, Converted-to_der cs ds h.1)

  -- A list of certificates in PEM is accepted exactly if each of them can be converted, and then
  -- picoquic gets the converted ones, one by one and in order.
  pub make_certs_iovec-Converted :
      (certs ders : List Bytes) → (make_certs_iovec k certs pem ≡ ok ders) ↔ Converted certs ders
  unfolding make_certs_iovec
  make_certs_iovec-Converted certs ders = (to_der-Converted certs ders, Converted-to_der certs ders)

-- ===== src/Verify/Default.antt =====
-- src/verify_certificate.rs: the check of a certificate against a store of trusted ones, which a
-- handler can use. openssl's `X509StoreContext` is a parameter.
use picoquic_rs.Base.{Bool, List, Result}
use picoquic_rs.Verify.{ErrorStack, ◌>>=◌}

-- `init` prepares the context and calls what it is given with it.
pub record StoreContext (Cert Store Ctx : Type 0) : Type 0 where
  pub context_new : Result Ctx ErrorStack
  pub init :
      Ctx → Store → Cert → List Cert → (Ctx → Result Bool ErrorStack) → Result Bool ErrorStack
  pub verify_cert : Ctx → Result Bool ErrorStack

unfoldable pub default_verify_certificate :
    {Cert Store Ctx : Type 0}
    → StoreContext Cert Store Ctx
    → Cert
    → List Cert
    → Store
    → Result Bool ErrorStack
default_verify_certificate k cert chain store = do
  context ← k.context_new
  k.init context store cert chain k.verify_cert

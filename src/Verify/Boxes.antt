-- ===== src/Verify/Boxes.antt =====
-- src/ffi/verify_certificate.rs: the boxes that the callbacks hand to C and take back, the handler's and
-- those of the public keys.
use picoquic_rs.Base.{
  ℕ, Bool, List, [], ◌∷◌, ◌++◌, Option, none, some, Result, Exec, done, panic, ◌>>=◌, length,
  get_elem?, set,
}
use picoquic_rs.Errors.{Error, Bytes}
use picoquic_rs.Ffi.Cnx.{ConnectionType}
use picoquic_rs.Verify.{
  Codes, Openssl, ErrorStack, setup_callback, verify_certificate_callback, verify_sign_callback,
}

-- The boxes of one type; a pointer is a place in the list, and a box that was freed is `none`.
abbrev pub Boxes : Type 0 → Type 0
Boxes A = List (Option A)

-- `Box::into_raw(Box::new(a))`
unfoldable pub into_raw : {A : Type 0} → A → Boxes A → ℕ × Boxes A
into_raw a h = (length h, h ++ some a ∷ [])

-- `Box::from_raw`, after which the box is the callee's. A pointer to no
-- box is undefined behaviour, which counts as a panic here.
unfoldable pub from_raw : {A : Type 0} → ℕ → Boxes A → Exec (A × Boxes A)
from_raw ptr h = elim (get_elem? h ptr) [ some (some a) ↦ done (a, set h ptr none) | _ ↦ panic ]

abbrev pub get_handler : {H : Type 0} → ℕ → Boxes H → Exec (H × Boxes H)
get_handler = from_raw

abbrev pub get_pkey : {Key : Type 0} → ℕ → Boxes Key → Exec (Key × Boxes Key)
get_pkey = from_raw

-- `free_ctx`: the box is dropped.
unfoldable pub free_ctx : {H : Type 0} → ℕ → Boxes H → Exec (Boxes H)
unfolding from_raw
free_ctx ctx h = get_handler ctx h >>= λ (handler, h'). done h'

-- `setup_callback`; `set_callback` is picoquic's, which gets the pointer.
unfoldable pub set_up :
    {Sys H : Type 0}
    → (ℕ → Sys → ℕ × Sys)
    → H
    → Boxes H
    → Sys
    → Result (Unit {0}) Error × Boxes H × Sys
unfolding into_raw setup_callback
set_up set_callback handler h s =
    let (ctx, h') = into_raw handler h in
    let (result, s') = set_callback ctx s in (setup_callback result, h', s')

module _ {Cert Key Verifier : Type 0} (s : Openssl Cert Key Verifier) (k : Codes) where
  abbrev pub give : Option Key → Boxes Key → Option ℕ × Boxes Key
  give none ks = (none, ks)
  give (some key) ks = let (ptr, ks') = into_raw key ks in (some ptr, ks')

  -- `verify_certificate_callback`: the handler is taken out of its box, and the box is forgotten, not
  -- dropped, at the end. The pointer that `verify_sign_ctx` is set to is the box of the key. `verify`
  -- is what a handler answers.
  unfoldable pub callback_with_handler :
      {H : Type 0}
      → (H → ℕ → ConnectionType → Cert → List Cert → Result Bool ErrorStack)
      → ℕ
      → ℕ
      → ConnectionType
      → List Bytes
      → Boxes H
      → Boxes Key
      → Exec (ℕ × Option ℕ × Boxes H × Boxes Key)
  unfolding from_raw into_raw verify_certificate_callback
  callback_with_handler verify ctx id type certs h ks = do
    (handler, h') ← get_handler ctx h
    let (code, key) = verify_certificate_callback s k (verify handler) id type certs
    let (given, ks') = give key ks
    done (code, given, set h' ctx (some handler), ks')

  -- `verify_sign_callback`: the key is dropped with its box on every return.
  unfoldable pub callback_with_key : ℕ → Bytes → Bytes → Boxes Key → Exec (ℕ × Boxes Key)
  unfolding from_raw verify_sign_callback
  callback_with_key ctx bytes sign ks =
      get_pkey ctx ks >>= λ (key, ks'). done (verify_sign_callback s k key bytes sign, ks')

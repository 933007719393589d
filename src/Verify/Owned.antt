-- ===== src/Verify/Owned.antt =====
-- src/ffi/verify_certificate.rs: no box is used after it was freed or freed twice, and none of the keys
-- is lost.
use picoquic_rs.Base.{
  ℕ, zero, suc, ◌+◌, ◌≡◌, refl, sym, ap, ◌∙◌, arith, inl, inr, Option-cases, Bool, List, [], ◌∷◌,
  ◌++◌, Option, none, some, Result, Exec, done, ◌>>=◌, length, get_elem?, set,
  get_elem?-append_last,
}
use picoquic_rs.Errors.{Bytes}
use picoquic_rs.Ffi.Cnx.{ConnectionType}
use picoquic_rs.Verify.{Codes, Openssl, ErrorStack, verify_certificate_callback}
use picoquic_rs.Verify.Boxes.{
  Boxes, into_raw, from_raw, free_ctx, set_up, give, callback_with_handler, callback_with_key,
}

-- Without the element at a place.
abbrev pub remove : {A : Type 0} → ℕ → List A → List A
remove n [] = []
remove zero (x ∷ l) = l
remove (suc n) (x ∷ l) = x ∷ remove n l

-- The pointers, counted from `k`, of the boxes that were not freed.
abbrev pub live : {A : Type 0} → ℕ → Boxes A → List ℕ
live k [] = []
live k (none ∷ h) = live (suc k) h
live k (some a ∷ h) = k ∷ live (suc k) h

live-snoc :
    {A : Type 0} (k : ℕ) (h : Boxes A) (a : A)
    → live k (h ++ some a ∷ []) ≡ live k h ++ (k + length h) ∷ []
live-snoc k [] a = ap (λ n. n ∷ []) (omega arith)
live-snoc k (none ∷ h) a = live-snoc (suc k) h a ∙ ap (λ n. live (suc k) h ++ n ∷ []) (omega arith)
live-snoc k (some b ∷ h) a =
    ap (λ l. k ∷ l) (live-snoc (suc k) h a ∙ ap (λ n. live (suc k) h ++ n ∷ []) (omega arith))

-- A pointer that is live is the pointer of a box, and freeing it takes it off the live ones.
live-at :
    {A : Type 0} (k n p : ℕ) (h : Boxes A)
    → get_elem? (live k h) n ≡ some p
    → (i : ℕ) × (a : A) × (p ≡ k + i)
      × (get_elem? h i ≡ some (some a))
      × (live k (set h i none) ≡ remove n (live k h))
live-at k n p [] e = ground arith
live-at k n p (none ∷ h) e =
    let (i, a, at, found, gone) = live-at (suc k) n p h e in
    (suc i, a, omega (arith, at), found, gone)
live-at k zero p (some b ∷ h) e = (zero, b, ground arith, refl, refl)
live-at k (suc n) p (some b ∷ h) e =
    let (i, a, at, found, gone) = live-at (suc k) n p h e in
    (suc i, a, omega (arith, at), found, ap (λ l. k ∷ l) gone)

live-held :
    {A : Type 0} (n p : ℕ) (h : Boxes A)
    → get_elem? (live 0 h) n ≡ some p
    → (a : A) × (get_elem? h p ≡ some (some a)) × (live 0 (set h p none) ≡ remove n (live 0 h))
live-held n p h e =
    let (i, a, at, found, gone) = live-at 0 n p h e in
    let same : i ≡ p = omega (arith, at) in
    (a, ap (get_elem? h) (sym same) ∙ found, ap (λ j. live 0 (set h j none)) (sym same) ∙ gone)

set-back :
    {A : Type 0} (h : Boxes A) (p : ℕ) (a : A)
    → get_elem? h p ≡ some (some a)
    → set (set h p none) p (some a) ≡ h
set-back [] p a e = ground arith
set-back (none ∷ h) zero a e = ground arith
set-back (some b ∷ h) zero a e = ap (λ c. some c ∷ h) (ground arith)
set-back (o ∷ h) (suc p) a e = ap (λ l. o ∷ l) (set-back h p a e)

set-last :
    {A : Type 0} (h : Boxes A) (o b : Option A) → set (h ++ o ∷ []) (length h) b ≡ h ++ b ∷ []
set-last [] o b = refl
set-last (c ∷ h) o b = ap (λ l. c ∷ l) (set-last h o b)

free_ctx-last :
    {A : Type 0} (h : Boxes A) (a : A)
    → free_ctx (length h) (h ++ some a ∷ []) ≡ done (h ++ none ∷ [])
unfolding free_ctx from_raw
free_ctx-last h a =
    rw (get_elem?-append_last h (some a), free_ctx, from_raw) (ap done (set-last h (some a) none))

-- What picotls asks for: certificates to be verified, or a signature with the pointer it was given as
-- the `n`th of those that it still has.
pub data Event : Type 0 where
  certificates : ℕ → ConnectionType → List Bytes → Event
  signature : ℕ → Bytes → Bytes → Event

-- The boxes, and the pointers that picotls was given and has not used yet.
pub record Session (H Key : Type 0) : Type 0 where
  pub handlers : Boxes H
  pub keys : Boxes Key
  pub held : List ℕ

module _ {Cert Key Verifier H : Type 0} (s : Openssl Cert Key Verifier) (k : Codes)
    (verify : H → ℕ → ConnectionType → Cert → List Cert → Result Bool ErrorStack) (ctx : ℕ) where
  abbrev pub with_given : List ℕ → Option ℕ → List ℕ
  with_given l none = l
  with_given l (some p) = l ++ p ∷ []

  unfoldable pub happen : Event → Session H Key → Exec (Session H Key)
  happen (certificates id type certs) t = do
    (code, given, h, ks) ← callback_with_handler s k verify ctx id type certs t.handlers t.keys
    done (record { handlers = h; keys = ks; held = with_given t.held given })
  happen (signature n bytes sign) t = elim (get_elem? t.held n) [
    | none ↦ done t
    | some p ↦ callback_with_key s k p bytes sign t.keys >>= λ (code, ks).
        done (record t { keys = ks; held = remove n t.held })
  ]

  unfoldable pub happens : List Event → Session H Key → Exec (Session H Key)
  happens [] t = done t
  happens (e ∷ es) t = happen e t >>= λ t'. happens es t'

  given-live :
      (key : Option Key) (t : Session H Key)
      → t.held ≡ live 0 t.keys
      → with_given t.held (give s k key t.keys).0 ≡ live 0 (give s k key t.keys).1
  unfolding into_raw
  given-live none t h = h
  given-live (some key) t h =
      ap (λ l. l ++ length t.keys ∷ []) h
      ∙ ap (λ n. live 0 t.keys ++ n ∷ []) (omega arith)
      ∙ sym (live-snoc 0 t.keys key)

  happen-owned :
      (e : Event) (t : Session H Key) (handler : H)
      → get_elem? t.handlers ctx ≡ some (some handler)
      → t.held ≡ live 0 t.keys
      → (t' : Session H Key) × (happen e t ≡ done t')
        × (t'.handlers ≡ t.handlers)
        × (t'.held ≡ live 0 t'.keys)
  unfolding happen callback_with_handler callback_with_key from_raw
  happen-owned (certificates id type certs) t handler there h =
      let key = (verify_certificate_callback s k (verify handler) id type certs).1 in
      let (given, ks) = give s k key t.keys in
      (
        record {
          handlers = set (set t.handlers ctx none) ctx (some handler);
          keys = ks;
          held = with_given t.held given;
        },
        rw (there, happen, callback_with_handler, from_raw) refl,
        set-back t.handlers ctx handler there,
        given-live key t h,
      )
  happen-owned (signature n bytes sign) t handler there h =
      elim (Option-cases (get_elem? t.held n)) [
        | inl e ↦ (t, rw (e, happen) refl, refl, h)
        | inr (p, e) ↦
            let (key, found, gone) = live-held n p t.keys (ap (λ l. get_elem? l n) (sym h) ∙ e) in
            (
              record t { keys = set t.keys p none; held = remove n t.held },
              rw (e, happen, callback_with_key, from_raw, found) refl,
              refl,
              ap (remove n) h ∙ sym gone,
            )
      ]

  happens-owned :
      (es : List Event) (t : Session H Key) (handler : H)
      → get_elem? t.handlers ctx ≡ some (some handler)
      → t.held ≡ live 0 t.keys
      → (t' : Session H Key) × (happens es t ≡ done t')
        × (t'.handlers ≡ t.handlers)
        × (t'.held ≡ live 0 t'.keys)
  unfolding happens
  happens-owned [] t handler there h = (t, refl, refl, h)
  happens-owned (e ∷ es) t handler there h =
      let (t₁, first, same, h₁) = happen-owned e t handler there h in
      let (t', run, same', h') =
        happens-owned es t₁ handler (ap (λ b. get_elem? b ctx) same ∙ there) h₁ in
      (t', rw (first, happens) run, same' ∙ same, h')

module _ {Cert Key Verifier H Sys : Type 0} (s : Openssl Cert Key Verifier) (k : Codes)
    (verify : H → ℕ → ConnectionType → Cert → List Cert → Result Bool ErrorStack) where
  -- A handler is set up next to any other boxes, and picotls then asks for certificates and signatures
  -- to be verified in any order and number, each time for a signature with a pointer that it was given
  -- for a key and has not used. Each of these callbacks returns: none takes a box that is not there.
  -- The keys that are not freed are always those whose pointers picotls still has, each once, so that
  -- a key is freed by the callback for its signature, and no key is lost. When picotls then frees the
  -- handler, that returns and frees the handler's box and no other.
  pub set_up-owned :
      (set_callback : ℕ → Sys → ℕ × Sys) (handler : H) (h : Boxes H) (sys : Sys) (es : List Event)
      → let (result, boxes, sys') = set_up set_callback handler h sys in
        (t : Session H Key) × (happens s k verify
            (length h)
            es
            (record { handlers = boxes; keys = []; held = [] })
          ≡ done t)
        × (t.held ≡ live 0 t.keys)
        × (free_ctx (length h) t.handlers ≡ done (h ++ none ∷ []))
  unfolding set_up into_raw
  set_up-owned set_callback handler h sys es =
      let (t, run, same, held) =
        happens-owned s k verify (length h) es
          (record { handlers = h ++ some handler ∷ []; keys = []; held = [] }) handler
          (get_elem?-append_last h (some handler)) refl in
      (t, run, held, ap (free_ctx (length h)) same ∙ free_ctx-last h handler)

-- ===== src/Base/Outcome.antt =====
-- `Result`, `Async` and `Poll` of the futures crate's interface, and runs that can panic or, in a
-- loop on fuel, run out of it.
use mathlib.Core.Path.{◌≡◌, refl}
use mathlib.Core.Logic.{◌⊎◌, inl, inr}
use mathlib.Core.Bool.{Bool, true, false}
use picoquic_rs.Base.Tests.{if◌then◌else◌}
use mathlib.Core.Option.{Option, none, some}

pub data Result {ℓ κ} (A : Type ℓ) (E : Type κ) : Type (ℓ ⊔ κ) where
  ok : A → Result A E
  err : E → Result A E

pub data Async {ℓ} (A : Type ℓ) : Type ℓ where
  ready : A → Async A
  not_ready : Async A

abbrev pub Poll {ℓ κ} : Type ℓ → Type κ → Type (ℓ ⊔ κ)
Poll A E = Result (Async A) E

abbrev pub map_err {ℓ κ μ} :
    {A : Type ℓ} {E : Type κ} {F : Type μ} → (E → F) → Result A E → Result A F
map_err f (ok a) = ok a
map_err f (err e) = err (f e)

-- What a call comes to: a value, a panic, or a loop that its fuel did not see through.
pub data Exec {ℓ} (A : Type ℓ) : Type ℓ where
  done : A → Exec A
  panic : Exec A
  out_of_fuel : Exec A

infixl 5 ◌>>=◌ ◌>>◌
abbrev pub ◌>>=◌ {ℓ κ} : {A : Type ℓ} {B : Type κ} → Exec A → (A → Exec B) → Exec B
done a >>= f = f a
panic >>= f = panic
out_of_fuel >>= f = out_of_fuel

abbrev pub ◌>>◌ {ℓ} : {B : Type ℓ} → Exec (Unit {0}) → Exec B → Exec B
m >> k = m >>= λ _. k

-- The answers of a poll.
pub Poll-cases {ℓ} :
    {A : Type ℓ} {E : Type 0} (r : Poll (Option A) E)
    → ((a : A) × (r ≡ ok (ready (some a))))
      ⊎ ((e : E) × (r ≡ err e))
      ⊎ (r ≡ ok not_ready)
      ⊎ (r ≡ ok (ready none))
Poll-cases (ok (ready (some a))) = inl (a, refl)
Poll-cases (ok (ready none)) = inr (inr (inr refl))
Poll-cases (ok not_ready) = inr (inr (inl refl))
Poll-cases (err e) = inr (inl (e, refl))

-- What holds of the result, where a computation has one.
abbrev pub Post {ℓ} : {A : Type 0} → (A → Type ℓ) → Exec A → Type ℓ
Post P (done a) = P a
Post P panic = Unit
Post P out_of_fuel = Unit

pub Post-bind {ℓ k} :
    {A B : Type 0} (P : A → Type ℓ) (Q : B → Type k) (m : Exec A) (f : A → Exec B)
    → Post P m
    → ((a : A) → P a → Post Q (f a))
    → Post Q (m >>= f)
Post-bind P Q (done a) f p g = g a p
Post-bind P Q panic f p g = tt
Post-bind P Q out_of_fuel f p g = tt

pub Post-always {ℓ} : {A : Type 0} (P : A → Type ℓ) (m : Exec A) → ((a : A) → P a) → Post P m
Post-always P (done a) f = f a
Post-always P panic f = tt
Post-always P out_of_fuel f = tt

pub Result-cases {ℓ κ} :
    {A : Type ℓ} {E : Type κ} (r : Result A E) → ((a : A) × (r ≡ ok a)) ⊎ ((e : E) × (r ≡ err e))
Result-cases (ok a) = inl (a, refl)
Result-cases (err e) = inr (e, refl)

pub Post-if {ℓ} :
    {A : Type 0} (P : A → Type ℓ) (b : Bool) (m n : Exec A)
    → Post P m
    → Post P n
    → Post P (if b then m else n)
Post-if P true m n p q = p
Post-if P false m n p q = q

pub Post-mono {ℓ κ} :
    {A : Type 0} (P : A → Type ℓ) (Q : A → Type κ) (m : Exec A)
    → ((a : A) → P a → Q a)
    → Post P m
    → Post Q m
Post-mono P Q (done a) f p = f a p
Post-mono P Q panic f p = tt
Post-mono P Q out_of_fuel f p = tt

pub Post-both {ℓ κ} :
    {A : Type 0} (P : A → Type ℓ) (Q : A → Type κ) (m : Exec A)
    → Post P m
    → Post Q m
    → Post (λ a. P a × Q a) m
Post-both P Q (done a) p q = (p, q)
Post-both P Q panic p q = tt
Post-both P Q out_of_fuel p q = tt

pub Post-done : {A : Type 0} (m : Exec A) → Post (λ a. m ≡ done a) m
Post-done (done a) = refl
Post-done panic = tt
Post-done out_of_fuel = tt

-- What holds after each case of an answer holds after the answer.
module _ {ℓ} {A B : Type 0} (P : B → Type ℓ) where
  pub Post-poll :
      {E : Type 0} (r : Poll A E) (m : A → Exec B) (n : Exec B) (o : E → Exec B)
      → ((a : A) → Post P (m a))
      → Post P n
      → ((e : E) → Post P (o e))
      → Post P (elim r [ ok (ready a) ↦ m a | ok not_ready ↦ n | err e ↦ o e ])
  Post-poll (ok (ready a)) m n o p q t = p a
  Post-poll (ok not_ready) m n o p q t = q
  Post-poll (err e) m n o p q t = t e

  pub Post-option :
      (r : Option A) (m : A → Exec B) (n : Exec B)
      → ((a : A) → Post P (m a))
      → Post P n
      → Post P (elim r [ some a ↦ m a | none ↦ n ])
  Post-option (some a) m n p q = p a
  Post-option none m n p q = q

pub Post-bool {ℓ} :
    {B : Type 0} (P : B → Type ℓ) (b : Bool) (m n : Exec B)
    → Post P m
    → Post P n
    → Post P (elim b [ true ↦ m | false ↦ n ])
Post-bool P true m n p q = p
Post-bool P false m n p q = q

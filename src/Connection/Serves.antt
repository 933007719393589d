-- ===== src/Connection/Serves.antt =====
-- src/connection.rs: the ids of the streams that a connection serves, and what becomes of them.
use picoquic_rs.Base.{
  ℕ, ◌≡◌, refl, sym, ap, ◌∙◌, inl, inr, List, [], ◌∷◌, ◌++◌, map, none, some, Bool-cases, ◌==◌,
  ==_iff, arith, false,
}
use picoquic_rs.Stream.Types as StreamTypes
use picoquic_rs.Connection.Types.{Streams, lookup, insert}

abbrev pub ids : Streams → List ℕ
ids m = map (λ x. x.0) m

-- No stream is served under this id.
abbrev pub Free : ℕ → List ℕ → Type 0
Free id [] = Unit
Free id (j ∷ l) = (j ≡ id → ⊥) × Free id l

-- The ids from the first list to the last one: a stream is handed to the application when it is
-- opened, under an id that is free, and a stream that is served can end. The second list has the ids
-- that were handed over, in order.
pub data Serves : List ℕ → List ℕ → List ℕ → Type 0 where
  rest : {l : List ℕ} → Serves l [] l
  opened :
      {l hs l' : List ℕ} (id : ℕ) → Free id l → Serves (l ++ id ∷ []) hs l' → Serves l (id ∷ hs) l'
  ended :
      {l hs l' : List ℕ} (a b : List ℕ) (id : ℕ)
      → l ≡ a ++ id ∷ b
      → Serves (a ++ b) hs l'
      → Serves l hs l'

pub Serves-trans : (l hs m ks n : List ℕ) → Serves l hs m → Serves m ks n → Serves l (hs ++ ks) n
Serves-trans l _ _ ks n rest t = t
Serves-trans l _ m ks n (opened {hs = hs} id free s) t =
    opened id free (Serves-trans (l ++ id ∷ []) hs m ks n s t)
Serves-trans l hs m ks n (ended a b id e s) t = ended a b id e (Serves-trans (a ++ b) hs m ks n s t)

-- Endings alone, with one more stream in front.
pub Serves-behind :
    (x : ℕ) (l hs l' : List ℕ) → Serves l hs l' → hs ≡ [] → Serves (x ∷ l) [] (x ∷ l')
Serves-behind x l _ _ rest h = rest
Serves-behind x l _ l' (opened id free s) h = ground arith
Serves-behind x l hs l' (ended a b id e s) h =
    ended (x ∷ a) b id (ap (λ k. x ∷ k) e) (Serves-behind x (a ++ b) hs l' s h)

-- What is not found is under another id than the first, and not behind it.
pub lookup_rest :
    (id j : ℕ) (s : StreamTypes.Context) (m : Streams)
    → lookup id ((j, s) ∷ m) ≡ none
    → ((j == id) ≡ false) × (lookup id m ≡ none)
unfolding lookup
lookup_rest id j s m h = elim (Bool-cases (j == id)) [
  | inl same ↦ ground arith
  | inr other ↦ (other, sym (rw other refl) ∙ h)
]

pub lookup-Free : (id : ℕ) (m : Streams) → lookup id m ≡ none → Free id (ids m)
unfolding lookup
lookup-Free id [] h = tt
lookup-Free id ((j, s) ∷ m) h =
    let (other, none_behind) = lookup_rest id j s m h in
    (λ same. cc ((==_iff j id).1 same, other), lookup-Free id m none_behind)

-- A stream under a new id stands last.
pub insert-new :
    (id : ℕ) (s : StreamTypes.Context) (m : Streams)
    → lookup id m ≡ none
    → ids (insert id s m) ≡ ids m ++ id ∷ []
unfolding lookup insert
insert-new id s [] h = refl
insert-new id s ((j, t) ∷ m) h =
    let (other, none_behind) = lookup_rest id j t m h in
    rw other (ap (λ l. j ∷ l) (insert-new id s m none_behind))

-- A stream that is there stays at its place.
pub insert-found :
    (id : ℕ) (s t : StreamTypes.Context) (m : Streams)
    → lookup id m ≡ some t
    → ids (insert id s m) ≡ ids m
unfolding lookup insert
insert-found id s t [] h = ground arith
insert-found id s t ((j, u) ∷ m) h = elim (Bool-cases (j == id)) [
  | inl same ↦ rw same (ap (λ i. i ∷ ids m) (sym ((==_iff j id).0 same)))
  | inr other ↦
      let behind : lookup id m ≡ some t = sym (rw other refl) ∙ h in
      rw other (ap (λ l. j ∷ l) (insert-found id s t m behind))
]

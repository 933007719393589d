-- ===== src/Stream/Copying.antt =====
-- src/stream.rs: the copying loop of `handle_send_data` cuts the collected bytes in two.
use picoquic_rs.Base.{
  ℕ, zero, suc, ◌+◌, ◌-◌, ◌≤◌, ◌<◌, ◌≡◌, refl, ap, ◌∙◌, inl, inr, min, false, List, [], ◌∷◌, ◌++◌,
  Option, none, some, Exec, done, arith, length, take, drop, concat, append_assoc, append-nil,
  length-append, length-drop, take_all, drop_all, lt→ltb, ltb→lt, is_some, ltb, leb, leb→lt, leb→le,
  Bool-cases,
}
use picoquic_rs.Errors.{Bytes}
use picoquic_rs.Stream.SendData.{copy_buffers}

-- Every buffer but the last fits, one after the other, into `room` bytes.
abbrev pub Fits : ℕ → List Bytes → Type 0
Fits room [] = Unit
Fits room (b ∷ []) = Unit
Fits room (b ∷ c ∷ bufs) = (length b ≤ room) × Fits (room - length b) (c ∷ bufs)

-- The bytes that are left over, as an active buffer.
abbrev pub left_over : Bytes → Option Bytes
left_over [] = none
left_over (b ∷ bs) = some (b ∷ bs)

abbrev pub bytes_of : Option Bytes → Bytes
bytes_of none = []
bytes_of (some b) = b

pub Fits-snoc :
    (room : ℕ) (bufs : List Bytes) (b : Bytes)
    → length (concat bufs) ≤ room
    → Fits room (bufs ++ b ∷ [])
Fits-snoc room [] b h = tt
Fits-snoc room (c ∷ []) b h = (omega (arith, ap length (append-nil c)), tt)
Fits-snoc room (c ∷ d ∷ bufs) b h =
    let e = length-append c (concat (d ∷ bufs)) in
    (omega arith, Fits-snoc (room - length c) (d ∷ bufs) b (omega arith))

take-append {ℓ} :
    {A : Type ℓ} (n k : ℕ) (xs ys : List A)
    → n ≡ length xs + k
    → take n (xs ++ ys) ≡ xs ++ take k ys
take-append n k [] ys h = let e : n ≡ k = omega arith in rw e
take-append zero k (x ∷ xs) ys h = absurd (omega arith)
take-append (suc n) k (x ∷ xs) ys h = ap (λ l. x ∷ l) (take-append n k xs ys (omega arith))

drop-append {ℓ} :
    {A : Type ℓ} (n k : ℕ) (xs ys : List A) → n ≡ length xs + k → drop n (xs ++ ys) ≡ drop k ys
drop-append n k [] ys h = let e : n ≡ k = omega arith in rw e
drop-append zero k (x ∷ xs) ys h = absurd (omega arith)
drop-append (suc n) k (x ∷ xs) ys h = drop-append n k xs ys (omega arith)

ltb_irrefl : (a b : ℕ) → a ≡ b → ltb a b ≡ false
ltb_irrefl a b h = ground arith

ltb_ge : (a b : ℕ) → ltb a b ≡ false → b ≤ a
ltb_ge a b h = ground arith

-- One buffer that fits whole.
copy_whole :
    (size : ℕ) (written : Bytes) (b : Bytes) (bufs : List Bytes)
    → length written + length b ≤ size
    → copy_buffers size written none (b ∷ bufs) ≡ copy_buffers size (written ++ b) none bufs
unfolding copy_buffers
copy_whole size written [] bufs h =
    let none_left : Bytes = [] in
    let n = min (length written + 0) size - length written in
    ground (
      arith,
      append-nil written,
      take_all n none_left (omega arith),
      drop_all n none_left (omega arith),
    )
copy_whole size written (x ∷ b) bufs h =
    let n = min (length written + suc (length b)) size - length written in
    rw (
      lt→ltb (length written) size (omega arith),
      take_all n (x ∷ b) (omega arith),
      drop_all n (x ∷ b) (omega arith),
    )

cons_of_pos : (d : Bytes) → 0 < length d → (x : ℕ) × (r : Bytes) × (d ≡ x ∷ r)
cons_of_pos [] h = absurd (omega arith)
cons_of_pos (x ∷ r) h = (x, r, refl)

-- The last buffer, where it does not fit.
copy_last :
    (size k : ℕ) (written : Bytes) (b : Bytes)
    → length written + k ≡ size
    → k < length b
    → copy_buffers size written none (b ∷ []) ≡ done (written ++ take k b, left_over (drop k b))
unfolding copy_buffers
copy_last size zero written [] e h = absurd (omega arith)
copy_last size zero written (x ∷ b) e h =
    rw (ltb_irrefl (length written) size (omega arith), append-nil written)
copy_last size (suc k) written b e h =
    let n = min (length written + length b) size - length written in
    let n-eq : n ≡ suc k = omega arith in
    let (x, r, d) = cons_of_pos (drop (suc k) b) (omega (arith, length-drop (suc k) b)) in
    rw (lt→ltb (length written) size (omega arith), n-eq, d)

copy_none :
    (size k : ℕ) (written : Bytes)
    → copy_buffers size written none [] ≡ done (written ++ take k [], left_over (drop k []))
unfolding copy_buffers
copy_none size k written =
    let none_left : Bytes = [] in
    rw (take_all k none_left (omega arith), drop_all k none_left (omega arith), append-nil written)

-- Copying a buffer whole and then the rest is copying both.
regroup :
    (k : ℕ) (written b rest : Bytes)
    → length b ≤ k
    → ◌≡◌ {A = Exec (Bytes × Option Bytes)}
        (done ((written ++ b) ++ take (k - length b) rest, left_over (drop (k - length b) rest)))
        (done (written ++ take k (b ++ rest), left_over (drop k (b ++ rest))))
regroup k written b rest h = rw (
  take-append k (k - length b) b rest (omega arith),
  drop-append k (k - length b) b rest (omega arith),
  append_assoc written b (take (k - length b) rest),
)

-- The loop copies as many bytes as there is room for and keeps the others, and does not panic.
pub copy_buffers_lem :
    (size k : ℕ) (written : Bytes) (bufs : List Bytes)
    → length written + k ≡ size
    → Fits k bufs
    → copy_buffers size written none bufs
      ≡ done (written ++ take k (concat bufs), left_over (drop k (concat bufs)))
copy_buffers_lem size k written [] e h = copy_none size k written
copy_buffers_lem size k written (b ∷ []) e h = elim (Bool-cases (leb (length b) k)) [
  | inl fits ↦
      let le = leb→le _ _ fits in
      copy_whole size written b [] (omega arith)
      ∙ copy_none size (k - length b) (written ++ b)
      ∙ regroup k written b [] le
  | inr over ↦ rw (append-nil b) (copy_last size k written b e (leb→lt _ _ over))
]
copy_buffers_lem size k written (b ∷ c ∷ bufs) e h =
    copy_whole size written b (c ∷ bufs) (omega arith)
    ∙ copy_buffers_lem size (k - length b) (written ++ b) (c ∷ bufs)
        (omega (arith, length-append written b)) h.1
    ∙ regroup k written b (concat (c ∷ bufs)) h.0

pub bytes_of-left_over : (d : Bytes) → bytes_of (left_over d) ≡ d
bytes_of-left_over [] = refl
bytes_of-left_over (x ∷ d) = refl

pub is_some-left_over : (n : ℕ) (xs : Bytes) → is_some (left_over (drop n xs)) ≡ ltb n (length xs)
is_some-left_over n xs = elim (Bool-cases (ltb n (length xs))) [
  | inl over ↦
      let (x, r, d) = cons_of_pos (drop n xs) (omega (arith, length-drop n xs, ltb→lt n _ over)) in
      rw (d, over)
  | inr fits ↦ rw (drop_all n xs (ltb_ge n (length xs) fits), fits)
]

pub Fits-all : (room : ℕ) (bufs : List Bytes) → length (concat bufs) ≤ room → Fits room bufs
Fits-all room [] h = tt
Fits-all room (b ∷ []) h = tt
Fits-all room (b ∷ c ∷ bufs) h =
    let e = length-append b (concat (c ∷ bufs)) in
    (omega arith, Fits-all (room - length b) (c ∷ bufs) (omega arith))

-- What fits below the limit fits below what there is of it.
pub Fits-min :
    (room : ℕ) (bufs : List Bytes) → Fits room bufs → Fits (min room (length (concat bufs))) bufs
Fits-min room bufs f = elim (Bool-cases (leb (length (concat bufs)) room)) [
  | inl all ↦ Fits-all _ bufs (omega (arith, leb→le _ _ all))
  | inr more ↦
      let e : min room (length (concat bufs)) ≡ room = omega (arith, leb→lt _ _ more) in rw e f
]

pub left_over-none : (n : ℕ) (xs : Bytes) → length xs ≤ n → left_over (drop n xs) ≡ none
left_over-none n xs h = rw (drop_all n xs h)

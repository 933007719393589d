-- ===== src/Swappable/Examples.antt =====
-- src/swappable_stream.rs: theorems at concrete inputs. The streams are queues of numbers, which end
-- when they are empty.
use picoquic_rs.Base.{
  ℕ, ◌≡◌, refl, List, [], ◌∷◌, Option, none, some, Poll, ok, ready, done, arith, ◌==◌,
  if◌then◌else◌,
}
use picoquic_rs.Swappable.{SwappableStream, poll}
use picoquic_rs.Swappable.Laws.{IsQueue, Takes, pending, Apart, poll-Takes}

abbrev Queues : Type 0
Queues = ℕ → List ℕ

abbrev front : List ℕ → Poll (Option ℕ) ℕ
front [] = ok (ready none)
front (a ∷ l) = ok (ready (some a))

abbrev rest_of : List ℕ → List ℕ
rest_of [] = []
rest_of (a ∷ l) = l

abbrev poll_queue : ℕ → Queues → Poll (Option ℕ) ℕ × Queues
poll_queue c w = (front (w c), λ d. if c == d then rest_of (w d) else w d)

abbrev no_drop : ℕ → Queues → Queues
no_drop c w = w

front-Takes : (l : List ℕ) → Takes (front l) l (rest_of l)
front-Takes [] = ground arith
front-Takes (a ∷ l) = ground arith

poll_queue-IsQueue : IsQueue poll_queue no_drop (λ c. c) (λ c w. w c)
poll_queue-IsQueue = record {
  takes = λ c w. ground (arith, front-Takes (w c));
  others = λ c d w h. ground arith;
  others_drop = λ c d w h. refl;
}

abbrev queues : Queues
queues c = if c == 2 then 7 ∷ 8 ∷ [] else []

abbrev swapping : SwappableStream ℕ
swapping = record { active_stream = 1; swap_to = some 2 }

poll-Takes_example :
    (r : Poll (Option ℕ) ℕ) × (s' : SwappableStream ℕ) × (w' : Queues) × (poll poll_queue no_drop
        swapping queues
      ≡ done (r, s', w'))
    × Takes r
        (pending poll_queue no_drop poll_queue-IsQueue swapping queues)
        (pending poll_queue no_drop poll_queue-IsQueue s' w')
    × Apart poll_queue no_drop poll_queue-IsQueue s'.active_stream s'.swap_to
    × ◌≡◌ {A = ℕ} 0 0
poll-Takes_example =
    poll-Takes poll_queue no_drop poll_queue-IsQueue (λ w. 0) swapping queues (λ c w. refl)
      (λ c w. refl) (omega arith)

-- ===== src/Ffi/StreamId.antt =====
-- src/ffi/connection.rs: `generate_stream_id`. `x | 1` and `x | 2` add the bit where it is missing.
use picoquic_rs.Base.{
  ℕ, ◌+◌, ◌-◌, ◌*◌, ◌/◌, ◌%◌, ◌^◌, ◌<◌, ◌≡◌, ap, sym, ◌∙◌, Bool, true, false, not, arith,
  if◌then◌else◌,
}
use picoquic_rs.Stream.Id.{
  StreamType, unidirectional, bidirectional, is_client_initiated, is_unidirectional_send_allowed,
  type_of_id,
}

abbrev or_1 : ℕ → ℕ
or_1 x = x + (1 - x % 2)

abbrev or_2 : ℕ → ℕ
or_2 x = x + 2 * (1 - x / 2 % 2)

-- The sum and the shift are those of `u64`.
unfoldable pub generate_stream_id : ℕ → Bool → StreamType → ℕ
generate_stream_id next_id is_client stype =
    let id = (next_id + 1) % 2 ^ 64 * 4 % 2 ^ 64 in
    let id' = if not is_client then or_1 id else id in
    elim stype [ unidirectional ↦ or_2 id' | bidirectional ↦ id' ]

-- Below 2 ^ 62 - 1, the id encodes its three arguments: the quotient by 4 is the next number, the
-- lowest bit says who initiated the stream and the second one the stream's type.
pub generate_stream_id-decode :
    (next_id : ℕ) (is_client : Bool) (stype : StreamType)
    → next_id + 1 < 2 ^ 62
    → let id = generate_stream_id next_id is_client stype in
      (id / 4 ≡ next_id + 1)
      × (is_client_initiated id ≡ is_client)
      × (type_of_id id ≡ stype)
      × (id < 2 ^ 64)
unfolding generate_stream_id is_client_initiated type_of_id
generate_stream_id-decode n true unidirectional h = ground arith
generate_stream_id-decode n true bidirectional h = ground arith
generate_stream_id-decode n false unidirectional h = ground arith
generate_stream_id-decode n false bidirectional h = ground arith

-- So different requests of one connection, and requests of its two sides, never get the same id.
pub generate_stream_id-injective :
    (n m : ℕ) (c d : Bool) (t u : StreamType)
    → n + 1 < 2 ^ 62
    → m + 1 < 2 ^ 62
    → generate_stream_id n c t ≡ generate_stream_id m d u
    → (n ≡ m) × (c ≡ d) × (t ≡ u)
generate_stream_id-injective n m c d t u h k e =
    let p = generate_stream_id-decode n c t h in
    let q = generate_stream_id-decode m d u k in
    (
      omega (arith, ap (λ x. x / 4) e),
      sym p.1 ∙ ap is_client_initiated e ∙ q.1,
      sym p.2 ∙ ap type_of_id e ∙ q.2,
    )

-- The side that opens a stream may send on it, and where the stream is unidirectional the other side
-- may not.
pub generate_stream_id-send_allowed :
    (n : ℕ) (c d : Bool) (t : StreamType)
    → n + 1 < 2 ^ 62
    → is_unidirectional_send_allowed (generate_stream_id n c t) d ≡ (if c then d else not d)
unfolding is_unidirectional_send_allowed
generate_stream_id-send_allowed n c d t h = rw (generate_stream_id-decode n c t h).1

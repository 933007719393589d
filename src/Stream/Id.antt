-- ===== src/Stream/Id.antt =====
-- src/stream.rs: what the two lowest bits of a stream id say. `id & 1` is the remainder by 2 and
-- `id & 2` is not 0 when the quotient by 2 is odd.
use picoquic_rs.Base.{ℕ, ◌/◌, ◌%◌, Bool, ◌==◌, if◌then◌else◌, not}

-- `stream::Type`
pub data StreamType : Type 0 where
  unidirectional bidirectional : StreamType

unfoldable pub is_unidirectional : ℕ → Bool
is_unidirectional id = not (id / 2 % 2 == 0)

unfoldable pub is_client_initiated : ℕ → Bool
is_client_initiated id = id % 2 == 0

unfoldable pub is_unidirectional_send_allowed : ℕ → Bool → Bool
unfolding is_client_initiated
is_unidirectional_send_allowed id is_client_con =
    if is_client_initiated id then is_client_con else not is_client_con

-- `Stream::get_type`
unfoldable pub type_of_id : ℕ → StreamType
unfolding is_unidirectional
type_of_id id = if is_unidirectional id then unidirectional else bidirectional

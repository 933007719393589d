-- ===== src/Ffi/Cnx.antt =====
-- src/ffi/connection.rs: what the wrapper computes from picoquic's answers.
use picoquic_rs.Base.{
  ℕ, ◌%◌, ◌^◌, Bool, Option, none, some, Result, ok, err, Exec, done, panic, ◌>>=◌, ◌==◌, ltb, leb,
  if◌then◌else◌,
}
use picoquic_rs.Errors.{
  Error, ErrorFn, Bytes, from_kind, disconnected, unknown, tls_handshake_error, from_foreign,
  nul_error,
}
use picoquic_rs.World
use picoquic_rs.World.{World, Call, perform}
use picoquic_rs.Ffi.MicroSeconds.{Duration, as_micro_seconds}

-- `connection::Type`
pub data ConnectionType : Type 0 where
  incoming outgoing : ConnectionType

-- A raw address, which the C library fills in, and its readings as IPv4 and IPv6.
pub record Sockaddrs : Type 0 where
  pub as_inet : ℕ → ℕ → Option ℕ
  pub as_inet6 : ℕ → ℕ → Option ℕ

-- `socket_addr_from_sockaddr` and `socket_addr_from_sockaddr_storage`
unfoldable pub socket_addr_from_sockaddr : Sockaddrs → ℕ → ℕ → Exec ℕ
socket_addr_from_sockaddr k addr len = elim (k.as_inet addr len) [
  | some a ↦ done a
  | none ↦ elim (k.as_inet6 addr len) [ some a ↦ done a | none ↦ panic ]
]

-- The answer of `picoquic_prepare_packet`: its return value as a bit pattern, the length and the
-- address of the packet, and the buffer with what was written into it.
pub record Prepared : Type 0 where
  pub ret : ℕ
  pub send_len : ℕ
  pub addr : ℕ
  pub addr_len : ℕ
  pub buffer : Bytes

-- `Connection::prepare_packet`, after picoquic's answer; the other argument is picoquic's constant
-- `PICOQUIC_ERROR_DISCONNECTED`.
unfoldable pub prepare_packet : ℕ → Sockaddrs → Prepared → Exec (Result (Option (ℕ × ℕ)) Error)
unfolding socket_addr_from_sockaddr
prepare_packet error_disconnected k p =
    if p.ret == error_disconnected
    then done (err (from_kind disconnected))
    else if p.ret == 0
    then if ltb 0 p.send_len
      then (socket_addr_from_sockaddr k p.addr p.addr_len >>= λ a. done (ok (some (p.send_len, a))))
      else done (ok none)
    else done (err (from_kind unknown))

module _ {Sys : Type 0} where
  -- `Connection::peer_addr` and `local_addr`: picoquic gives an address and its length, which is read.
  unfoldable pub peer_addr : (ℕ → Sys → ℕ × ℕ) → Sockaddrs → ℕ → Sys → Exec ℕ
  peer_addr get_peer_addr k cnx s =
      let (addr, addr_len) = get_peer_addr cnx s in socket_addr_from_sockaddr k addr addr_len

  unfoldable pub local_addr : (ℕ → Sys → ℕ × ℕ) → Sockaddrs → ℕ → Sys → Exec ℕ
  local_addr get_local_addr k cnx s =
      let (addr, addr_len) = get_local_addr cnx s in socket_addr_from_sockaddr k addr addr_len

  -- `Connection::close`, with 0 for the reason.
  abbrev pub close : (Call → Sys → Sys) → ℕ → World Sys → World Sys
  close call cnx w = perform call (World.close_cnx cnx 0) w

  -- `Connection::enable_keep_alive`
  abbrev pub enable_keep_alive : (Call → Sys → Sys) → ℕ → Duration → World Sys → World Sys
  enable_keep_alive call cnx interval w =
      perform call (World.enable_keep_alive cnx (as_micro_seconds interval)) w

  -- `Connection::delete`, where picoquic may call back.
  abbrev pub delete : (ℕ → Sys → Sys) → ℕ → Sys → Sys
  delete delete_cnx cnx s = delete_cnx cnx s

-- `is_disconnected` and `is_going_to_close`, from the state and picoquic's constants.
unfoldable pub is_disconnected : ℕ → ℕ → Bool
is_disconnected state_disconnected state = state == state_disconnected

unfoldable pub is_going_to_close : ℕ → ℕ → Bool
is_going_to_close state_closing state = leb state_closing state

-- `con_type`, from `picoquic_is_client`.
unfoldable pub con_type : ℕ → ConnectionType
con_type is_client = if is_client == 1 then outgoing else incoming

-- `Connection::error`, from the local and the remote error code. `is_handshake_error` reads the
-- low 16 bits.
unfoldable pub error : (ℕ → ℕ) → ℕ → ℕ → Option ErrorFn
error is_handshake_error local remote =
    let error_code = if local == 0 then remote else local in
    let is_handshake = is_handshake_error (error_code % 2 ^ 16) == 1 in
    if error_code == 0
    then none
    else some (λ _. from_kind (if is_handshake then tls_handshake_error else unknown))

-- `ConnectionIter::next`: `none` for picoquic's null pointer, 0.
unfoldable pub next_connection : ℕ → Option ℕ
next_connection ptr = if ptr == 0 then none else some ptr

-- `Connection::new`: an address that is not specified is a panic, and a name with a zero byte an
-- error before picoquic is asked. `create` is picoquic's answer, 0 for a null pointer.
unfoldable pub new_cnx {ℓ} :
    {W : Type ℓ} → Bool → Bool → (W → ℕ × W) → W → Exec (Result ℕ Error × W)
new_cnx is_unspecified has_nul create w =
    if is_unspecified
    then panic
    else if has_nul
    then done (err (from_foreign nul_error), w)
    else (let (ptr, w') = create w in
        done (if ptr == 0 then err (from_kind unknown) else ok ptr, w'))

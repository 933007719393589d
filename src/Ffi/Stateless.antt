-- ===== src/Ffi/Stateless.antt =====
-- src/ffi/stateless_packet.rs: the packets that picoquic sends outside of any connection.
use picoquic_rs.Base.{
  ℕ, Option, none, some, Exec, done, panic, ◌==◌, leb, if◌then◌else◌, length, take,
}
use picoquic_rs.Errors.{Bytes}
use picoquic_rs.Ffi.Cnx.{Sockaddrs, socket_addr_from_sockaddr}

-- `picoquic_stateless_packet_t`: the family and the place of `addr_to`, the array of 1536 bytes, and
-- how many of them are the packet.
pub record StatelessPacket : Type 0 where
  pub ss_family : ℕ
  pub addr_to : ℕ
  pub bytes : Bytes
  pub length : ℕ

-- `libc::AF_INET`, and the sizes of `sockaddr_in` and `sockaddr_in6`, on Linux.
abbrev af_inet : ℕ
af_inet = 2

abbrev sockaddr_in_size : ℕ
sockaddr_in_size = 16

abbrev sockaddr_in6_size : ℕ
sockaddr_in6_size = 28

-- `StatelessPacket::get_peer_addr`
unfoldable pub get_peer_addr : Sockaddrs → StatelessPacket → Exec ℕ
unfolding socket_addr_from_sockaddr
get_peer_addr k p =
    let socket_len = if p.ss_family == af_inet then sockaddr_in_size else sockaddr_in6_size in
    socket_addr_from_sockaddr k p.addr_to socket_len

-- `StatelessPacket::get_data`. Reading past the array is undefined; here it is a panic.
unfoldable pub get_data : StatelessPacket → Exec Bytes
get_data p = if leb p.length (length p.bytes) then done (take p.length p.bytes) else panic

-- `StatelessPacketIter::next`: `none` for a null pointer, 0.
unfoldable pub next_packet : ℕ → Option ℕ
next_packet res = if res == 0 then none else some res

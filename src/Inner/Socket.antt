-- ===== src/Inner/Socket.antt =====
-- src/context_inner.rs: sending and receiving on the socket, through one buffer.
use picoquic_rs.Base.{
  ℕ, zero, suc, Bool, true, false, ◌++◌, Option, none, some, ok, err, ready, not_ready, Poll, Exec,
  done, panic, out_of_fuel, leb, ◌>>=◌, if◌then◌else◌, length, take, drop,
}
use picoquic_rs.Errors.{Bytes}
use picoquic_rs.Ffi.Stateless.{StatelessPacket, get_data, get_peer_addr, next_packet}
use picoquic_rs.Ffi.Cnx as Cnx
use picoquic_rs.Ffi.Cnx.{Sockaddrs, Prepared, prepare_packet, is_disconnected, next_connection}

-- The parts of `ContextInner` that the socket's side changes: the buffer, and the length and address
-- of the datagram in it that the socket did not take.
pub record Buffers : Type 0 where
  pub buffer : Bytes
  pub not_send_length : Option (ℕ × ℕ)

-- The socket and picoquic. A datagram received is its bytes and where it is from; a connection is
-- named by its pointer, 0 for none. A packet that comes in is its bytes, from where and to where, and
-- the time; picoquic may write over the bytes, and returns them with a code.
pub record Ext (Sys IoError : Type 0) : Type 0 where
  pub poll_send_to : Bytes → ℕ → Sys → Poll ℕ IoError × Sys
  pub poll_recv_from : ℕ → Sys → Poll (Bytes × ℕ) IoError × Sys
  pub incoming_packet : Bytes → ℕ → ℕ → ℕ → Sys → (ℕ × Bytes) × Sys
  pub dequeue_stateless : Sys → ℕ × Sys
  pub stateless_packet : ℕ → Sys → StatelessPacket
  pub delete_stateless : ℕ → Sys → Sys
  pub earliest_cnx_to_wake : ℕ → Sys → ℕ × Sys
  pub cnx_state : ℕ → Sys → ℕ
  pub delete_cnx : ℕ → Sys → Sys
  pub prepare : ℕ → ℕ → Bytes → Sys → Prepared × Sys
  pub sockaddrs : Sockaddrs
  pub error_disconnected : ℕ
  pub state_disconnected : ℕ

-- What is written over the start of a buffer.
abbrev pub overwrite : Bytes → Bytes → Bytes
overwrite bytes buffer = bytes ++ drop (length bytes) buffer

module _ {Sys IoError : Type 0} (ext : Ext Sys IoError) where
  -- `QuicCtx::incoming_data`: picoquic writes within the bytes that it is given, if at all, and what it
  -- leaves there comes back. Its code is only logged.
  abbrev pub incoming_data : Bytes → ℕ → ℕ → ℕ → Sys → Bytes × Sys
  incoming_data buf addr_to addr_from current_time s =
      let ((code, written), s') = ext.incoming_packet buf addr_from addr_to current_time s in
      (overwrite (take (length buf) written) buf, s')

  abbrev pub full : Poll ℕ IoError → Bool
  full (ok not_ready) = true
  full _ = false

  -- `send_data_in_buffer`. An error of the socket counts as sent; a length beyond the buffer panics.
  unfoldable pub send_data_in_buffer : ℕ → ℕ → Buffers → Sys → Exec (Bool × Buffers × Sys)
  send_data_in_buffer len addr b s =
      let (r, s') = ext.poll_send_to (take len b.buffer) addr s in
      let kept = record b { not_send_length = some (len, addr) } in
      if leb len (length b.buffer)
      then done (if full r then (false, kept, s') else (true, b, s'))
      else panic

  -- The loop of `send_connection_packets` over the connections that are due, on fuel.
  unfoldable pub send_loop : ℕ → ℕ → Buffers → Sys → Exec (Buffers × Sys)
  unfolding send_data_in_buffer
  send_loop zero now b s = out_of_fuel
  send_loop (suc fuel) now b s =
      let (ptr, s₁) = ext.earliest_cnx_to_wake now s in
      elim (next_connection ptr) [
        | none ↦ done (b, s₁)
        | some con ↦ elim (is_disconnected ext.state_disconnected (ext.cnx_state con s₁)) [
          | true ↦ done (b, Cnx.delete ext.delete_cnx con s₁)
          | false ↦ do
            let (p, s₂) = ext.prepare con now b.buffer s₁
            r ← prepare_packet ext.error_disconnected ext.sockaddrs p
            let b₂ = record b { buffer = p.buffer }
            elim r [
              | ok (some (len, addr)) ↦ do
                (sent, b₃, s₃) ← send_data_in_buffer len addr b₂ s₂
                elim sent [ true ↦ send_loop fuel now b₃ s₃ | false ↦ done (b₃, s₃) ]
              | _ ↦ send_loop fuel now b₂ s₂
            ]
        ]
      ]

  -- `send_connection_packets`
  unfoldable pub send_connection_packets : ℕ → ℕ → Buffers → Sys → Exec (Buffers × Sys)
  unfolding send_loop
  send_connection_packets fuel now b s = elim b.not_send_length [
    | none ↦ send_loop fuel now b s
    | some (len, addr) ↦ do
      (sent, b', s') ← send_data_in_buffer len addr (record b { not_send_length = none }) s
      elim sent [ true ↦ send_loop fuel now b' s' | false ↦ done (b', s') ]
  ]

  -- `check_for_incoming_data`: the loop of its `wrapper`, on fuel. Each datagram is read into the
  -- buffer, and `incoming_data` gets it there with the socket's own address.
  unfoldable pub check_for_incoming_data : ℕ → ℕ → ℕ → Buffers → Sys → Exec (Buffers × Sys)
  check_for_incoming_data zero local_addr now b s = out_of_fuel
  check_for_incoming_data (suc fuel) local_addr now b s =
      let (r, s₁) = ext.poll_recv_from (length b.buffer) s in
      elim r [
        | ok (ready (bytes, addr)) ↦
            let (left, s₂) = incoming_data bytes local_addr addr now s₁ in
            check_for_incoming_data fuel local_addr now
              (record b { buffer = overwrite left b.buffer }) s₂
        | _ ↦ done (b, s₁)
      ]

  -- `send_stateless_packets`, on fuel. Each packet is deleted when it has been offered to the socket,
  -- also where the socket does not take it; then, and after an error of the socket, the packets
  -- behind it wait for the next call.
  unfoldable pub send_stateless_packets : ℕ → Sys → Exec (Poll (Unit {0}) IoError × Sys)
  send_stateless_packets zero s = out_of_fuel
  send_stateless_packets (suc fuel) s =
      let (res, s₁) = ext.dequeue_stateless s in
      elim (next_packet res) [
        | none ↦ done (ok (ready tt), s₁)
        | some p ↦ do
          bytes ← get_data (ext.stateless_packet p s₁)
          addr ← get_peer_addr ext.sockaddrs (ext.stateless_packet p s₁)
          let (r, s₂) = ext.poll_send_to bytes addr s₁
          let s₃ = ext.delete_stateless p s₂
          elim r [
            | ok (ready _) ↦ send_stateless_packets fuel s₃
            | ok not_ready ↦ done (ok not_ready, s₃)
            | err e ↦ done (err e, s₃)
          ]
      ]

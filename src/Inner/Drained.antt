-- ===== src/Inner/Drained.antt =====
-- src/context_inner.rs: `check_for_incoming_data` empties the socket.
use picoquic_rs.Base.{
  ℕ, zero, suc, ◌<◌, ◌≡◌, refl, Bool, true, false, ok, err, ready, not_ready, Poll, Exec, done,
  length, arith, ap,
}
use picoquic_rs.Errors.{Bytes}
use picoquic_rs.Inner.Socket.{Ext, Buffers, overwrite, incoming_data, check_for_incoming_data}

module _ {Sys IoError : Type 0} (ext : Ext Sys IoError) where
  -- The datagrams that wait at the socket are bounded: taking one in leaves fewer.
  pub record Waits (waiting : Sys → ℕ) : Type 0 where
    pub fewer :
        (size local from now : ℕ) (bytes : Bytes) (s s₁ : Sys)
        → ext.poll_recv_from size s ≡ (ok (ready (bytes, from)), s₁)
        → waiting (incoming_data ext bytes local from now s₁).1 < waiting s

  abbrev pub received : Poll (Bytes × ℕ) IoError → Bool
  received (ok (ready _)) = true
  received _ = false

  -- A run that returns with the unsent datagram's length and address as `b` has them, after the socket
  -- was asked a last time, in `asked`, and had no datagram.
  pub record Emptied (b : Buffers) (run : Exec (Buffers × Sys)) : Type 0 where
    pub after : Buffers
    pub asked : Sys
    pub nothing : received (ext.poll_recv_from (length after.buffer) asked).0 ≡ false
    pub unsent : after.not_send_length ≡ b.not_send_length
    pub returns : run ≡ done (after, (ext.poll_recv_from (length after.buffer) asked).1)

  -- If the datagrams that wait at the socket are bounded by a count that taking one in lowers, and the
  -- fuel exceeds it, `check_for_incoming_data` returns after the socket had no more datagrams or an
  -- error, and the record of the unsent datagram is as before.
  pub check_for_incoming_data-Emptied :
      (waiting : Sys → ℕ) (fuel local_addr now : ℕ) (b : Buffers) (s : Sys)
      → Waits waiting
      → waiting s < fuel
      → Emptied b (check_for_incoming_data ext fuel local_addr now b s)
  unfolding check_for_incoming_data
  check_for_incoming_data-Emptied waiting zero local now b s t h = absurd (omega arith)
  check_for_incoming_data-Emptied waiting (suc fuel) local now b s t h =
      split (ext.poll_recv_from (length b.buffer) s) refl
        (λ b' s' k. check_for_incoming_data-Emptied waiting fuel local now b' s' t k)
    where
      Run : Type 0
      Run = Emptied b (check_for_incoming_data ext (suc fuel) local now b s)

      stop : received (ext.poll_recv_from (length b.buffer) s).0 ≡ false → Run
      stop e = record { after = b; asked = s; nothing = e; unsent = refl; returns = ground arith }

      split :
          (r : Poll (Bytes × ℕ) IoError × Sys)
          → ext.poll_recv_from (length b.buffer) s ≡ r
          → ((b' : Buffers) (s' : Sys)
              → waiting s' < fuel
              → Emptied b' (check_for_incoming_data ext fuel local now b' s'))
          → Run
      split (ok (ready (bytes, from)), s₁) e again =
          let fewer = t.fewer _ local from now bytes s s₁ e in
          let (left, s₂) = incoming_data ext bytes local from now s₁ in
          let b' : Buffers = record b { buffer = overwrite left b.buffer } in
          let rest = again b' s₂ (omega arith) in
          record {
            after = rest.after;
            asked = rest.asked;
            nothing = rest.nothing;
            unsent = rest.unsent;
            returns = rw (e, check_for_incoming_data, ap (λ x. x.1) e) rest.returns;
          }
      split (ok not_ready, s₁) e again = stop (rw (e) refl)
      split (err x, s₁) e again = stop (rw (e) refl)

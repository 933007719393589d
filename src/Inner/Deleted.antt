-- ===== src/Inner/Deleted.antt =====
-- src/context_inner.rs and src/ffi/stateless_packet.rs: every stateless packet that is taken from
-- picoquic is deleted.
use picoquic_rs.Base.{
  ℕ, zero, suc, ◌+◌, ◌-◌, ◌<◌, ◌≡◌, ◌≢◌, refl, inl, inr, none, some, ok, err, ready, not_ready,
  Poll, Exec, done, panic, out_of_fuel, ◌>>=◌, arith, subst, Option-cases,
}
use picoquic_rs.Errors.{Bytes}
use picoquic_rs.Ffi.Cnx.{Sockaddrs, socket_addr_from_sockaddr}
use picoquic_rs.Ffi.Stateless.{StatelessPacket, get_data, get_peer_addr, next_packet}
use picoquic_rs.Inner.Socket.{Ext, send_stateless_packets}

get_data-returns : (p : StatelessPacket) → get_data p ≢ out_of_fuel
unfolding get_data
get_data-returns p h = ground arith

get_peer_addr-returns : (k : Sockaddrs) (p : StatelessPacket) → get_peer_addr k p ≢ out_of_fuel
unfolding get_peer_addr socket_addr_from_sockaddr
get_peer_addr-returns k p h = ground arith

module _ {Sys IoError : Type 0} (ext : Ext Sys IoError) where
  -- `queued` counts the packets that picoquic has to send, `live` those that were taken and not deleted.
  -- Taking one moves it from the first to the second, deleting one ends it, and sending is neither.
  pub record Counts (queued live : Sys → ℕ) : Type 0 where
    pub taken :
        (s : Sys) (p : ℕ)
        → next_packet (ext.dequeue_stateless s).0 ≡ some p
        → (queued (ext.dequeue_stateless s).1 < queued s)
          × (live (ext.dequeue_stateless s).1 ≡ live s + 1)
    pub none_left :
        (s : Sys)
        → next_packet (ext.dequeue_stateless s).0 ≡ none
        → live (ext.dequeue_stateless s).1 ≡ live s
    pub sent :
        (b : Bytes) (addr : ℕ) (s : Sys)
        → (queued (ext.poll_send_to b addr s).1 ≡ queued s)
          × (live (ext.poll_send_to b addr s).1 ≡ live s)
    pub deleted :
        (p : ℕ) (s : Sys)
        → (queued (ext.delete_stateless p s) ≡ queued s)
          × (live (ext.delete_stateless p s) ≡ live s - 1)

  -- A run that does not run out of fuel, and leaves `n` packets if it returns.
  pub Leaves : (Sys → ℕ) → ℕ → Exec (Poll (Unit {0}) IoError × Sys) → Type 0
  Leaves live n (done (r, s)) = live s ≡ n
  Leaves live n panic = Unit {0}
  Leaves live n out_of_fuel = ⊥

  -- What follows a packet: the socket's answer decides.
  abbrev answered :
      (Sys → Exec (Poll (Unit {0}) IoError × Sys))
      → Sys
      → Poll ℕ IoError
      → Exec (Poll (Unit {0}) IoError × Sys)
  answered go s r = elim r [
    | ok (ready _) ↦ go s
    | ok not_ready ↦ done (ok not_ready, s)
    | err e ↦ done (err e, s)
  ]

  module _ (queued live : Sys → ℕ) (t : Counts queued live) where
    answered-Leaves :
        (go : Sys → Exec (Poll (Unit {0}) IoError × Sys)) (n : ℕ) (s : Sys) (r : Poll ℕ IoError)
        → live s ≡ n
        → Leaves live n (go s)
        → Leaves live n (answered go s r)
    unfolding Leaves
    answered-Leaves go n s (ok (ready m)) h g = g
    answered-Leaves go n s (ok not_ready) h g = h
    answered-Leaves go n s (err e) h g = h

    packet-Leaves :
        (go : Sys → Exec (Poll (Unit {0}) IoError × Sys)) (n p : ℕ) (s : Sys) (m : Exec Bytes)
        (a : Exec ℕ)
        → m ≢ out_of_fuel
        → a ≢ out_of_fuel
        → live s ≡ n + 1
        → ((b : Bytes) (addr : ℕ)
            → Leaves live n (go (ext.delete_stateless p (ext.poll_send_to b addr s).1)))
        → Leaves live n (
            m >>= λ b. a >>= λ addr.
            answered go
              (ext.delete_stateless p (ext.poll_send_to b addr s).1)
              (ext.poll_send_to b addr s).0)
    unfolding Leaves
    packet-Leaves go n p s (done b) (done addr) hm ha h g =
        let gone = t.deleted p (ext.poll_send_to b addr s).1 in
        answered-Leaves go n _ (ext.poll_send_to b addr s).0 (omega (arith, gone, t.sent b addr s))
          (g b addr)
    packet-Leaves go n p s (done b) panic hm ha h g = tt
    packet-Leaves go n p s (done b) out_of_fuel hm ha h g = absurd (ha refl)
    packet-Leaves go n p s panic a hm ha h g = tt
    packet-Leaves go n p s out_of_fuel a hm ha h g = absurd (hm refl)

  -- Where taking a stateless packet lowers picoquic's queue, and the fuel exceeds that queue,
  -- `send_stateless_packets` does not run out of fuel; and whether the socket took the packets, was
  -- full or failed, when it returns every packet that it took has been deleted.
  pub send_stateless_packets-Leaves :
      (queued live : Sys → ℕ) (fuel : ℕ) (s : Sys)
      → Counts queued live
      → queued s < fuel
      → Leaves live (live s) (send_stateless_packets ext fuel s)
  unfolding send_stateless_packets Leaves
  send_stateless_packets-Leaves queued live zero s t h = absurd (omega arith)
  send_stateless_packets-Leaves queued live (suc fuel) s t h =
      let s₁ = (ext.dequeue_stateless s).1 in
      elim (Option-cases (next_packet (ext.dequeue_stateless s).0)) [
        | inl empty ↦ rw (send_stateless_packets, empty) (t.none_left s empty)
        | inr (p, found) ↦
            let (fewer, more) = t.taken s p found in
            let packet = ext.stateless_packet p s₁ in
            rw (send_stateless_packets, found)
              (packet-Leaves queued live t (send_stateless_packets ext fuel) (live s) p s₁
                (get_data packet) (get_peer_addr ext.sockaddrs packet) (get_data-returns packet)
                (get_peer_addr-returns ext.sockaddrs packet) more
                (λ b addr.
                  let s₃ = ext.delete_stateless p (ext.poll_send_to b addr s₁).1 in
                  let sent = t.sent b addr s₁ in
                  let gone = t.deleted p (ext.poll_send_to b addr s₁).1 in
                  let same : live s₃ ≡ live s = omega arith in
                  subst (λ n. Leaves live n (send_stateless_packets ext fuel s₃)) same
                    (send_stateless_packets-Leaves queued live fuel s₃ t (omega arith))))
      ]

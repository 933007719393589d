-- ===== src/Inner/Kept.antt =====
-- src/context_inner.rs: what `send_connection_packets` keeps when the socket is full.
use picoquic_rs.Base.{
  ℕ, zero, suc, ◌≤◌, ◌<◌, ◌≡◌, ◌≢◌, refl, inl, inr, Bool, true, false, Option, none, some, Result,
  ok, err, ready, not_ready, Poll, Exec, done, panic, out_of_fuel, ◌>>=◌, take, arith, subst, sym,
  leb, length, Bool-cases, Option-cases,
}
use picoquic_rs.Errors.{Bytes, Error}
use picoquic_rs.Ffi.Cnx.{
  Prepared, prepare_packet, is_disconnected, next_connection, socket_addr_from_sockaddr,
}
use picoquic_rs.Inner.Socket.{
  Ext, Buffers, full, send_data_in_buffer, send_loop, send_connection_packets,
}

module _ {Sys IoError : Type 0} (ext : Ext Sys IoError) where
  -- The datagram that is kept is what the socket refused last.
  pub Refused : Option (ℕ × ℕ) → Bytes → Sys → Type 0
  Refused none buffer s = Unit {0}
  Refused (some (len, addr)) buffer s =
      (s₀ : Sys) × (ext.poll_send_to (take len buffer) addr s₀ ≡ (ok not_ready, s))

  -- A run that does not run out of fuel, and keeps what the socket refused last if it returns.
  pub Ended : Exec (Buffers × Sys) → Type 0
  Ended (done (b, s)) = Refused b.not_send_length b.buffer s
  Ended panic = Unit {0}
  Ended out_of_fuel = ⊥

  -- Picoquic has a bounded number of connections that are due: each one that it hands out counts
  -- down once it has prepared its packet, and sending adds none.
  pub record Bounded (due : Sys → ℕ) : Type 0 where
    pub prepared :
        (now con : ℕ) (buffer : Bytes) (s : Sys)
        → next_connection (ext.earliest_cnx_to_wake now s).0 ≡ some con
        → due (ext.prepare con now buffer (ext.earliest_cnx_to_wake now s).1).1 < due s
    pub sent : (bytes : Bytes) (addr : ℕ) (s : Sys) → due (ext.poll_send_to bytes addr s).1 ≤ due s

  full-Refused :
      (b : Buffers) (len addr : ℕ) (s : Sys)
      → full ext (ext.poll_send_to (take len b.buffer) addr s).0 ≡ true
      → ext.poll_send_to (take len b.buffer) addr s
        ≡ (ok not_ready, (ext.poll_send_to (take len b.buffer) addr s).1)
  full-Refused b len addr s h = split (ext.poll_send_to (take len b.buffer) addr s) h
    where
      split : (r : Poll ℕ IoError × Sys) → full ext r.0 ≡ true → r ≡ (ok not_ready, r.1)
      split (ok not_ready, s') e = refl
      split (ok (ready n), s') e = ground arith
      split (err x, s') e = ground arith

  -- After a try to send: where the socket is full, the datagram is kept, and otherwise one goes on.
  send-Ended :
      (go : Buffers → Sys → Exec (Buffers × Sys)) (b : Buffers) (len addr : ℕ) (s : Sys)
      → Ended (go b (ext.poll_send_to (take len b.buffer) addr s).1)
      → Ended (
          send_data_in_buffer ext len addr b s >>= λ (sent, b', s'). elim sent [
            | true ↦ go b' s'
            | false ↦ done (b', s')
          ])
  unfolding send_data_in_buffer Ended Refused
  send-Ended go b len addr s h =
      let s' = (ext.poll_send_to (take len b.buffer) addr s).1 in
      let m = send_data_in_buffer ext len addr b s in
      let Goal : Exec (Bool × Buffers × Sys) → Type 0 =
        λ y. Ended (y >>= λ x. elim x.0 [ true ↦ go x.1 x.2 | false ↦ done (x.1, x.2) ]) in
      elim (Bool-cases (leb len (length b.buffer))) [
        | inr beyond ↦ let stops : m ≡ panic = ground arith in subst Goal (sym stops) tt
        | inl within ↦
            elim (Bool-cases (full ext (ext.poll_send_to (take len b.buffer) addr s).0)) [
              | inl e ↦
                  let kept : Buffers = record b { not_send_length = some (len, addr) } in
                  let refused : m ≡ done (false, kept, s') = ground arith in
                  subst Goal (sym refused) (s, full-Refused b len addr s e)
              | inr e ↦ let sent : m ≡ done (true, b, s') = ground arith in subst Goal (sym sent) h
            ]
      ]

  -- A packet that picoquic prepared is offered to the socket; without one the loop goes on.
  prepared-Ended :
      (go : Buffers → Sys → Exec (Buffers × Sys)) (b : Buffers) (s : Sys)
      (m : Exec (Result (Option (ℕ × ℕ)) Error))
      → m ≢ out_of_fuel
      → Ended (go b s)
      → ((bytes : Bytes) (addr : ℕ) → Ended (go b (ext.poll_send_to bytes addr s).1))
      → Ended (
          m >>= λ r. elim r [
            | ok (some (len, addr)) ↦ send_data_in_buffer ext len addr b s >>= λ (sent, b', s').
                elim sent [ true ↦ go b' s' | false ↦ done (b', s') ]
            | _ ↦ go b s
          ])
  unfolding Ended
  prepared-Ended go b s (done (ok none)) _ skip next = skip
  prepared-Ended go b s (done (err e)) _ skip next = skip
  prepared-Ended go b s (done (ok (some (len, addr)))) _ skip next =
      send-Ended go b len addr s (next _ addr)
  prepared-Ended go b s panic _ skip next = tt
  prepared-Ended go b s out_of_fuel h skip next = absurd (h refl)

  prepare_packet-returns : (k : ℕ) (p : Prepared) → prepare_packet k ext.sockaddrs p ≢ out_of_fuel
  unfolding prepare_packet socket_addr_from_sockaddr
  prepare_packet-returns k p h = ground arith

  send_loop-Ended :
      (due : Sys → ℕ)
      → Bounded due
      → (fuel now : ℕ) (b : Buffers) (s : Sys) → due s < fuel
      → b.not_send_length ≡ none
      → Ended (send_loop ext fuel now b s)
  unfolding send_loop Ended Refused
  send_loop-Ended due t zero now b s h e = absurd (omega arith)
  send_loop-Ended due t (suc fuel) now b s h e =
      let s₁ = (ext.earliest_cnx_to_wake now s).1 in
      elim (Option-cases (next_connection (ext.earliest_cnx_to_wake now s).0)) [
        | inl none_due ↦ rw (send_loop, none_due, e) tt
        | inr (con, found) ↦
            elim (Bool-cases (is_disconnected ext.state_disconnected (ext.cnx_state con s₁))) [
              | inl gone ↦ rw (send_loop, found, gone, e) tt
              | inr here ↦
                  let fewer = t.prepared now con b.buffer s found in
                  let p = ext.prepare con now b.buffer s₁ in
                  rw (send_loop, found, here)
                    (prepared-Ended (send_loop ext fuel now) (record b { buffer = p.0.buffer }) p.1
                      (prepare_packet ext.error_disconnected ext.sockaddrs p.0)
                      (prepare_packet-returns ext.error_disconnected p.0)
                      (send_loop-Ended due t fuel now _ p.1 (omega arith) e)
                      (λ bytes addr.
                        let same = t.sent bytes addr p.1 in
                        send_loop-Ended due t fuel now _ _ (omega arith) e))
            ]
      ]

  -- Where picoquic hands out a bounded number of connections that are due, and the fuel exceeds it,
  -- `send_connection_packets` does not run out of fuel: it returns, or panics. If it returns with a
  -- datagram kept for later, then the bytes at the start of the buffer and the address are those with
  -- which the socket was asked last, and it was full.
  pub send_connection_packets-Ended :
      (due : Sys → ℕ) (fuel now : ℕ) (b : Buffers) (s : Sys)
      → Bounded due
      → due s < fuel
      → Ended (send_connection_packets ext fuel now b s)
  unfolding send_connection_packets
  send_connection_packets-Ended due fuel now b s t h = elim (Option-cases b.not_send_length) [
    | inl e ↦
        let same : send_connection_packets ext fuel now b s ≡ send_loop ext fuel now b s =
          ground arith in
        subst Ended (sym same) (send_loop-Ended due t fuel now b s h e)
    | inr ((len, addr), e) ↦
        let b' : Buffers = record b { not_send_length = none } in
        let same = t.sent (take len b.buffer) addr s in
        rw (e) (
          send-Ended (send_loop ext fuel now) b' len addr s
            (send_loop-Ended due t fuel now b' _ (omega arith) refl))
  ]

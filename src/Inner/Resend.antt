-- ===== src/Inner/Resend.antt =====
-- src/context_inner.rs: the buffer of an unsent datagram is also the one that data is received into.

-- ===== src/Ffi.antt =====
-- src/ffi: the wrappers of picoquic's C functions, as far as they compute.
pub mod StreamId
pub mod MicroSeconds
pub mod Cnx
pub mod QuicCtx
pub mod Stateless
mod Examples

-- ===== src/Errors/Laws.antt =====
-- src/error.rs: what equality of error kinds is.
use picoquic_rs.Base.{true, ◌≡◌, ==_iff}
use picoquic_rs.Errors.{ErrorKind, eq, discriminant}

pub eq_refl : (a : ErrorKind) → eq a a ≡ true
unfolding eq
eq_refl a = (==_iff _ _).1 (λ i. discriminant a)

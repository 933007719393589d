-- ===== src/Errors.antt =====
-- src/error.rs: the error kinds, their equality by discriminant, and the conversions into `Error`.
pub mod Laws
use picoquic_rs.Base.{ℕ, Bool, List, ◌==◌}
use Prim.Native.String.{String}

abbrev pub Bytes : Type 0
Bytes = List ℕ

-- The payload of another crate's error (`io::Error`, `SpawnError`), which nothing here looks into.
abbrev pub Foreign : Type 0
Foreign = ℕ

pub data ErrorKind : Type 0 where
  network_error ffi_error out_of_memory_error disconnected unknown : ErrorKind
  send_error : Bytes → ErrorKind
  tls_handshake_error internal_error none_unicode open_ssl_error : ErrorKind
  custom : String → ErrorKind
  io spawn : Foreign → ErrorKind
  send_on_unidirectional : ErrorKind

-- `mem::discriminant`
discriminant : ErrorKind → ℕ
discriminant network_error = 0
discriminant ffi_error = 1
discriminant out_of_memory_error = 2
discriminant disconnected = 3
discriminant unknown = 4
discriminant (send_error b) = 5
discriminant tls_handshake_error = 6
discriminant internal_error = 7
discriminant none_unicode = 8
discriminant open_ssl_error = 9
discriminant (custom m) = 10
discriminant (io e) = 11
discriminant (spawn e) = 12
discriminant send_on_unidirectional = 13

-- `PartialEq for ErrorKind`
pub eq : ErrorKind → ErrorKind → Bool
unfolding discriminant
eq a b = discriminant a == discriminant b

-- `Error` wraps a `failure::Context`; the backtrace is left out.
pub record Error : Type 0 where
  pub inner : ErrorKind

abbrev pub kind : Error → ErrorKind
kind e = e.inner

abbrev pub from_kind : ErrorKind → Error
from_kind k = record { inner = k }

-- The errors of other crates that `?` converts.
pub data ForeignError : Type 0 where
  canceled nul_error error_stack : ForeignError
  failure : String → ForeignError
  io_error spawn_error : Foreign → ForeignError

pub from_foreign : ForeignError → Error
from_foreign canceled = from_kind internal_error
from_foreign nul_error = from_kind ffi_error
from_foreign error_stack = from_kind open_ssl_error
from_foreign (failure m) = from_kind (custom m)
from_foreign (io_error e) = from_kind (io e)
from_foreign (spawn_error e) = from_kind (spawn e)

-- `ErrorFn`: a closure that makes the error anew each time.
abbrev pub ErrorFn : Type 0
ErrorFn = Unit {0} → Error

-- ===== src/Config.antt =====
-- src/config.rs: the configuration, its setters and the check for common errors.
pub mod Verify
mod Examples
use picoquic_rs.Base.{
  ℕ, Bool, true, false, ◌&&◌, ◌||◌, not, List, Option, none, some, is_some, Result, ok, err,
  if◌then◌else◌,
}
use picoquic_rs.Errors.{Error, Bytes, from_kind, custom}
use picoquic_rs.Ffi.MicroSeconds.{Duration}
use Prim.Native.String.{String}

pub data Role : Type 0 where
  server client : Role

pub data FileFormat : Type 0 where
  pem der : FileFormat

-- `PathBuf`
abbrev pub FilePath : Type 0
FilePath = String

-- `H` is the type of the handlers that verify a certificate.
pub record Config (H : Type 0) : Type 0 where
  pub certificate_chain_filename : Option FilePath
  pub certificate_chain : Option (FileFormat × List Bytes)
  pub root_certificate_filename : Option FilePath
  pub root_certificates : Option (FileFormat × List Bytes)
  pub private_key_filename : Option FilePath
  pub private_key : Option (FileFormat × Bytes)
  pub reset_seed : Option Bytes
  pub keep_alive_interval : Option Duration
  pub keep_alive_sender : Role
  pub client_authentication : Bool
  pub verify_certificate_handler : Option H
  pub stream_send_channel_default_size : ℕ

module _ {H : Type 0} where
  -- `Default for Config`, and `Config::new`
  unfoldable pub default : Config H
  default = record {
    certificate_chain_filename = none;
    certificate_chain = none;
    root_certificate_filename = none;
    root_certificates = none;
    private_key_filename = none;
    private_key = none;
    reset_seed = none;
    keep_alive_interval = none;
    keep_alive_sender = client;
    client_authentication = false;
    verify_certificate_handler = none;
    stream_send_channel_default_size = 100;
  }

  -- Everything is copied but the handler.
  unfoldable pub clone_from : Config H → Config H
  clone_from other = record {
    certificate_chain_filename = other.certificate_chain_filename;
    certificate_chain = other.certificate_chain;
    root_certificates = other.root_certificates;
    root_certificate_filename = other.root_certificate_filename;
    private_key_filename = other.private_key_filename;
    private_key = other.private_key;
    reset_seed = other.reset_seed;
    keep_alive_interval = other.keep_alive_interval;
    keep_alive_sender = other.keep_alive_sender;
    client_authentication = other.client_authentication;
    verify_certificate_handler = none;
    stream_send_channel_default_size = other.stream_send_channel_default_size;
  }

  unfoldable pub set_certificate_chain_filename : Config H → FilePath → Config H
  set_certificate_chain_filename c path = record c { certificate_chain_filename = some path }

  unfoldable pub set_private_key_filename : Config H → FilePath → Config H
  set_private_key_filename c path = record c { private_key_filename = some path }

  unfoldable pub enable_keep_alive : Config H → Duration → Config H
  enable_keep_alive c dur = record c { keep_alive_interval = some dur }

  unfoldable pub set_keep_alive_sender : Config H → Role → Config H
  set_keep_alive_sender c role = record c { keep_alive_sender = role }

  unfoldable pub enable_client_authentication : Config H → Config H
  enable_client_authentication c = record c { client_authentication = true }

  unfoldable pub set_verify_certificate_handler : Config H → H → Config H
  set_verify_certificate_handler c handler = record c { verify_certificate_handler = some handler }

  unfoldable pub set_certificate_chain : Config H → List Bytes → FileFormat → Config H
  set_certificate_chain c certs format = record c { certificate_chain = some (format, certs) }

  unfoldable pub set_private_key : Config H → Bytes → FileFormat → Config H
  set_private_key c key format = record c { private_key = some (format, key) }

  unfoldable pub set_root_certificate_filename : Config H → FilePath → Config H
  set_root_certificate_filename c path = record c { root_certificate_filename = some path }

  unfoldable pub set_root_certificates : Config H → List Bytes → FileFormat → Config H
  set_root_certificates c certs format = record c { root_certificates = some (format, certs) }

  unfoldable pub set_stream_send_channel_default_size : Config H → ℕ → Config H
  set_stream_send_channel_default_size c size = record c { stream_send_channel_default_size = size }

abbrev pub either_both : Error
either_both =
    from_kind
      (custom "Either both, private key and certificate chain need to be set or none of them!")

-- `bail!("File does not exist: {:?}", path)`; `show` is the formatting of a path.
abbrev pub missing : (FilePath → String) → FilePath → Error
missing show path = from_kind (custom (show path))

-- `check_path_exist`; `exists` asks the file system.
unfoldable pub check_path_exist :
    (FilePath → Bool) → (FilePath → String) → Option FilePath → Result (Unit {0}) Error
check_path_exist exists show none = ok tt
check_path_exist exists show (some path) = if exists path then ok tt else err (missing show path)

infixl 5 ◌>>◌
abbrev ◌>>◌ : Result (Unit {0}) Error → Result (Unit {0}) Error → Result (Unit {0}) Error
ok _ >> k = k
err e >> k = err e

abbrev same : Bool → Bool → Bool
same true b = b
same false b = not b

-- `Config::verify`
unfoldable pub verify :
    {H : Type 0} → (FilePath → Bool) → (FilePath → String) → Config H → Result (Unit {0}) Error
unfolding check_path_exist
verify exists show c =
    let private_key_set = is_some c.private_key || is_some c.private_key_filename in
    let certificate_set = is_some c.certificate_chain || is_some c.certificate_chain_filename in
    if same private_key_set certificate_set
    then (check_path_exist exists show c.certificate_chain_filename
        >> check_path_exist exists show c.root_certificate_filename
        >> check_path_exist exists show c.private_key_filename)
    else err either_both

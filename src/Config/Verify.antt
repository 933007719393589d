-- ===== src/Config/Verify.antt =====
-- src/config.rs: what `Config::verify` accepts.
use picoquic_rs.Base.{◌≡◌, ◌↔◌, Bool, true, ◌||◌, Option, none, some, is_some, ok, arith}
use picoquic_rs.Config.{Config, FilePath, verify, check_path_exist}
use Prim.Native.String.{String}

-- A file that is named exists.
abbrev pub Present : (FilePath → Bool) → Option FilePath → Type 0
Present exists none = Unit
Present exists (some path) = exists path ≡ true

check_path_exist-ok :
    (exists : FilePath → Bool) (show : FilePath → String) (path : Option FilePath)
    → (check_path_exist exists show path ≡ ok tt) ↔ Present exists path
unfolding check_path_exist
check_path_exist-ok exists show none = ground arith
check_path_exist-ok exists show (some path) = ground arith

-- A configuration is accepted exactly if a private key is given, in memory or as a file, just when a
-- certificate chain is, and every file that it names exists.
pub verify-ok :
    {H : Type 0} (exists : FilePath → Bool) (show : FilePath → String) (c : Config H)
    → (verify exists show c ≡ ok tt) ↔ (
        ((is_some c.private_key || is_some c.private_key_filename)
          ≡ (is_some c.certificate_chain || is_some c.certificate_chain_filename))
        × Present exists c.certificate_chain_filename
        × Present exists c.root_certificate_filename
        × Present exists c.private_key_filename)
unfolding verify
verify-ok exists show c = ground arith

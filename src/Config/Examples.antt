-- ===== src/Config/Examples.antt =====
-- src/config.rs: its unit tests, and a theorem at a concrete input.
use picoquic_rs.Base.{ℕ, ◌≡◌, ◌↔◌, refl, Bool, false, ◌||◌, [], is_some, ok, err}
use picoquic_rs.Config.{
  Config, FilePath, der, default, set_private_key, set_certificate_chain,
  set_certificate_chain_filename, set_private_key_filename, verify, either_both, missing,
}
use picoquic_rs.Config.Verify.{Present, verify-ok}
use Prim.Native.String.{String}

abbrev nowhere : FilePath → Bool
nowhere path = false

abbrev plain : FilePath → String
plain path = path

non_existing_path_fails_verify :
    verify {H = ℕ} nowhere plain (
      set_private_key_filename
        (set_certificate_chain_filename default "/does/not/exist")
        "/does/not/exist")
    ≡ err (missing plain "/does/not/exist")
unfolding verify set_private_key_filename set_certificate_chain_filename default
non_existing_path_fails_verify = refl

set_private_key_and_not_certificate_fails_verify :
    verify {H = ℕ} nowhere plain (set_private_key default [] der) ≡ err either_both
unfolding verify set_private_key default
set_private_key_and_not_certificate_fails_verify = refl

set_certificate_and_not_private_key_fails_verify :
    verify {H = ℕ} nowhere plain (set_certificate_chain default [] der) ≡ err either_both
unfolding verify set_certificate_chain default
set_certificate_and_not_private_key_fails_verify = refl

in_memory : Config ℕ
in_memory = set_private_key (set_certificate_chain default [] der) [] der

verify-ok_example : (verify nowhere plain in_memory ≡ ok tt) ↔ (
    ((is_some in_memory.private_key || is_some in_memory.private_key_filename)
      ≡ (is_some in_memory.certificate_chain || is_some in_memory.certificate_chain_filename))
    × Present nowhere in_memory.certificate_chain_filename
    × Present nowhere in_memory.root_certificate_filename
    × Present nowhere in_memory.private_key_filename)
verify-ok_example = verify-ok nowhere plain in_memory

-- ===== src/Identity.antt =====
-- src/identity.rs: the key files and the token files. The file system, the random keys and the
-- encodings are left open.
pub mod Files
pub mod Laws
pub mod TokenLaws
mod Tests
use rust_ssh.Prelude.{
  ℕ, List, [], ◌∷◌, ◌++◌, Bool, true, false, not, ◌==◌, Option, none, some, length, is_empty,
  if◌then◌else◌, Text, as_bytes, trim, line_feed, ret, call,
}
use rust_ssh.Pairing.{static_key_size, Codecs, Paired, ok, error, decode_public_key}
use Files.{
  KeyPair, exists, create_dir_all, read_file, read_to_string, generate_keypair, create_new,
  write_all, flush, Done, fine, failed, already_exists, no_directory, no_keys, failed_write,
  unreadable, wrong_key, wrong_key_size, FileProg, ◌>>=◌, ask, give,
}

pub record ServerIdentity : Type 0 where
  pub private_key : List ℕ

unfoldable pub from_private : List ℕ → FileProg ServerIdentity
from_private bytes =
    if not (length bytes == static_key_size)
    then ret (failed wrong_key_size)
    else ret (fine (record { private_key = bytes }))

unfoldable pub load : Text → FileProg ServerIdentity
unfolding from_private
load path = do bytes ← call (read_file path) (give (unreadable path)); from_private bytes

abbrev pub private_mode : ℕ
private_mode = 0x180

abbrev pub token_mode : ℕ
token_mode = 0x1a0

unfoldable pub write_each : Text → List (List ℕ) → FileProg Unit
write_each path [] = ret (fine tt)
write_each path (bytes ∷ pieces) = do
  _ ← call (write_all path bytes) (ask (failed_write path))
  write_each path pieces

-- A new file with a mode, if one is asked for, and what is written to it.
unfoldable pub fill : Text → Option ℕ → List (List ℕ) → FileProg Unit
unfolding write_each
fill path mode pieces = do
  _ ← call (create_new path mode) (ask (failed_write path))
  _ ← write_each path pieces
  call (flush path) (ask (failed_write path))

unfoldable pub write_new : Text → List ℕ → FileProg Unit
unfolding fill
write_new path bytes = fill path none (bytes ∷ [])

unfoldable pub write_new_private : Text → List ℕ → FileProg Unit
unfolding fill
write_new_private path bytes = fill path (some private_mode) (bytes ∷ [])

abbrev pub create_named : Option Text → FileProg Unit
create_named none = ret (fine tt)
create_named (some directory) =
    if is_empty directory
    then ret (fine tt)
    else call (create_dir_all directory) (ask (no_directory directory))

unfoldable pub refuse : Text → FileProg Unit
refuse path =
    call (exists path) λ found. if found then ret (failed (already_exists path)) else ret (fine tt)

-- `parent` is `Path::parent`.
module _ (C : Codecs) (parent : Text → Option Text) where
  unfoldable pub create_parent : Text → FileProg Unit
  create_parent path = create_named (parent path)

  abbrev pub public_line : KeyPair → List ℕ
  public_line keys = as_bytes (C.hex_encode keys.public ++ line_feed ∷ [])

  unfoldable pub generate : Text → Text → FileProg Unit
  unfolding create_parent refuse write_new write_new_private
  generate private_path public_path = do
    _ ← refuse private_path
    _ ← refuse public_path
    _ ← create_parent private_path
    _ ← create_parent public_path
    keys ← call generate_keypair (give no_keys)
    _ ← write_new_private private_path keys.private
    write_new public_path (public_line keys)

  unfoldable pub generate_token : FileProg Text
  generate_token = do
    keys ← call generate_keypair (give no_keys)
    ret (fine (C.hex_encode keys.private))

  unfoldable pub write_token : Text → Text → FileProg Unit
  unfolding create_parent fill
  write_token path token = do
    _ ← create_parent path
    fill path (some token_mode) (as_bytes (trim token) ∷ (line_feed ∷ []) ∷ [])

  abbrev pub from_paired : Paired (List ℕ) → FileProg (List ℕ)
  from_paired (ok key) = ret (fine key)
  from_paired (error e) = ret (failed (wrong_key e))

  unfoldable pub load_public_key : Text → FileProg (List ℕ)
  load_public_key path = do
    text ← call (read_to_string path) (give (unreadable path))
    from_paired (decode_public_key C (trim text))

-- ===== src/Server/Devices.antt =====
-- src/server.rs, `add_device`: a device gets a token file and a pairing code.
use rust_ssh.Prelude.{ℕ, List, ◌++◌, not, Option, some, if◌then◌else◌, Text, codes, ret, call}
use rust_ssh.DeviceId
use rust_ssh.Pairing.{Config, Codecs, encode}
use rust_ssh.Pairing.Create.{from_code}
use rust_ssh.Identity.{load_public_key, generate_token, write_token}
use rust_ssh.Identity.Files.{
  exists, create_dir_all, fine, failed, invalid_device_id, already_registered, no_directory,
  FileProg, ◌>>=◌, ask,
}

-- `parent` is `Path::parent`, and `join` is `Path::join`.
module _ (C : Codecs) (parent : Text → Option Text) (join : Text → Text → Text)
    (devices_dir device_id server server_key_path : Text) where
  abbrev pub token_path : Text
  token_path = join devices_dir (device_id ++ codes ".token")

  unfoldable pub unregistered : FileProg Unit
  unregistered =
      call (exists token_path)
        λ found. if found then ret (failed (already_registered device_id)) else ret (fine tt)

  abbrev pub pairing : List ℕ → Text → Config
  pairing server_key token = record {
    server = server;
    server_key = server_key;
    token = token;
    device_id = some device_id;
  }

  -- Once the key is read.
  unfoldable pub register : List ℕ → FileProg Text
  register server_key = do
    token ← generate_token C parent
    pairing_code ← from_code (encode C (pairing server_key token))
    _ ← write_token C parent token_path token
    ret (fine pairing_code)

  -- Once the id is accepted.
  unfoldable pub check_in : FileProg Text
  unfolding unregistered register
  check_in = do
    _ ← call (create_dir_all devices_dir) (ask (no_directory devices_dir))
    _ ← unregistered
    server_key ← load_public_key C parent server_key_path
    register server_key

  unfoldable pub add_device : FileProg Text
  unfolding check_in
  add_device =
      if not (DeviceId.is_generated device_id) then ret (failed invalid_device_id) else check_in

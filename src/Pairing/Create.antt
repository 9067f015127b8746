-- ===== src/Pairing/Create.antt =====
-- src/bootstrap.rs: `create_code`, from the files of a key and a token.
use rust_ssh.Prelude.{Option, none, Text, trim, ret, call}
use rust_ssh.Pairing.{Codecs, Paired, ok, error, encode}
use rust_ssh.Identity.{load_public_key}
use rust_ssh.Identity.Files.{
  read_to_string, fine, failed, unreadable, no_code, FileProg, ◌>>=◌, give,
}

abbrev pub from_code : Paired Text → FileProg Text
from_code (ok code) = ret (fine code)
from_code (error e) = ret (failed (no_code e))

module _ (C : Codecs) (parent : Text → Option Text) where
  unfoldable pub create_code_with_device_id : Text → Text → Text → Option Text → FileProg Text
  create_code_with_device_id server public_key_path token_path device_id = do
    server_key ← load_public_key C parent public_key_path
    token ← call (read_to_string token_path) (give (unreadable token_path))
    from_code (
        encode C (record {
          server = server;
          server_key = server_key;
          token = trim token;
          device_id = device_id;
        }))

  unfoldable pub create_code : Text → Text → Text → FileProg Text
  unfolding create_code_with_device_id
  create_code server public_key_path token_path =
      create_code_with_device_id server public_key_path token_path none

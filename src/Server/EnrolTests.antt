-- ===== src/Server/EnrolTests.antt =====
-- The theorem on `add_device` at a first device.
use rust_ssh.Prelude.{
  ◌≡◌, refl, [], ◌∷◌, ◌++◌, true, false, none, some, codes, Text, Option, replicate, as_bytes, trim,
  run, insert, line_feed,
}
use rust_ssh.Prelude
use rust_ssh.Prelude.Utf8.{IsText}
use rust_ssh.DeviceId
use rust_ssh.Protocol.{agent}
use rust_ssh.Pairing
use rust_ssh.Pairing.{
  decode_public_key, check_key, encode, validate_server, check_address, validate_optional,
  code_prefix, WireConfig, Config, Codecs, ok, decode,
}
use rust_ssh.Pairing.Sample.{
  sample_codecs, sample_codecs-IsFaithful, base64_encode, hex_encode-IsText,
}
use rust_ssh.Identity.{
  load_public_key, generate_token, write_token, fill, create_parent, write_each, token_mode,
}
use rust_ssh.Identity.Files.{
  FileCall, FileReply, FileLog, exists, create_dir_all, read_file, read_to_string, flush,
  generate_keypair, create_new, write_all, fine, NewFile, contents,
}
use rust_ssh.Server.Auth.{validate_token, authenticate}
use rust_ssh.Server.Tokens.{
  a_file, TokenFile, TokenFiles, AuthSnapshot, insert_record, load_entry, load_loop, collect_tokens,
  loaded, load_auth_snapshot,
}
use rust_ssh.Server.Devices.{check_in, unregistered, register, add_device, token_path}
use rust_ssh.Server.EnrolLaws.{add_device-authenticate}

abbrev device : Text
device = codes "rssh-0123456789abcdef0123456789abcdef"

abbrev secret_token : Text
secret_token = codes "0123456789abcdef0123456789abcdef"

abbrev key_text : Text
key_text = codes "kkkkkkkkkkkkkkkkkkkkkkkkkkkkkkkk"

abbrev wire : WireConfig
wire = record {
  server = codes "s:1";
  server_key = key_text;
  token = secret_token;
  device_id = some device;
}

abbrev encodings : Codecs
encodings = sample_codecs wire

-- Nothing exists and every call succeeds.
abbrev fresh_world : FileLog → (c : FileCall) → FileReply c
fresh_world log (exists path) = false
fresh_world log (create_dir_all path) = true
fresh_world log (read_file path) = none
fresh_world log (read_to_string path) = some (key_text ++ line_feed ∷ [])
fresh_world log (flush path) = true
fresh_world log generate_keypair = some (record { private = secret_token; public = [] })
fresh_world log (create_new path mode) = true
fresh_world log (write_all path bytes) = true

abbrev parent_dir : Text → Option Text
parent_dir path = some (codes "d")

abbrev join_path : Text → Text → Text
join_path dir name = dir ++ codes "/" ++ name

abbrev token_text : Text
token_text = secret_token ++ line_feed ∷ []

abbrev own_file : TokenFile
own_file = record {
  path = codes "d/" ++ device ++ codes ".token";
  file_name = some (device ++ codes ".token");
  content = some token_text;
}

abbrev files : TokenFiles
files = record {
  controller_token_file = some (replicate 32 0x63);
  devices_dir = some (a_file own_file ∷ []);
}

abbrev auth : AuthSnapshot
auth = record { controller_token = replicate 32 0x63; device_tokens = (device, secret_token) ∷ [] }

abbrev added_log : FileLog
added_log =
    (run fresh_world []
      (add_device encodings parent_dir join_path (codes "d") device (codes "s:1") (codes "k"))).0

abbrev new_file : NewFile
new_file = record { mode = some token_mode; bytes = some (as_bytes token_text) }

ran :
    run fresh_world []
      (add_device encodings parent_dir join_path (codes "d") device (codes "s:1") (codes "k"))
    ≡ (added_log, fine (code_prefix ++ base64_encode (1 ∷ [])))
unfolding add_device check_in unregistered register load_public_key generate_token write_token fill
    create_parent write_each decode_public_key check_key encode validate_server check_address
    Pairing.validate_token Pairing.check_token validate_optional Prelude.trim Prelude.len
    DeviceId.is_generated Prelude.strip_prefix Prelude.is_whitespace DeviceId.is_valid
ran = refl

file_created :
    contents
      (token_path encodings parent_dir join_path (codes "d") device (codes "s:1") (codes "k"))
      added_log
    ≡ some new_file
unfolding add_device check_in unregistered register load_public_key generate_token write_token fill
    create_parent write_each decode_public_key check_key encode validate_server check_address
    Pairing.validate_token Pairing.check_token validate_optional Prelude.trim Prelude.len
    DeviceId.is_generated Prelude.strip_prefix Prelude.is_whitespace contents DeviceId.is_valid
file_created = refl

files_load : load_auth_snapshot files ≡ loaded auth
unfolding load_auth_snapshot load_entry load_loop collect_tokens insert_record validate_token insert
    Prelude.trim Prelude.len Prelude.is_whitespace Prelude.strip_suffix Prelude.strip_prefix
    DeviceId.is_valid Prelude.is_ascii_alphanumeric
files_load = refl

add_device-authenticate_example :
    (new_file.mode ≡ some token_mode)
    × ((config : Config) × (decode encodings (code_prefix ++ base64_encode (1 ∷ [])) ≡ ok config)
        × (config.device_id ≡ some device)
        × (config.server ≡ trim (codes "s:1"))
        × (authenticate agent config.device_id config.token auth.controller_token auth.device_tokens
            ≡ none))
unfolding load_auth_snapshot
add_device-authenticate_example =
    add_device-authenticate encodings (sample_codecs-IsFaithful wire) hex_encode-IsText parent_dir
      join_path (codes "d") device (codes "s:1") (codes "k") fresh_world added_log
      (code_prefix ++ base64_encode (1 ∷ [])) ran new_file token_text file_created refl is_text
      files auth [] [] own_file files_load refl refl refl refl
  where
    is_text : IsText token_text
    is_text = hex_encode-IsText token_text

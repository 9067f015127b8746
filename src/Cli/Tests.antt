-- ===== src/Cli/Tests.antt =====
-- The theorems on the commands at one command, one proxy, and one inventory with two tokens.
use rust_ssh.Prelude.{◌≡◌, refl, ℕ, [], ◌∷◌, ◌++◌, false, none, some, codes, Text, Option, Always}
use rust_ssh.Pairing.{Codecs}
use rust_ssh.Pairing.Sample.{sample_codecs, sample_codecs-IsFaithful}
use rust_ssh.Server.Tokens.{Inventory}
use rust_ssh.Cli.{Command, start_endpoint, as_list, inventory_lines, run_command}
use rust_ssh.Cli.Proxy.{ProxyArgs}
use rust_ssh.Cli.Laws.{Keeps, HasCredentials, run_command-HasCredentials, inventory_lines-hidden}
use rust_ssh.Pairing.{WireConfig}

abbrev no_wire : WireConfig
no_wire = record { server = []; server_key = []; token = []; device_id = none }

abbrev encodings : Codecs
encodings = sample_codecs no_wire

abbrev parent_dir : Text → Option Text
parent_dir path = some (codes "d")

abbrev join_path : Text → Text → Text
join_path dir name = dir ++ name

abbrev one_digit : ℕ → Text
one_digit n = n ∷ []

abbrev list_command : Command
list_command =
    start_endpoint
      (record {
        server = codes "s:1";
        server_key = codes "key";
        token = some (codes "token");
        token_file = none;
      })
      as_list

run_command-HasCredentials_example :
    Always
      (Keeps HasCredentials)
      []
      (run_command encodings parent_dir join_path one_digit list_command)
run_command-HasCredentials_example =
    run_command-HasCredentials encodings parent_dir join_path one_digit
      (sample_codecs-IsFaithful no_wire) list_command

abbrev proxy_args : ProxyArgs
proxy_args = record {
  setup_code_file = some (codes "code");
  server = none;
  server_key = none;
  token_file = none;
  target = some (codes "d1");
}

abbrev with_secret : Text → Inventory
with_secret secret = record {
  controller_token_path = codes "c.token";
  controller_token = secret;
  devices =
      record { device_id = codes "d1"; path = codes "d1.token"; token = codes "t" ++ secret } ∷ [];
}

inventory_lines-hidden_example :
    inventory_lines one_digit false (with_secret (codes "secret"))
    ≡ inventory_lines one_digit false (with_secret (codes "other"))
inventory_lines-hidden_example =
    inventory_lines-hidden one_digit (with_secret (codes "secret")) (with_secret (codes "other"))
      refl refl

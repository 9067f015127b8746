-- ===== src/Cli/Proxy.antt =====
-- src/bin/rust-ssh-connect.rs: the mode that OpenSSH starts as its ProxyCommand.
use rust_ssh.Prelude.{
  ℕ, List, Bool, true, false, Option, none, some, any, list_eq, if◌then◌else◌, Text, codes, trim,
  ret, call,
}
use rust_ssh.Pairing.{Codecs, Config, Paired, ok, error, decode}
use rust_ssh.Identity.{load_public_key}
use rust_ssh.Identity.Files.{read_to_string}
use rust_ssh.Cli.{
  as_controller, EndpointConfig, on_file, run_endpoint, new_runtime, run_gui, failure, success, Cli,
  on_files, exit_with,
}

pub record ProxyArgs : Type 0 where
  pub setup_code_file : Option Text
  pub server : Option Text
  pub server_key : Option Text
  pub token_file : Option Text
  pub target : Option Text

-- An argument that is needed, or a text that is read.
abbrev pub needed : {A : Type 0} → Option A → (A → Cli) → Cli
needed none k = ret failure
needed (some a) k = k a

abbrev pub ended : Option (List Text) → Cli
ended none = ret failure
ended (some device_ids) = ret success

abbrev pub with_runtime : EndpointConfig → Bool → Cli
with_runtime config false = ret failure
with_runtime config true = call (run_endpoint config) ended

unfoldable pub join_session : Text → Text → List ℕ → Text → Cli
join_session target server server_key token = call new_runtime (
    with_runtime (record {
      server = server;
      server_key = server_key;
      token = token;
      endpoint = as_controller target;
    }))

unfoldable pub join_pairing : Text → Paired Config → Cli
unfolding join_session
join_pairing target (error e) = ret failure
join_pairing target (ok pairing) =
    join_session target pairing.server pairing.server_key pairing.token

module _ (C : Codecs) (parent : Text → Option Text) where
  unfoldable pub join_by_files : ProxyArgs → Text → Cli
  unfolding join_session
  join_by_files args target = needed args.server λ server. needed args.server_key λ server_key_path.
      on_files (load_public_key C parent server_key_path) λ server_key.
        needed args.token_file λ token_file.
          call (on_file (read_to_string token_file))
            λ text. needed text λ token. join_session target server server_key (trim token)

  unfoldable pub join_by : ProxyArgs → Text → Option Text → Cli
  unfolding join_pairing join_by_files
  join_by args target none = join_by_files args target
  join_by args target (some setup_code_file) =
      call (on_file (read_to_string setup_code_file))
        λ text. needed text λ code. join_pairing target (decode C code)

  unfoldable pub run_proxy : ProxyArgs → Cli
  run_proxy args = needed args.target λ target. join_by args target args.setup_code_file

  -- `parse` is the parser of the arguments, which ends the process if they do not fit.
  unfoldable pub run_connect : (List Text → Option ProxyArgs) → List Text → Cli
  unfolding run_proxy
  run_connect parse arguments =
      if any (λ argument. list_eq argument (codes "--proxy")) arguments
      then needed (parse arguments) run_proxy
      else call run_gui exit_with

-- ===== src/Cli.antt =====
-- src/main.rs: what the commands do, after the arguments are parsed.
pub mod Proxy
pub mod Laws
pub mod ProxyLaws
mod Tests
use rust_ssh.Prelude.{
  ℕ, List, [], ◌∷◌, ◌++◌, Bool, true, false, Option, none, some, length, if◌then◌else◌, Text, codes,
  Prog, ret, call, Event,
}
use rust_ssh.Pairing.{Codecs}
use rust_ssh.Pairing.Create.{create_code_with_device_id}
use rust_ssh.Identity.{generate, load_public_key}
use rust_ssh.Identity.Files.{FileCall, FileReply, read_to_string, Done, fine, failed, FileProg}
use rust_ssh.Server.Tokens.{TokenRecord, Loaded, loaded, not_loaded, Inventory}
use rust_ssh.Server.Devices.{add_device}
use rust_ssh.Client.Startup.{Resolved, resolved, unresolved, resolve_token}

pub record RelayConfig : Type 0 where
  pub listen : Text
  pub identity_key : Text
  pub controller_token_file : Text
  pub devices_dir : Text

-- The configs of src/agent.rs and src/connect.rs, with what an agent or a controller has on top.
pub data Endpoint : Type 0 where
  as_agent : Text → Text → Endpoint
  as_list : Endpoint
  as_controller : Text → Endpoint

pub record EndpointConfig : Type 0 where
  pub server : Text
  pub server_key : List ℕ
  pub token : Text
  pub endpoint : Endpoint

pub record ClientCommonArgs : Type 0 where
  pub server : Text
  pub server_key : Text
  pub token : Option Text
  pub token_file : Option Text

pub data Command : Type 0 where
  keygen : Text → Text → Command
  pair_code : Text → Text → Text → Option Text → Command
  relay : RelayConfig → Command
  device_add : Text → Text → Text → Text → Command
  inventory_of : Text → Text → Bool → Command
  start_endpoint : ClientCommonArgs → Endpoint → Command

-- `server::inventory` is one call, and so is the run of the relay or of an endpoint; of an endpoint
-- the answer is whether it ended well, and the ids that were listed.
pub data CliCall : Type 0 where
  on_file : FileCall → CliCall
  print_line : Text → CliCall
  load_inventory : Text → Text → CliCall
  run_relay : RelayConfig → CliCall
  run_endpoint : EndpointConfig → CliCall
  new_runtime : CliCall
  run_gui : CliCall

abbrev pub CliReply : CliCall → Type 0
CliReply (on_file c) = FileReply c
CliReply (print_line line) = Unit {0}
CliReply (load_inventory controller_token_file devices_dir) = Loaded Inventory
CliReply (run_relay config) = Bool
CliReply (run_endpoint config) = Option (List Text)
CliReply new_runtime = Bool
CliReply run_gui = Bool

-- How the process ends.
pub data Exit : Type 0 where
  success failure : Exit

abbrev pub Cli : Type 0
Cli = Prog CliCall CliReply Exit

abbrev pub CliLog : Type 0
CliLog = List (Event CliCall CliReply)

abbrev pub on_files : {A : Type 0} → FileProg A → (A → Cli) → Cli
on_files (ret (fine a)) k = k a
on_files (ret (failed e)) k = ret failure
on_files (call c f) k = call (on_file c) λ r. on_files (f r) k

abbrev pub exit_with : Bool → Cli
exit_with true = ret success
exit_with false = ret failure

unfoldable pub print_all : List Text → Cli
print_all [] = ret success
print_all (line ∷ lines) = call (print_line line) λ _. print_all lines

-- The lines of a device.
unfoldable pub device_lines : Bool → List TokenRecord → List Text
device_lines show_tokens [] = []
device_lines show_tokens (device ∷ devices) =
    let rest = device_lines show_tokens devices in
    (codes "- " ++ device.device_id ++ codes ": " ++ device.path)
    ∷ (if show_tokens then (codes "  token: " ++ device.token) ∷ rest else rest)

-- `decimal` is how a number is printed.
unfoldable pub inventory_lines : (ℕ → Text) → Bool → Inventory → List Text
unfolding device_lines
inventory_lines decimal show_tokens inventory =
    (codes "controller token file: " ++ inventory.controller_token_path)
    ∷ (if show_tokens
        then codes "controller token: " ++ inventory.controller_token
        else codes "controller token: <hidden> (use --show-tokens on a trusted terminal)")
    ∷ (codes "configured devices: " ++ decimal (length inventory.devices))
    ∷ (device_lines show_tokens inventory.devices
        ++ codes
            "connect endpoints: not stored; they use the controller token and are not registered individually"
          ∷ [])

abbrev pub printed : (ℕ → Text) → Bool → Loaded Inventory → Cli
printed decimal show_tokens (not_loaded e) = ret failure
printed decimal show_tokens (loaded inventory) =
    print_all (inventory_lines decimal show_tokens inventory)

abbrev pub listed : Option (List Text) → Cli
listed none = ret failure
listed (some device_ids) = print_all device_ids

abbrev pub started : Text → List ℕ → Endpoint → Resolved → Cli
started server server_key endpoint (unresolved e) = ret failure
started server server_key endpoint (resolved token) =
    call
      (run_endpoint
        (record { server = server; server_key = server_key; token = token; endpoint = endpoint }))
      listed

-- Of both arguments at once the parser knows that they do not occur.
unfoldable pub with_token : ClientCommonArgs → Endpoint → Option Text → Option Text → List ℕ → Cli
with_token common endpoint none (some path) server_key =
    call (on_file (read_to_string path))
      λ text. started common.server server_key endpoint (resolve_token (λ _. text) none (some path))
with_token common endpoint token token_file server_key =
    started common.server server_key endpoint (resolve_token (λ _. none) token token_file)

-- The library functions of paths, `parent` and `join`.
module _ (C : Codecs) (parent : Text → Option Text) (join : Text → Text → Text)
    (decimal : ℕ → Text) where
  unfoldable pub run_command : Command → Cli
  unfolding print_all with_token
  run_command (keygen identity_key public_key) =
      on_files (generate C parent identity_key public_key) λ _. ret success
  run_command (pair_code server server_key token_file device_id) =
      on_files (create_code_with_device_id C parent server server_key token_file device_id)
        λ code. print_all (code ∷ [])
  run_command (relay config) = call (run_relay config) exit_with
  run_command (device_add devices_dir device_id server server_key) =
      on_files (add_device C parent join devices_dir device_id server server_key) λ pairing_code.
        print_all (
          (codes "registered device: " ++ device_id)
          ∷ codes "copy the following pairing code to that client:"
          ∷ pairing_code
          ∷ [])
  run_command (inventory_of controller_token_file devices_dir show_tokens) =
      call (load_inventory controller_token_file devices_dir) (printed decimal show_tokens)
  run_command (start_endpoint common endpoint) =
      on_files (load_public_key C parent common.server_key)
        (with_token common endpoint common.token common.token_file)

-- ===== src/Desktop/Tests.antt =====
-- Runs of src/desktop.rs on small texts, and the theorems at them.
use rust_ssh.Prelude.{
  Always, ap, list_eq, Bool, Option, replicate, Text, codes, true, false, refl, ◌≡◌, ◌⊎◌, ◌++◌, ◌∷◌,
  none, some, [], drop, starts_with, strip_prefix, contains, replace, any, ◌==◌,
}
use rust_ssh.Prelude
use rust_ssh.Desktop.Quote.{quote, shell_double_quote}
use rust_ssh.Desktop.QuoteLaws.{read_shell, read-shell_double_quote}
use rust_ssh.DeviceId
use rust_ssh.Pairing
use rust_ssh.Pairing.{Codecs, WireConfig}
use rust_ssh.Desktop.ConnectApp
use rust_ssh.Desktop.ConnectApp.{
  ConnectSettings, ConnectApp, empty, update, updates, save_host_alias, host_alias_for,
}
use rust_ssh.Desktop.ConnectAppLaws.{IsConsistent, IsReachable-IsConsistent}
use rust_ssh.Desktop.AliasLaws.{AreUsable, save_host_alias-AreUsable}
use rust_ssh.Desktop.ChecksLaws.{IsStartable, client_agent_config-IsStartable}
use rust_ssh.Desktop.PrivateFile.{write_private_file}
use rust_ssh.Desktop.PrivateFileLaws.{IsAtomic, write_private_file-IsAtomic}
use rust_ssh.Desktop.Checks.{
  client_agent_config, required_value, check_generated, check_bound, validate_loopback_target,
  valid_host_alias, ClientSettings, AgentConfig, ok,
}
use rust_ssh.Desktop.SshConfig.{update_managed_ssh_config}
use rust_ssh.Desktop.ClientApp.{
  ClientApp, new, spawn, start_saved, start_config, start, IsReachable, begins, goes_on, starts,
}
use rust_ssh.Desktop.ClientAppLaws.{IsSingle, IsReachable-IsSingle}

-- A second update of the same device replaces its block, and leaves one more empty line at the end.
updated_twice :
    update_managed_ssh_config false
      (codes
        "# >>> rust-ssh managed begin >>>\nHost a\n\tHostKeyAlias d\n# <<< rust-ssh managed end <<<\n")
      (codes "Host b\n\tHostKeyAlias d\n")
      (codes "d")
      (codes "b")
    ≡ some (
        codes
          "# >>> rust-ssh managed begin >>>\nHost b\n\tHostKeyAlias d\n# <<< rust-ssh managed end <<<\n\n")
unfolding update_managed_ssh_config Prelude.find Prelude.strip_prefix Prelude.starts_with
    Prelude.lines Prelude.raw_lines Prelude.strip_suffix Prelude.trim Prelude.trim_start
    Prelude.trim_end Prelude.is_whitespace Prelude.replace_from Prelude.join
updated_twice = refl

abbrev nasty : Text
nasty = codes "a\"$(b)`\\"

read-shell_double_quote_example :
    (starts_with (quote ∷ []) (shell_double_quote false nasty ++ codes " x") ≡ true)
    × (read_shell false (drop 1 (shell_double_quote false nasty ++ codes " x"))
        ≡ some (nasty, codes " x"))
read-shell_double_quote_example = read-shell_double_quote nasty (codes " x")

abbrev config_text : Text
config_text =
    codes
      "Host x\n# >>> rust-ssh managed begin >>>\nHost a\n\tHostKeyAlias d\n# <<< rust-ssh managed end <<<\n"

abbrev settings : ClientSettings
settings = record {
  pairing_code = [];
  device_id = codes "d";
  target = codes "127.0.0.1:22";
  config_version = 1;
}

abbrev agent_config : AgentConfig
agent_config = record {
  server = codes "s:1";
  server_key = [];
  token = codes "t";
  device_id = codes "d";
  target = codes "127.0.0.1:22";
}

-- The agent is started.
abbrev running : ClientApp
unfolding start start_config start_saved spawn new
running = start (λ e. []) (ok agent_config) none (new settings)

running-IsReachable : IsReachable settings running
unfolding running
running-IsReachable = goes_on begins (starts (new settings) (λ e. []) (ok agent_config) none)

IsReachable-IsSingle_example : IsSingle running
IsReachable-IsSingle_example = IsReachable-IsSingle settings running running-IsReachable

-- Codecs that know one answer each.
abbrev device : Text
device = codes "rssh-0123456789abcdef0123456789abcdef"

abbrev wire : WireConfig
wire = record {
  server = codes "s:1";
  server_key = codes "k";
  token = codes "0123456789abcdef0123456789abcdef";
  device_id = some device;
}

abbrev codecs : Codecs
codecs = record {
  parse_address = λ t. some (record { port = 1; is_unspecified = false });
  hex_encode = λ bs. [];
  hex_decode = λ t. some (replicate 32 1);
  base64_encode = λ bs. [];
  base64_decode = λ t. some [];
  to_vec = λ w. some [];
  from_slice = λ bs. some wire;
}

abbrev paired_settings : ClientSettings
paired_settings = record {
  pairing_code = codes "rssh1: QUJD";
  device_id = device;
  target = codes "127.0.0.1:22";
  config_version = 1;
}

abbrev paired_config : AgentConfig
paired_config = record {
  server = codes "s:1";
  server_key = replicate 32 1;
  token = codes "0123456789abcdef0123456789abcdef";
  device_id = device;
  target = codes "127.0.0.1:22";
}

abbrev parse_loopback : Text → Option Bool
parse_loopback t = some true

client_agent_config-IsStartable_example :
    IsStartable codecs parse_loopback paired_settings paired_config
unfolding client_agent_config required_value check_generated check_bound validate_loopback_target
    Pairing.decode Pairing.without_whitespace Pairing.validate_server Pairing.decode_public_key
    Pairing.validate_token Pairing.validate_optional Prelude.strip_prefix Prelude.is_whitespace
    Prelude.len Prelude.trim DeviceId.is_generated DeviceId.is_valid
client_agent_config-IsStartable_example =
    client_agent_config-IsStartable codecs parse_loopback paired_settings paired_config refl

abbrev connect_settings : ConnectSettings
connect_settings = record {
  pairing_code = codes "rssh1: QUJD";
  user = codes "u";
  host_aliases = (codes "d1", codes "office") ∷ [];
}

-- The first update begins a search.
abbrev searching : ConnectApp
searching = update codecs (λ e. []) (λ n. []) 0 empty none (ConnectApp.new connect_settings 0)

searching-IsReachable :
    ConnectApp.IsReachable codecs (λ e. []) (λ n. []) connect_settings 0 searching
searching-IsReachable =
    ConnectApp.goes_on ConnectApp.begins (updates (ConnectApp.new connect_settings 0) 0 empty none)

IsReachable-IsConsistent_example : IsConsistent searching
IsReachable-IsConsistent_example =
    IsReachable-IsConsistent codecs (λ e. []) (λ n. []) connect_settings 0 searching
      searching-IsReachable

abbrev shown : ConnectApp
unfolding ConnectApp.new
shown = ConnectApp.new connect_settings 0

save_host_alias-AreUsable_example :
    AreUsable (save_host_alias none (codes "d2") (codes " home ") shown).settings.host_aliases
unfolding shown Prelude.lookup valid_host_alias Prelude.len
save_host_alias-AreUsable_example =
    save_host_alias-AreUsable none (codes "d2") (codes " home ") shown (refl, refl, refl, tt)

-- Another device with an alias of its own.
abbrev two_hosts : ConnectApp
unfolding ConnectApp.new
two_hosts =
    ConnectApp.new
      (record connect_settings {
        host_aliases = (codes "d1", codes "office") ∷ (codes "d2", codes "home") ∷ [];
      })
      0

apart_ids : ¬ (codes "d1" ≡ codes "d2")
apart_ids e = true_false (ap (list_eq (codes "d1")) e)
  where
    true_false : true ≡ false → ⊥
    true_false h = cc

write_private_file-IsAtomic_example :
    Always (IsAtomic (codes "{}")) [] (write_private_file (some (codes "client.json")) (codes "{}"))
write_private_file-IsAtomic_example =
    write_private_file-IsAtomic (some (codes "client.json")) (codes "{}")

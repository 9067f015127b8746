-- ===== src/Desktop/SettingsTests.antt =====
-- The theorem on the installation of a Host at one device with an alias, and a run that installs it.
use rust_ssh.Prelude
use rust_ssh.Prelude.{
  ℕ, ◌≡◌, refl, List, [], ◌∷◌, ◌++◌, true, false, some, codes, Text, Option, Always, run, lookup,
}
use rust_ssh.DeviceId
use rust_ssh.Desktop.Checks.{required_value, validate_ssh_user, valid_host_alias}
use rust_ssh.Desktop.ConnectApp.{ConnectSettings}
use rust_ssh.Desktop.Settings.{
  SettingsCall, SettingsReply, WorkLog, read_text, is_file, exists, create_dirs, protect_dir,
  write_private, copy_file, fresh_device_id, executable, user_ssh_config_path, update_ssh,
  install_ssh_host, install_checked, install_host, save_settings, write_setup_code_file,
}
use rust_ssh.Desktop.SettingsLaws.{Ends, IsInstalled, install_ssh_host-IsInstalled}

abbrev join_path : Text → Text → Text
join_path dir name = dir ++ codes "/" ++ name

abbrev no_sources : Text → List Text
no_sources name = []

abbrev settings : ConnectSettings
settings = record {
  pairing_code = codes "rssh1:QUJD";
  user = codes " root ";
  host_aliases = (codes "d1", codes "home") ∷ [];
}

abbrev no_json : ConnectSettings → Option (List ℕ)
no_json s = some []

-- Every call succeeds.
abbrev good_world : WorkLog → (c : SettingsCall) → SettingsReply c
good_world log (read_text path) = some []
good_world log (is_file path) = true
good_world log (exists path) = true
good_world log (create_dirs path) = true
good_world log (protect_dir path) = true
good_world log (write_private path bytes) = true
good_world log (copy_file source destination) = true
good_world log fresh_device_id = codes "d1"
good_world log executable = some (codes "connect")
good_world log user_ssh_config_path = some (codes "config")
good_world log (update_ssh path text id host) = true

installs_home :
    (run good_world []
      (install_ssh_host join_path (codes "d") no_sources false no_json settings (codes "d1"))).1
    ≡ some (codes "home")
unfolding install_ssh_host install_checked install_host save_settings write_setup_code_file
    required_value validate_ssh_user valid_host_alias DeviceId.is_valid Prelude.trim Prelude.len
    Prelude.is_whitespace Prelude.is_ascii_alphanumeric lookup
installs_home = refl

install_ssh_host-IsInstalled_example :
    Always
      (Ends join_path
        (codes "d")
        no_sources
        false
        settings
        (codes "d1")
        (IsInstalled join_path (codes "d") no_sources false settings (codes "d1")))
      []
      (install_ssh_host join_path (codes "d") no_sources false no_json settings (codes "d1"))
install_ssh_host-IsInstalled_example =
    install_ssh_host-IsInstalled join_path (codes "d") no_sources false settings (codes "d1")
      no_json

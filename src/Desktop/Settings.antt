-- ===== src/Desktop/Settings.antt =====
-- src/desktop.rs: where the settings are kept, and the installation of a Host. The calls of the file
-- system are left open; paths are texts.
use rust_ssh.Prelude.{
  ℕ, List, [], ◌∷◌, ◌++◌, Bool, true, false, not, ◌==◌, Option, none, some, if◌then◌else◌, is_empty,
  list_eq, Text, codes, as_bytes, trim, lookup, Prog, ret, call, Event,
}
use rust_ssh.DeviceId
use rust_ssh.Desktop.Checks.{
  Checked, ok, error, required_value, validate_ssh_user, valid_host_alias, ClientSettings,
}
use rust_ssh.Desktop.ConnectApp.{ConnectSettings, valid_or}
use rust_ssh.Desktop.SshConfig.{ssh_host_block}

-- `protect_dir` is set_private_dir_permissions, `write_private` write_private_file, and `update_ssh`
-- update_managed_ssh_config with the path, the block, the id and the Host. An executable or a path of
-- the user that cannot be had as a text is `none`.
pub data SettingsCall : Type 0 where
  read_text is_file exists create_dirs protect_dir : Text → SettingsCall
  write_private : Text → List ℕ → SettingsCall
  copy_file : Text → Text → SettingsCall
  fresh_device_id executable user_ssh_config_path : SettingsCall
  update_ssh : Text → Text → Text → Text → SettingsCall

abbrev pub SettingsReply : SettingsCall → Type 0
SettingsReply (read_text path) = Option Text
SettingsReply fresh_device_id = Text
SettingsReply executable = Option Text
SettingsReply user_ssh_config_path = Option Text
SettingsReply c = Bool

abbrev pub Work : Type 0 → Type 0
Work A = Prog SettingsCall SettingsReply A

abbrev pub WorkLog : Type 0
WorkLog = List (Event SettingsCall SettingsReply)

abbrev pub client_config_version : ℕ
client_config_version = 1

-- What may fail, and what follows where it did not.
infixl 5 ◌>>=◌
abbrev pub ◌>>=◌ : {A B : Type 0} → Work (Option A) → (A → Work (Option B)) → Work (Option B)
ret none >>= f = ret none
ret (some a) >>= f = f a
call c k >>= f = call c (λ r. k r >>= f)

abbrev pub ask : Bool → Work (Option Unit)
ask true = ret (some tt)
ask false = ret none

abbrev pub take_checked : {A : Type 0} → Checked A → Work (Option A)
take_checked (ok a) = ret (some a)
take_checked (error e) = ret none

-- `join` is `Path::join`, `directory` what config_dir answers, `sources` the old directories.
module _ (join : Text → Text → Text) (directory : Text) (sources : Text → List Text)
    (windows : Bool) where
  unfoldable pub migrate_config_file : Text → List Text → Work (Option Text)
  migrate_config_file name [] = ret none
  migrate_config_file name (source_directory ∷ others) =
      let rest = migrate_config_file name others in
      let destination = join directory name in
      if list_eq source_directory directory
      then rest
      else call (is_file (join source_directory name)) λ found.
        if not found
        then rest
        else call (exists destination) λ there.
          if there
          then rest
          else call (create_dirs directory) λ made.
            if not made
            then ret none
            else call (copy_file (join source_directory name) destination)
                λ copied. ret (if copied then some destination else none)

  unfoldable pub migrate_legacy_config : Text → Work (Option Text)
  unfolding migrate_config_file
  migrate_legacy_config name =
      let copying = migrate_config_file name (sources name) in if windows then copying else ret none

  abbrev pub parsed_or : {T : Type 0} → Option T → Work T → Work T
  parsed_or none default = default
  parsed_or (some settings) default = ret settings

  abbrev pub parse_text : {T : Type 0} → (Text → Option T) → Option Text → Option T
  parse_text parse none = none
  parse_text parse (some text) = parse text

  -- The default of the settings may need a new id.
  unfoldable pub load_settings : {T : Type 0} → (Text → Option T) → Work T → Text → Work T
  unfolding migrate_legacy_config
  load_settings parse default name =
      rust_ssh.Prelude.◌>>=◌ (migrate_legacy_config name) λ _.
        call (read_text (join directory name)) λ text. parsed_or (parse_text parse text) default

  abbrev pub write_encoded : Text → Option (List ℕ) → Work (Option Unit)
  write_encoded path none = ret none
  write_encoded path (some bytes) = call (write_private path bytes) ask

  -- `encoded` is what serde makes of the settings.
  unfoldable pub save_settings : Text → Option (List ℕ) → Work (Option Unit)
  save_settings name encoded = do
    _ ← call (create_dirs directory) ask
    _ ← call (protect_dir directory) ask
    write_encoded (join directory name) encoded

  module _ (parse : Text → Option ClientSettings) (encode : ClientSettings → Option (List ℕ)) where
    unfoldable pub default_client : Work ClientSettings
    default_client = call fresh_device_id λ id. ret (record {
      pairing_code = [];
      device_id = id;
      target = codes "127.0.0.1:22";
      config_version = client_config_version;
    })

    unfoldable pub keep_client : ClientSettings → Bool → Work ClientSettings
    unfolding save_settings
    keep_client settings changed =
        if changed
        then (rust_ssh.Prelude.◌>>=◌ (save_settings (codes "client.json") (encode settings))
            λ _. ret settings)
        else ret settings

    unfoldable pub ensure_id : ClientSettings → Bool → Work ClientSettings
    unfolding keep_client
    ensure_id settings changed =
        if is_empty (trim settings.device_id)
        then (call fresh_device_id λ id. keep_client (record settings { device_id = id }) true)
        else keep_client settings changed

    unfoldable pub ensure_version : ClientSettings → Bool → Work ClientSettings
    unfolding ensure_id
    ensure_version settings changed =
        if settings.config_version == client_config_version
        then ensure_id settings changed
        else call fresh_device_id λ id.
          ensure_id
            (record settings {
              device_id = id;
              pairing_code = [];
              config_version = client_config_version;
            })
            true

    unfoldable pub load_client_settings : Work ClientSettings
    unfolding load_settings ensure_version
    load_client_settings =
        rust_ssh.Prelude.◌>>=◌ (load_settings parse default_client (codes "client.json"))
          λ settings.
            call (is_file (join directory (codes "client.json")))
              λ there. ensure_version settings (not there)

  unfoldable pub write_setup_code_file : Text → Work (Option Text)
  write_setup_code_file code = do
    _ ← call (create_dirs directory) ask
    _ ← call (protect_dir directory) ask
    _ ← call (write_private (join directory (codes "connect.setup")) (as_bytes code)) ask
    ret (some (join directory (codes "connect.setup")))

  abbrev pub newline : Text
  newline = if windows then codes "\r\n" else codes "\n"

  -- The Host of the device, once the user is accepted.
  unfoldable pub install_host : ConnectSettings → Text → Text → Text → Text → Work (Option Text)
  install_host settings device_id program setup_code_path user =
      let host = valid_or device_id (lookup device_id settings.host_aliases) in
      let text = ssh_host_block windows host device_id user program setup_code_path newline in
      if not (valid_host_alias host)
      then ret none
      else call user_ssh_config_path (λ path. ret path) >>= λ path.
          call (update_ssh path text device_id host) ask >>= λ _. ret (some host)

  unfoldable pub install_checked :
      (ConnectSettings → Option (List ℕ)) → ConnectSettings → Text → Work (Option Text)
  unfolding save_settings write_setup_code_file install_host
  install_checked encode settings device_id = do
    _ ← save_settings (codes "connect.json") (encode settings)
    program ← call executable (λ path. ret path)
    setup_code ← take_checked (required_value settings.pairing_code)
    setup_code_path ← write_setup_code_file setup_code
    user ← take_checked (required_value settings.user)
    _ ← take_checked (validate_ssh_user user)
    install_host settings device_id program setup_code_path user

  unfoldable pub install_ssh_host :
      (ConnectSettings → Option (List ℕ)) → ConnectSettings → Text → Work (Option Text)
  unfolding install_checked
  install_ssh_host encode settings device_id =
      if not (DeviceId.is_valid device_id)
      then ret none
      else install_checked encode settings device_id

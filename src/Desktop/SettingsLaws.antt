-- ===== src/Desktop/SettingsLaws.antt =====
-- src/desktop.rs: what install_ssh_host lets into the SSH configuration.
use rust_ssh.Prelude.{
  ℕ, ◌≡◌, refl, subst, sym, ap, ◌∙◌, List, [], ◌∷◌, Bool, true, false, ◌&&◌, ◌||◌, Option, none,
  some, inl, inr, Bool-cases, any, is_empty, list_eq, list_eq_refl, Text, codes, as_bytes, trim,
  lookup, ret, call, Always,
}
use rust_ssh.DeviceId
use rust_ssh.Desktop.Checks.{
  Checked, ok, error, required_value, is_unsafe_user_char, validate_ssh_user, valid_host_alias,
  empty_value, unsafe_user,
}
use rust_ssh.Desktop.ConnectApp.{ConnectSettings, valid_or}
use rust_ssh.Desktop.SshConfig.{ssh_host_block}
use rust_ssh.Desktop.Settings.{
  create_dirs, protect_dir, write_private, executable, user_ssh_config_path, update_ssh, Work,
  WorkLog, ◌>>=◌, ask, take_checked, write_encoded, save_settings, write_setup_code_file, newline,
  install_host, install_checked, install_ssh_host,
}

-- The bytes were written at the path as a whole.
abbrev pub is_written : Text → List ℕ → WorkLog → Bool
is_written path bytes [] = false
is_written path bytes ((write_private p b, r) ∷ log) =
    let rest = is_written path bytes log in (r && list_eq p path && list_eq b bytes) || rest
is_written path bytes (event ∷ log) = is_written path bytes log

required_value-ok : (v u : Text) → required_value v ≡ ok u → (is_empty u ≡ false) × (u ≡ trim v)
unfolding required_value
required_value-ok v u h = elim (Bool-cases (is_empty (trim v))) [
  | inl e ↦ absurd (refused (sym (rw e refl) ∙ h))
  | inr e ↦
      let kept : ◌≡◌ {A = Checked Text} (ok (trim v)) (ok u) = sym (rw e refl) ∙ h in
      let same : trim v ≡ u = cc kept in (ap is_empty (sym same) ∙ e, sym same)
]
  where
    refused : ◌≡◌ {A = Checked Text} (error empty_value) (ok u) → ⊥
    refused k = cc

validate_ssh_user-ok :
    (user : Text) → validate_ssh_user user ≡ ok tt → any is_unsafe_user_char user ≡ false
unfolding validate_ssh_user
validate_ssh_user-ok user h = elim (Bool-cases (any is_unsafe_user_char user)) [
  | inl e ↦ absurd (refused (sym (rw e refl) ∙ h))
  | inr e ↦ e
]
  where
    refused : ◌≡◌ {A = Checked Unit} (error unsafe_user) (ok tt) → ⊥
    refused k = cc

module _ (join : Text → Text → Text) (directory : Text) (sources : Text → List Text)
    (windows : Bool) (settings : ConnectSettings) (device_id : Text) where
  abbrev pub setup_path : Text
  setup_path = join directory (codes "connect.setup")

  -- What may be put into the configuration: the block of a valid Host for the valid id, with a user
  -- that is neither empty nor holds white space or control characters, once the trimmed code is on
  -- the disk at the path that the block names.
  abbrev pub MayUpdate : Text → Text → Text → WorkLog → Type 0
  MayUpdate text id host log =
      (id ≡ device_id)
      × (DeviceId.is_valid device_id ≡ true)
      × (valid_host_alias host ≡ true)
      × (is_written setup_path (as_bytes (trim settings.pairing_code)) log ≡ true)
      × ((program : Text) × (user : Text) × (is_empty user ≡ false)
          × (any is_unsafe_user_char user ≡ false)
          × (text
              ≡ ssh_host_block windows host device_id user program setup_path
                  (newline join directory sources windows)))

  abbrev pub IsSafe : WorkLog → Type 0
  IsSafe [] = Unit {0}
  IsSafe ((update_ssh path text id host, r) ∷ log) = MayUpdate text id host log × IsSafe log
  IsSafe (event ∷ log) = IsSafe log

  abbrev pub Ends : {A : Type 0} → (WorkLog → A → Type 0) → WorkLog → Option A → Type 0
  Ends P log none = IsSafe log
  Ends P log (some a) = P log a

  Always-then :
      {A B : Type 0} (P : WorkLog → A → Type 0) (Q : WorkLog → B → Type 0)
      → (f : A → Work (Option B)) → ((log : WorkLog) (a : A) → P log a → Always (Ends Q) log (f a))
      → (log : WorkLog) (p : Work (Option A)) → Always (Ends P) log p
      → Always (Ends Q) log (p >>= f)
  Always-then P Q f h log (ret none) x = x
  Always-then P Q f h log (ret (some a)) x = h log a x
  Always-then P Q f h log (call c k) x = λ r. Always-then P Q f h ((c, r) ∷ log) (k r) (x r)

  abbrev Safe : {A : Type 0} → WorkLog → A → Type 0
  Safe log a = IsSafe log

  ask-Ends :
      (P : WorkLog → Unit {0} → Type 0) (r : Bool) (log : WorkLog)
      → (r ≡ true → P log tt)
      → IsSafe log
      → Always (Ends P) log (ask r)
  ask-Ends P true log h k = h refl
  ask-Ends P false log h k = k

  write_encoded-Safe :
      (path : Text) (encoded : Option (List ℕ)) (log : WorkLog)
      → IsSafe log
      → Always (Ends Safe) log (write_encoded join directory sources windows path encoded)
  write_encoded-Safe path none log h = h
  write_encoded-Safe path (some bytes) log h = λ r. ask-Ends Safe r _ (λ _. h) h

  save_settings-Safe :
      (name : Text) (encoded : Option (List ℕ)) (log : WorkLog)
      → IsSafe log
      → Always (Ends Safe) log (save_settings join directory sources windows name encoded)
  unfolding save_settings
  save_settings-Safe name encoded log h =
      Always-then Safe Safe _
        (λ log _ h.
          Always-then Safe Safe _
            (λ log _ h. write_encoded-Safe (join directory name) encoded log h) log
            (call (protect_dir directory) ask) (λ r. ask-Ends Safe r _ (λ _. h) h))
        log (call (create_dirs directory) ask) (λ r. ask-Ends Safe r _ (λ _. h) h)

  -- The setup code, once it is written.
  abbrev Written : Text → WorkLog → Text → Type 0
  Written code log path =
      IsSafe log × (path ≡ setup_path) × (is_written setup_path (as_bytes code) log ≡ true)

  write_setup_code_file-Written :
      (code : Text) (log : WorkLog)
      → IsSafe log
      → Always (Ends (Written code)) log (write_setup_code_file join directory sources windows code)
  unfolding write_setup_code_file
  write_setup_code_file-Written code log h =
      Always-then Safe (Written code) _
        (λ log _ h.
          Always-then Safe (Written code) _
            (λ log _ h.
              Always-then HasCode (Written code) _ (λ log _ h. (h.0, refl, h.1)) log
                (call (write_private setup_path (as_bytes code)) ask)
                (λ r. ask-Ends HasCode r _ (λ e. (h, rw e (written log))) h))
            log (call (protect_dir directory) ask) (λ r. ask-Ends Safe r _ (λ _. h) h))
        log (call (create_dirs directory) ask) (λ r. ask-Ends Safe r _ (λ _. h) h)
    where
      HasCode : WorkLog → Unit {0} → Type 0
      HasCode log u = IsSafe log × (is_written setup_path (as_bytes code) log ≡ true)

      written :
          (log : WorkLog)
          → is_written setup_path
              (as_bytes code)
              ((write_private setup_path (as_bytes code), true) ∷ log)
            ≡ true
      written log = rw (list_eq_refl setup_path, list_eq_refl (as_bytes code)) refl

  take_checked-Ends :
      {A : Type 0} (P : WorkLog → A → Type 0) (c : Checked A) (log : WorkLog)
      → ((a : A) → c ≡ ok a → P log a)
      → IsSafe log
      → Always (Ends P) log (take_checked c)
  take_checked-Ends P (ok a) log h k = h a refl
  take_checked-Ends P (error e) log h k = k

  -- A Host that is answered was put into the configuration by the last call.
  abbrev pub IsInstalled : WorkLog → Text → Type 0
  IsInstalled log host =
      IsSafe log
      × ((path : Text) × (text : Text) × (before : WorkLog) × (log
            ≡ (update_ssh path text device_id host, true) ∷ before))

  abbrev code_text : Text
  code_text = trim settings.pairing_code

  module _ (is_valid : DeviceId.is_valid device_id ≡ true) where
    update-IsInstalled :
        (program user : Text) (path : Text) (log : WorkLog)
        → valid_host_alias (valid_or device_id (lookup device_id settings.host_aliases)) ≡ true
        → is_empty user ≡ false
        → any is_unsafe_user_char user ≡ false
        → Written code_text log setup_path
        → Always (Ends IsInstalled) log (
            call
              (update_ssh path
                (ssh_host_block windows
                  (valid_or device_id (lookup device_id settings.host_aliases))
                  device_id
                  user
                  program
                  setup_path
                  (newline join directory sources windows))
                device_id
                (valid_or device_id (lookup device_id settings.host_aliases)))
              ask
            >>= λ _. ret (some (valid_or device_id (lookup device_id settings.host_aliases))))
    update-IsInstalled program user path log host full clean h true = (
      ((refl, is_valid, host, h.2, (program, user, full, clean, refl)), h.0),
      (path, _, log, refl),
    )
    update-IsInstalled program user path log host full clean h false =
        ((refl, is_valid, host, h.2, (program, user, full, clean, refl)), h.0)

    found_path-IsInstalled :
        (program user : Text) (path : Option Text) (log : WorkLog)
        → valid_host_alias (valid_or device_id (lookup device_id settings.host_aliases)) ≡ true
        → is_empty user ≡ false
        → any is_unsafe_user_char user ≡ false
        → Written code_text log setup_path
        → Always (Ends IsInstalled) ((user_ssh_config_path, path) ∷ log) (
            ret path >>= λ path.
            call
              (update_ssh path
                (ssh_host_block windows
                  (valid_or device_id (lookup device_id settings.host_aliases))
                  device_id
                  user
                  program
                  setup_path
                  (newline join directory sources windows))
                device_id
                (valid_or device_id (lookup device_id settings.host_aliases)))
              ask
            >>= λ _. ret (some (valid_or device_id (lookup device_id settings.host_aliases))))
    found_path-IsInstalled program user none log host full clean h = h.0
    found_path-IsInstalled program user (some path) log host full clean h =
        update-IsInstalled program user path ((user_ssh_config_path, some path) ∷ log) host full
          clean h

    install_host-IsInstalled :
        (program user : Text) (log : WorkLog)
        → is_empty user ≡ false
        → any is_unsafe_user_char user ≡ false
        → Written code_text log setup_path
        → Always
            (Ends IsInstalled)
            log
            (install_host join directory sources windows settings device_id program setup_path user)
    unfolding install_host
    install_host-IsInstalled program user log full clean h =
        elim (Bool-cases
          (valid_host_alias (valid_or device_id (lookup device_id settings.host_aliases)))) [
            | inl e ↦ rw e (λ path. found_path-IsInstalled program user path log e full clean h)
            | inr e ↦ rw e h.0
          ]

    user_checked-IsInstalled :
        (program setup_code_path user : Text) (log : WorkLog)
        → is_empty user ≡ false
        → Written code_text log setup_code_path
        → Always (Ends IsInstalled) log (
            take_checked (validate_ssh_user user) >>= λ _.
            install_host join directory sources windows settings device_id program setup_code_path
              user)
    user_checked-IsInstalled program setup_code_path user log full h =
        Always-then Clean IsInstalled _
          (λ log _ k.
            subst
              (λ path.
                Always (Ends IsInstalled) log (
                  install_host join directory sources windows settings device_id program path user))
              (sym k.0.1) (install_host-IsInstalled program user log full k.1 (k.0.0, refl, k.0.2)))
          log (take_checked (validate_ssh_user user))
          (take_checked-Ends Clean (validate_ssh_user user) log
            (λ _ e. (h, validate_ssh_user-ok user e)) h.0)
      where
        Clean : WorkLog → Unit {0} → Type 0
        Clean log u = Written code_text log setup_code_path × (any is_unsafe_user_char user ≡ false)

    setup_written-IsInstalled :
        (program setup_code_path : Text) (log : WorkLog)
        → Written code_text log setup_code_path
        → Always (Ends IsInstalled) log (
            take_checked (required_value settings.user) >>= λ user.
            take_checked (validate_ssh_user user) >>= λ _.
            install_host join directory sources windows settings device_id program setup_code_path
              user)
    setup_written-IsInstalled program setup_code_path log h =
        Always-then Full IsInstalled _
          (λ log user k. user_checked-IsInstalled program setup_code_path user log k.1 k.0) log
          (take_checked (required_value settings.user))
          (take_checked-Ends Full (required_value settings.user) log
            (λ user e. (h, (required_value-ok settings.user user e).0)) h.0)
      where
        Full : WorkLog → Text → Type 0
        Full log user = Written code_text log setup_code_path × (is_empty user ≡ false)

    code_checked-IsInstalled :
        (program : Text) (log : WorkLog)
        → IsSafe log
        → Always (Ends IsInstalled) log (
            take_checked (required_value settings.pairing_code) >>= λ setup_code.
            write_setup_code_file join directory sources windows setup_code >>= λ setup_code_path.
            take_checked (required_value settings.user) >>= λ user.
            take_checked (validate_ssh_user user) >>= λ _.
            install_host join directory sources windows settings device_id program setup_code_path
              user)
    code_checked-IsInstalled program log h =
        Always-then Trimmed IsInstalled _
          (λ log setup_code k.
            Always-then (Written setup_code) IsInstalled _
              (λ log path w.
                setup_written-IsInstalled program path log
                  (subst (λ code. Written code log path) k.1 w))
              log (write_setup_code_file join directory sources windows setup_code)
              (write_setup_code_file-Written setup_code log k.0))
          log (take_checked (required_value settings.pairing_code))
          (take_checked-Ends Trimmed (required_value settings.pairing_code) log
            (λ code e. (h, (required_value-ok settings.pairing_code code e).1)) h)
      where
        Trimmed : WorkLog → Text → Type 0
        Trimmed log code = IsSafe log × (code ≡ code_text)

    found_program-IsInstalled :
        (program : Option Text) (log : WorkLog)
        → IsSafe log
        → Always (Ends IsInstalled) ((executable, program) ∷ log) (
            ret program >>= λ program.
            take_checked (required_value settings.pairing_code) >>= λ setup_code.
            write_setup_code_file join directory sources windows setup_code >>= λ setup_code_path.
            take_checked (required_value settings.user) >>= λ user.
            take_checked (validate_ssh_user user) >>= λ _.
            install_host join directory sources windows settings device_id program setup_code_path
              user)
    found_program-IsInstalled none log h = h
    found_program-IsInstalled (some program) log h =
        code_checked-IsInstalled program ((executable, some program) ∷ log) h

    install_checked-IsInstalled :
        (encode : ConnectSettings → Option (List ℕ))
        → Always
            (Ends IsInstalled)
            []
            (install_checked join directory sources windows encode settings device_id)
    unfolding install_checked
    install_checked-IsInstalled encode =
        Always-then Safe IsInstalled _ (λ log _ h program. found_program-IsInstalled program log h)
          [] (save_settings join directory sources windows (codes "connect.json") (encode settings))
          (save_settings-Safe (codes "connect.json") (encode settings) [] tt)

  -- Whatever its calls answer, on every run of install_ssh_host the SSH configuration is updated only
  -- with the block of a valid Host for the valid id, with a user that is neither empty nor holds white
  -- space or control characters, and only once the trimmed pairing code is written at the path that the
  -- block names; and a Host is answered only if putting it into the configuration was the last call and
  -- succeeded.
  pub install_ssh_host-IsInstalled :
      (encode : ConnectSettings → Option (List ℕ))
      → Always
          (Ends IsInstalled)
          []
          (install_ssh_host join directory sources windows encode settings device_id)
  unfolding install_ssh_host
  install_ssh_host-IsInstalled encode = elim (Bool-cases (DeviceId.is_valid device_id)) [
    | inl e ↦ rw e (install_checked-IsInstalled e encode)
    | inr e ↦ rw e tt
  ]

-- ===== src/Server/DevicesLaws.antt =====
-- src/server.rs, `add_device`: the device that was added can log in with its pairing code.
use rust_ssh.Prelude.{
  ℕ, ◌≡◌, refl, List, [], ◌∷◌, ◌++◌, true, Option, none, some, Bool-cases, inl, inr, Text, as_bytes,
  trim, line_feed, Always, ret, call,
}
use rust_ssh.DeviceId
use rust_ssh.Pairing.{Config, Codecs, Paired, ok, error, encode}
use rust_ssh.Pairing.Create.{from_code}
use rust_ssh.Pairing.RoundTrip.{IsFaithful}
use rust_ssh.Identity.{load_public_key, generate_token, write_token}
use rust_ssh.Identity.Files.{
  create_dir_all, Done, fine, no_directory, FileProg, FileLog, ◌>>=◌, ask, contents,
}
use rust_ssh.Identity.Laws.{Always-then, Ends}
use rust_ssh.Identity.TokenLaws.{
  Anything, Always-Anything, token_file, HasFile, write_token-HasFile, IsKey, load_public_key-IsKey,
}
use rust_ssh.Server.Devices.{token_path, unregistered, pairing, register, check_in, add_device}

module _ (C : Codecs) (faithful : IsFaithful C) (parent : Text → Option Text)
    (join : Text → Text → Text) (devices_dir device_id server server_key_path : Text) where
  abbrev pub own_path : Text
  own_path = token_path C parent join devices_dir device_id server server_key_path

  abbrev pub own_pairing : List ℕ → Text → Config
  own_pairing = pairing C parent join devices_dir device_id server server_key_path

  abbrev pub line : Text → List ℕ
  line token = as_bytes (trim token) ++ line_feed ∷ []

  -- What a success leaves.
  pub record IsAdded (log : FileLog) (code : Text) : Type 0 where
    pub generated_id : DeviceId.is_generated device_id ≡ true
    pub server_key : List ℕ
    pub is_key : IsKey server_key
    pub secret : List ℕ
    pub encoded : encode C (own_pairing server_key (C.hex_encode secret)) ≡ ok code
    pub file : contents own_path log ≡ some (token_file (line (C.hex_encode secret)))

  abbrev pub End : FileLog → Done Text → Type 0
  End = Ends IsAdded Anything

  module _ (is_generated : DeviceId.is_generated device_id ≡ true) where
    encoded-IsAdded :
        (key : List ℕ) (secret : List ℕ)
        → IsKey key
        → (p : Paired Text) → encode C (own_pairing key (C.hex_encode secret)) ≡ p
        → (log : FileLog)
        → Always End log (
            from_code p >>= λ code.
            write_token C parent own_path (C.hex_encode secret) >>= λ _. ret (fine code))
    encoded-IsAdded key secret is_key (error e) h log = tt
    encoded-IsAdded key secret is_key (ok code) h log =
        let token = C.hex_encode secret in
        Always-then (HasFile own_path (as_bytes (trim token)) (line_feed ∷ [])) Anything End _
          (λ log _ file. record {
            generated_id = is_generated;
            server_key = key;
            is_key = is_key;
            secret = secret;
            encoded = h;
            file = file;
          })
          (λ log e h. h) log (write_token C parent own_path token)
          (write_token-HasFile C parent own_path token log)

    register-IsAdded :
        (key : List ℕ) (log : FileLog)
        → IsKey key
        → Always End log (register C parent join devices_dir device_id server server_key_path key)
    unfolding register generate_token
    register-IsAdded key log is_key none = tt
    register-IsAdded key log is_key (some keys) = encoded-IsAdded key keys.private is_key _ refl _

    abbrev own_unregistered : FileProg Unit
    own_unregistered = unregistered C parent join devices_dir device_id server server_key_path

    -- After a part of which only the success matters.
    after_any :
        (p : FileProg Unit) (f : Unit → FileProg Text)
        → ((log : FileLog) → Always End log (f tt))
        → (log : FileLog) → Always End log (p >>= f)
    after_any p f h log =
        Always-then (λ log _. Anything log) Anything End f (λ log _ _. h log) (λ log e h. h) log p
          (Always-Anything log p)

    check_in-IsAdded :
        (log : FileLog)
        → Always End log (check_in C parent join devices_dir device_id server server_key_path)
    unfolding check_in
    check_in-IsAdded log =
        after_any (call (create_dir_all devices_dir) (ask (no_directory devices_dir))) _
          (λ log.
            after_any own_unregistered _
              (λ log.
                Always-then (λ _ key. IsKey key) Anything End
                  (register C parent join devices_dir device_id server server_key_path)
                  (λ log key h. register-IsAdded key log h) (λ log e h. h) log
                  (load_public_key C parent server_key_path)
                  (load_public_key-IsKey C faithful parent server_key_path log))
              log)
          log

  pub add_device-IsAdded :
      Always End [] (add_device C parent join devices_dir device_id server server_key_path)
  unfolding add_device
  add_device-IsAdded = elim (Bool-cases (DeviceId.is_generated device_id)) [
    | inl e ↦ rw e (check_in-IsAdded e [])
    | inr e ↦ rw e tt
  ]

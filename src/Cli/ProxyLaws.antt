-- ===== src/Cli/ProxyLaws.antt =====
-- src/bin/rust-ssh-connect.rs: with what the proxy joins a session.
use rust_ssh.Prelude.{
  ℕ, ◌≡◌, refl, List, [], ◌∷◌, Bool, true, false, Option, none, some, length, Text, trim, call,
  Always,
}
use rust_ssh.Pairing.{Codecs, static_key_size, Config, Paired, ok, error, decode}
use rust_ssh.Pairing.Laws.{decode-IsUsable}
use rust_ssh.Pairing.RoundTrip.{IsFaithful}
use rust_ssh.Identity.{load_public_key}
use rust_ssh.Identity.Files.{read_to_string}
use rust_ssh.Identity.TokenLaws.{IsKey, load_public_key-IsKey}
use rust_ssh.Cli.{
  as_controller, EndpointConfig, on_file, run_endpoint, new_runtime, Cli, CliLog, on_files,
}
use rust_ssh.Cli.Proxy.{
  ProxyArgs, needed, ended, with_runtime, join_session, join_pairing, join_by_files, join_by,
  run_proxy,
}
use rust_ssh.Cli.Laws.{AllStarted, Keeps, on_files-Keeps}

-- A key of 32 bytes, and the target of the arguments.
abbrev pub Joins : ProxyArgs → EndpointConfig → Type 0
Joins args config =
    (length config.server_key ≡ static_key_size)
    × ((target : Text) × (args.target ≡ some target) × (config.endpoint ≡ as_controller target))

module _ (args : ProxyArgs) (target : Text) (named : args.target ≡ some target) where
  abbrev Kept : Cli → CliLog → Type 0
  Kept p log = AllStarted (Joins args) log → Always (Keeps (Joins args)) log p

  ended-Kept : (r : Option (List Text)) (log : CliLog) → Kept (ended r) log
  ended-Kept none log x = x
  ended-Kept (some ids) log x = x

  with_runtime-Kept :
      (config : EndpointConfig) (r : Bool) (log : CliLog)
      → Joins args config
      → Kept (with_runtime config r) log
  with_runtime-Kept config false log h x = x
  with_runtime-Kept config true log h x = λ r. ended-Kept r ((run_endpoint config, r) ∷ log) (h, x)

  join_session-Kept :
      (server : Text) (key : List ℕ) (token : Text) (log : CliLog)
      → length key ≡ static_key_size
      → Kept (join_session target server key token) log
  unfolding join_session
  join_session-Kept server key token log sized x =
      λ r. with_runtime-Kept _ r ((new_runtime, r) ∷ log) (sized, (target, named, refl)) x

  join_pairing-Kept :
      (C : Codecs) (code : Text) (p : Paired Config) (log : CliLog)
      → decode C code ≡ p
      → Kept (join_pairing target p) log
  unfolding join_pairing
  join_pairing-Kept C code (error e) log h x = x
  join_pairing-Kept C code (ok pairing) log h x =
      join_session-Kept pairing.server pairing.server_key pairing.token log
        (decode-IsUsable C code pairing h).key x

  module _ (C : Codecs) (faithful : IsFaithful C) (parent : Text → Option Text) where
    from_code-Kept :
        (text : Option Text) (log : CliLog)
        → Kept (needed text λ code. join_pairing target (decode C code)) log
    from_code-Kept none log x = x
    from_code-Kept (some code) log x = join_pairing-Kept C code (decode C code) log refl x

    from_token-Kept :
        (server : Text) (key : List ℕ) (text : Option Text) (log : CliLog)
        → length key ≡ static_key_size
        → Kept (needed text λ token. join_session target server key (trim token)) log
    from_token-Kept server key none log sized x = x
    from_token-Kept server key (some token) log sized x =
        join_session-Kept server key (trim token) log sized x

    from_token_file-Kept :
        (server : Text) (key : List ℕ) (file : Option Text) (log : CliLog)
        → length key ≡ static_key_size
        → Kept
            (needed file λ token_file.
              call
                (on_file (read_to_string token_file))
                λ text. needed text λ token. join_session target server key (trim token))
            log
    from_token_file-Kept server key none log sized x = x
    from_token_file-Kept server key (some path) log sized x = λ text.
        from_token-Kept server key text ((on_file (read_to_string path), text) ∷ log) sized x

    from_key_file-Kept :
        (server : Text) (path file : Option Text) (log : CliLog)
        → Kept
            (needed path λ server_key_path.
              on_files (load_public_key C parent server_key_path) λ server_key.
                needed file λ token_file.
                  call
                    (on_file (read_to_string token_file))
                    λ text. needed text λ token. join_session target server server_key (trim token))
            log
    from_key_file-Kept server none file log x = x
    from_key_file-Kept server (some path) file log x =
        on_files-Keeps (Joins args) IsKey _
          (λ key is_key log x. from_token_file-Kept server key file log is_key.0 x) []
          (load_public_key C parent path) (load_public_key-IsKey C faithful parent path []) log x

    from_server-Kept :
        (server path file : Option Text) (log : CliLog)
        → Kept
            (needed server λ server. needed path λ server_key_path.
              on_files (load_public_key C parent server_key_path) λ server_key.
                needed file λ token_file.
                  call
                    (on_file (read_to_string token_file))
                    λ text. needed text λ token. join_session target server server_key (trim token))
            log
    from_server-Kept none path file log x = x
    from_server-Kept (some server) path file log x = from_key_file-Kept server path file log x

    join_by-Kept :
        (file : Option Text) (log : CliLog) → Kept (join_by C parent args target file) log
    unfolding join_by join_by_files
    join_by-Kept none log x = from_server-Kept args.server args.server_key args.token_file log x
    join_by-Kept (some path) log x =
        λ text. from_code-Kept text ((on_file (read_to_string path), text) ∷ log) x

needed-Kept :
    (args : ProxyArgs) (target : Option Text) (k : Text → Cli)
    → args.target ≡ target
    → ((t : Text) → args.target ≡ some t → Always (Keeps (Joins args)) [] (k t))
    → Always (Keeps (Joins args)) [] (needed target k)
needed-Kept args none k e h = tt
needed-Kept args (some t) k e h = h t e

-- Whatever the files hold and the calls answer, the proxy joins a session only as a controller of the
-- target of its arguments and with a server key of 32 bytes, be it by a pairing code or by the three
-- arguments of old, the digits of a key standing for bytes.
pub run_proxy-Joins :
    (C : Codecs)
    → IsFaithful C
    → (parent : Text → Option Text) (args : ProxyArgs)
    → Always (Keeps (Joins args)) [] (run_proxy C parent args)
unfolding run_proxy
run_proxy-Joins C faithful parent args =
    needed-Kept args args.target _ refl
      λ target named. join_by-Kept args target named C faithful parent args.setup_code_file [] tt

-- ===== src/Cli/Laws.antt =====
-- src/main.rs and src/bin/rust-ssh-connect.rs: with what an endpoint is started, and what the inventory
-- prints.
use rust_ssh.Prelude.{
  ℕ, ◌≡◌, ◌≤◌, refl, sym, ap, ap₂, ◌∙◌, List, [], ◌∷◌, ◌++◌, Bool, true, false, Option, none, some,
  length, map, ltb, Text, len, trim, codes, inl, inr, Bool-cases, ret, call, Always, arith,
}
use rust_ssh.Pairing.{Codecs}
use rust_ssh.Pairing.Create.{create_code_with_device_id}
use rust_ssh.Pairing.RoundTrip.{IsFaithful}
use rust_ssh.Identity.{generate, load_public_key}
use rust_ssh.Identity.Files.{fine, failed, FileProg, FileLog, read_to_string}
use rust_ssh.Identity.Laws.{Ends}
use rust_ssh.Identity.TokenLaws.{Anything, Always-Anything, IsKey, load_public_key-IsKey}
use rust_ssh.Server.Tokens.{TokenRecord, Loaded, loaded, not_loaded, Inventory}
use rust_ssh.Server.Devices.{add_device}
use rust_ssh.Client.Startup.{
  Resolved, resolved, unresolved, check_token_value, resolve_token_value, resolve_file,
  resolve_token,
}
use rust_ssh.Cli.{
  Endpoint, EndpointConfig, ClientCommonArgs, Command, keygen, pair_code, relay, device_add,
  inventory_of, start_endpoint, on_file, print_line, run_endpoint, Exit, Cli, CliLog, on_files,
  exit_with, print_all, device_lines, inventory_lines, printed, listed, started, with_token,
  run_command,
}

-- The configs that endpoints were started with are in `P`.
abbrev pub AllStarted : (EndpointConfig → Type 0) → CliLog → Type 0
AllStarted P [] = Unit {0}
AllStarted P ((run_endpoint config, r) ∷ log) = P config × AllStarted P log
AllStarted P (event ∷ log) = AllStarted P log

module _ (P : EndpointConfig → Type 0) where
  abbrev pub Keeps : CliLog → Exit → Type 0
  Keeps log exit = AllStarted P log

  -- A part on files whose results are in `R`, and what follows.
  pub on_files-Keeps :
      {A : Type 0} (R : A → Type 0) (k : A → Cli)
      → ((a : A) → R a → (log : CliLog) → AllStarted P log → Always Keeps log (k a))
      → (files : FileLog) (p : FileProg A) → Always (Ends (λ _ a. R a) Anything) files p
      → (log : CliLog) → AllStarted P log
      → Always Keeps log (on_files p k)
  on_files-Keeps R k h files (ret (fine a)) e log x = h a e log x
  on_files-Keeps R k h files (ret (failed problem)) e log x = x
  on_files-Keeps R k h files (call c f) e log x =
      λ r. on_files-Keeps R k h ((c, r) ∷ files) (f r) (e r) ((on_file c, r) ∷ log) x

  pub print_all-Keeps :
      (lines : List Text) (log : CliLog) → AllStarted P log → Always Keeps log (print_all lines)
  unfolding print_all
  print_all-Keeps [] log x = x
  print_all-Keeps (line ∷ lines) log x = λ r. print_all-Keeps lines ((print_line line, r) ∷ log) x

  exit_with-Keeps : (r : Bool) (log : CliLog) → AllStarted P log → Always Keeps log (exit_with r)
  exit_with-Keeps true log x = x
  exit_with-Keeps false log x = x

  listed-Keeps :
      (r : Option (List Text)) (log : CliLog) → AllStarted P log → Always Keeps log (listed r)
  listed-Keeps none log x = x
  listed-Keeps (some ids) log x = print_all-Keeps ids log x

-- A key of 32 bytes and a token of 32 to 4096.
abbrev pub HasCredentials : EndpointConfig → Type 0
HasCredentials config =
    IsKey config.server_key × (32 ≤ len config.token) × (len config.token ≤ 4096)

abbrev pub IsResolved : Resolved → Type 0
IsResolved (unresolved e) = Unit {0}
IsResolved (resolved token) = (32 ≤ len token) × (len token ≤ 4096)

check_token_value-IsResolved : (t : Text) → IsResolved (check_token_value t)
unfolding check_token_value
check_token_value-IsResolved t = elim (Bool-cases (ltb (len t) 32)) [
  | inl short ↦ rw short tt
  | inr long ↦ rw long (elim (Bool-cases (ltb 4096 (len t))) [
    | inl large ↦ rw large tt
    | inr fits ↦ rw fits (ground arith, ground arith)
  ])
]

resolve_file-IsResolved : (text : Option Text) → IsResolved (resolve_file text)
unfolding resolve_file resolve_token_value
resolve_file-IsResolved none = tt
resolve_file-IsResolved (some text) = check_token_value-IsResolved (trim text)

resolve_token-IsResolved :
    (read : Text → Option Text) (token token_file : Option Text)
    → IsResolved (resolve_token read token token_file)
unfolding resolve_token resolve_token_value
resolve_token-IsResolved read none none = tt
resolve_token-IsResolved read none (some path) = resolve_file-IsResolved (read path)
resolve_token-IsResolved read (some token) none = check_token_value-IsResolved (trim token)
resolve_token-IsResolved read (some token) (some path) = tt

started-Keeps :
    (server : Text) (key : List ℕ) (endpoint : Endpoint) (r : Resolved) (log : CliLog)
    → IsKey key
    → IsResolved r
    → AllStarted HasCredentials log
    → Always (Keeps HasCredentials) log (started server key endpoint r)
started-Keeps server key endpoint (unresolved e) log is_key h x = x
started-Keeps server key endpoint (resolved token) log is_key h x =
    λ r. listed-Keeps HasCredentials r _ ((is_key, h.0, h.1), x)

with_token-Keeps :
    (common : ClientCommonArgs) (endpoint : Endpoint) (token token_file : Option Text)
    (key : List ℕ)
    → IsKey key
    → (log : CliLog) → AllStarted HasCredentials log
    → Always (Keeps HasCredentials) log (with_token common endpoint token token_file key)
unfolding with_token resolve_token
with_token-Keeps common endpoint none none key is_key log x = x
with_token-Keeps common endpoint none (some path) key is_key log x = λ text.
    started-Keeps common.server key endpoint _ ((on_file (read_to_string path), text) ∷ log) is_key
      (resolve_token-IsResolved (λ _. text) none (some path)) x
with_token-Keeps common endpoint (some token) token_file key is_key log x =
    started-Keeps common.server key endpoint _ log is_key
      (resolve_token-IsResolved (λ _. none) (some token) token_file) x

module _ (C : Codecs) (parent : Text → Option Text) (join : Text → Text → Text)
    (decimal : ℕ → Text) where
  abbrev added_lines : Text → Text → List Text
  added_lines device_id code =
      (codes "registered device: " ++ device_id)
      ∷ codes "copy the following pairing code to that client:"
      ∷ code
      ∷ []

  printed-Keeps :
      (show_tokens : Bool) (r : Loaded Inventory) (log : CliLog)
      → AllStarted HasCredentials log
      → Always (Keeps HasCredentials) log (printed decimal show_tokens r)
  printed-Keeps show_tokens (not_loaded e) log x = x
  printed-Keeps show_tokens (loaded inventory) log x =
      print_all-Keeps HasCredentials (inventory_lines decimal show_tokens inventory) log x

  -- Whatever the files hold and the calls answer, a command starts an agent or a controller only with
  -- a server key of 32 bytes and a token of 32 to 4096 bytes, the digits of a key standing for bytes.
  pub run_command-HasCredentials :
      IsFaithful C
      → (command : Command)
      → Always (Keeps HasCredentials) [] (run_command C parent join decimal command)
  unfolding run_command
  run_command-HasCredentials faithful (keygen identity_key public_key) =
      on_files-Keeps HasCredentials (λ _. Unit {0}) _ (λ a u log x. x) []
        (generate C parent identity_key public_key) (Always-Anything [] _) [] tt
  run_command-HasCredentials faithful (pair_code server key token_file device_id) =
      on_files-Keeps HasCredentials (λ _. Unit {0}) _
        (λ code u log x. print_all-Keeps HasCredentials (code ∷ []) log x) []
        (create_code_with_device_id C parent server key token_file device_id) (Always-Anything [] _)
        [] tt
  run_command-HasCredentials faithful (relay config) = λ r. exit_with-Keeps HasCredentials r _ tt
  run_command-HasCredentials faithful (device_add devices_dir device_id server key) =
      on_files-Keeps HasCredentials (λ _. Unit {0}) _
        (λ code u log x. print_all-Keeps HasCredentials (added_lines device_id code) log x) []
        (add_device C parent join devices_dir device_id server key) (Always-Anything [] _) [] tt
  run_command-HasCredentials faithful (inventory_of token_file devices_dir show_tokens) =
      λ r. printed-Keeps show_tokens r _ tt
  run_command-HasCredentials faithful (start_endpoint common endpoint) =
      on_files-Keeps HasCredentials IsKey
        (with_token common endpoint common.token common.token_file)
        (λ key is_key log x.
          with_token-Keeps common endpoint common.token common.token_file key is_key log x)
        [] (load_public_key C parent common.server_key)
        (load_public_key-IsKey C faithful parent common.server_key []) [] tt

-- What the inventory says without the tokens.
abbrev pub shown : List TokenRecord → List (Text × Text)
shown devices = map (λ device. (device.device_id, device.path)) devices

device_lines-hidden :
    (xs ys : List TokenRecord) → shown xs ≡ shown ys → device_lines false xs ≡ device_lines false ys
unfolding device_lines
device_lines-hidden [] [] h = refl
device_lines-hidden [] (y ∷ ys) h = cc
device_lines-hidden (x ∷ xs) [] h = cc
device_lines-hidden (x ∷ xs) (y ∷ ys) h =
    let (id, path, rest) = heads in
    ap₂ ◌∷◌ (ap₂ (λ i p. codes "- " ++ i ++ codes ": " ++ p) id path)
      (device_lines-hidden xs ys rest)
  where
    heads : (x.device_id ≡ y.device_id) × (x.path ≡ y.path) × (shown xs ≡ shown ys)
    heads = (cc, cc, cc)

length-shown : (xs : List TokenRecord) → length (shown xs) ≡ length xs
length-shown [] = refl
length-shown (x ∷ xs) = omega (arith, length-shown xs)

-- Without --show-tokens what the inventory prints does not depend on any token: two inventories of the
-- same files and devices print the same lines.
pub inventory_lines-hidden :
    (decimal : ℕ → Text) (i j : Inventory)
    → i.controller_token_path ≡ j.controller_token_path
    → shown i.devices ≡ shown j.devices
    → inventory_lines decimal false i ≡ inventory_lines decimal false j
unfolding inventory_lines
inventory_lines-hidden decimal i j path devices =
    let count : length i.devices ≡ length j.devices =
      sym (length-shown i.devices) ∙ ap length devices ∙ length-shown j.devices in
    rw path (rw count (rw (device_lines-hidden i.devices j.devices devices) refl))

-- ===== src/Server/Tokens.antt =====
-- src/server.rs: reading the token files, and reloading them while the server runs. What the file
-- system answers is the argument.
use rust_ssh.Prelude.{
  Bool, not, List, [], ◌∷◌, ◌++◌, Option, none, some, if◌then◌else◌, any, list_eq, Text, as_bytes,
  codes, strip_suffix, insert,
}
use rust_ssh.DeviceId
use rust_ssh.Server.Auth.{TokenError, TokenResult, token_ok, token_error, validate_token}
use rust_ssh.Server.Controller.{bytes_leb}

-- A regular file: its path, its name if that is text, and its text if it can be read.
pub record TokenFile : Type 0 where
  pub path : Text
  pub file_name : Option Text
  pub content : Option Text

-- An entry of `read_dir`: one that cannot be read, one without a type, one that is no file, a file.
pub data Entry : Type 0 where
  unlisted untyped no_file : Entry
  a_file : TokenFile → Entry

pub record TokenRecord : Type 0 where
  pub device_id : Text
  pub path : Text
  pub token : Text

pub data LoadError : Type 0 where
  unreadable_controller_token unreadable_directory unreadable_entry untyped_entry : LoadError
  wrong_name unreadable_token : Text → LoadError
  wrong_token : TokenError → LoadError
  duplicate : Text → LoadError

pub data Loaded (A : Type 0) : Type 0 where
  loaded : A → Loaded A
  not_loaded : LoadError → Loaded A

infixl 5 ◌>>=◌
abbrev pub ◌>>=◌ : {A B : Type 0} → Loaded A → (A → Loaded B) → Loaded B
loaded a >>= f = f a
not_loaded e >>= f = not_loaded e

abbrev pub from_option : {A : Type 0} → LoadError → Option A → Loaded A
from_option e none = not_loaded e
from_option e (some a) = loaded a

abbrev pub from_token : TokenResult → Loaded Text
from_token (token_ok token) = loaded token
from_token (token_error e) = not_loaded (wrong_token e)

unfoldable pub is_recorded : Text → List TokenRecord → Bool
is_recorded device_id records = any (λ r. list_eq r.device_id device_id) records

-- What stands after the token is read.
unfoldable pub add_record : Text → Text → List TokenRecord → Text → Loaded (List TokenRecord)
unfolding is_recorded
add_record path device_id records token =
    if is_recorded device_id records
    then not_loaded (duplicate device_id)
    else loaded (records ++ record { device_id = device_id; path = path; token = token } ∷ [])

unfoldable pub load_token : TokenFile → Text → List TokenRecord → Loaded (List TokenRecord)
unfolding add_record
load_token file device_id records =
    let added =
      from_option (unreadable_token file.path) file.content
      >>= (λ text. from_token (validate_token text))
      >>= add_record file.path device_id records in
    if not (DeviceId.is_valid device_id) then not_loaded (wrong_name file.path) else added

abbrev pub device_of : Option Text → Option Text
device_of none = none
device_of (some name) = strip_suffix (codes ".token") name

abbrev pub load_named : TokenFile → Option Text → List TokenRecord → Loaded (List TokenRecord)
load_named file none records = loaded records
load_named file (some device_id) records = load_token file device_id records

-- One round of the loop over the entries.
unfoldable pub load_entry : Entry → List TokenRecord → Loaded (List TokenRecord)
unfolding load_token
load_entry unlisted records = not_loaded unreadable_entry
load_entry untyped records = not_loaded untyped_entry
load_entry no_file records = loaded records
load_entry (a_file file) records = load_named file (device_of file.file_name) records

unfoldable pub load_loop : List Entry → List TokenRecord → Loaded (List TokenRecord)
load_loop [] records = loaded records
load_loop (entry ∷ entries) records = load_entry entry records >>= load_loop entries

-- `sort_by` on the ids.
unfoldable pub insert_record : TokenRecord → List TokenRecord → List TokenRecord
insert_record r [] = r ∷ []
insert_record r (s ∷ records) =
    let rest = insert_record r records in
    if bytes_leb (as_bytes r.device_id) (as_bytes s.device_id) then r ∷ s ∷ records else s ∷ rest

unfoldable pub sort_records : List TokenRecord → List TokenRecord
unfolding insert_record
sort_records [] = []
sort_records (r ∷ records) = insert_record r (sort_records records)

unfoldable pub load_device_token_records : Option (List Entry) → Loaded (List TokenRecord)
unfolding load_loop sort_records
load_device_token_records directory = do
  entries ← from_option unreadable_directory directory
  records ← load_loop entries []
  loaded (sort_records records)

-- `collect` into the map.
unfoldable pub collect_tokens : List TokenRecord → List (Text × Text) → List (Text × Text)
collect_tokens [] tokens = tokens
collect_tokens (r ∷ records) tokens = collect_tokens records (insert r.device_id r.token tokens)

unfoldable pub load_device_tokens : Option (List Entry) → Loaded (List (Text × Text))
unfolding load_device_token_records collect_tokens
load_device_tokens directory = do
  records ← load_device_token_records directory
  loaded (collect_tokens records [])

pub record AuthSnapshot : Type 0 where
  pub controller_token : Text
  pub device_tokens : List (Text × Text)

-- What the files hold: the controller's, if it can be read, and those of the directory.
pub record TokenFiles : Type 0 where
  pub controller_token_file : Option Text
  pub devices_dir : Option (List Entry)

unfoldable pub load_auth_snapshot : TokenFiles → Loaded AuthSnapshot
unfolding load_device_tokens
load_auth_snapshot files = do
  text ← from_option unreadable_controller_token files.controller_token_file
  controller_token ← from_token (validate_token text)
  device_tokens ← load_device_tokens files.devices_dir
  loaded (record { controller_token = controller_token; device_tokens = device_tokens })

pub record Inventory : Type 0 where
  pub controller_token_path : Text
  pub controller_token : Text
  pub devices : List TokenRecord

unfoldable pub inventory : Text → TokenFiles → Loaded Inventory
unfolding load_device_token_records
inventory controller_token_file files = do
  text ← from_option unreadable_controller_token files.controller_token_file
  controller_token ← from_token (validate_token text)
  devices ← load_device_token_records files.devices_dir
  loaded (record {
    controller_token_path = controller_token_file;
    controller_token = controller_token;
    devices = devices;
  })

-- A tick of `spawn_auth_reload`: an equal snapshot is not written, which leaves the same.
abbrev pub keep_valid : AuthSnapshot → Loaded AuthSnapshot → AuthSnapshot
keep_valid current (loaded next) = next
keep_valid current (not_loaded e) = current

unfoldable pub spawn_auth_reload : List TokenFiles → AuthSnapshot → AuthSnapshot
unfolding load_auth_snapshot
spawn_auth_reload [] auth = auth
spawn_auth_reload (files ∷ ticks) auth =
    spawn_auth_reload ticks (keep_valid auth (load_auth_snapshot files))

-- The start of `run_with_timing` and the ticks since: an error of the first load ends the server.
unfoldable pub auth_after : TokenFiles → List TokenFiles → Loaded AuthSnapshot
unfolding spawn_auth_reload
auth_after files ticks = do auth ← load_auth_snapshot files; loaded (spawn_auth_reload ticks auth)

-- ===== src/Client/Startup.antt =====
-- What is checked before a client starts: `resolve_token` of src/main.rs, and `validate_target` and the
-- pairing check of src/agent.rs. Reading a file and parsing an address are parameters.
use rust_ssh.Prelude.{
  Bool, true, false, Option, none, some, if◌then◌else◌, ltb, list_eq, Text, len, trim,
}

pub data StartupError : Type 0 where
  token_too_short token_too_large unreadable_token_file no_token target_not_parsed
        target_not_loopback unreachable_arguments other_device_id :
      StartupError

pub data Resolved : Type 0 where
  resolved : Text → Resolved
  unresolved : StartupError → Resolved

unfoldable pub check_token_value : Text → Resolved
check_token_value value =
    if ltb (len value) 32
    then unresolved token_too_short
    else (if ltb 4096 (len value) then unresolved token_too_large else resolved value)

unfoldable pub resolve_token_value : Text → Resolved
unfolding check_token_value
resolve_token_value value = check_token_value (trim value)

unfoldable pub resolve_file : Option Text → Resolved
resolve_file none = unresolved unreadable_token_file
resolve_file (some text) = resolve_token_value text

-- Of both arguments at once the source says that they are unreachable.
unfoldable pub resolve_token : (Text → Option Text) → Option Text → Option Text → Resolved
unfolding resolve_file resolve_token_value
resolve_token read_to_string (some token) none = resolve_token_value token
resolve_token read_to_string none (some path) = resolve_file (read_to_string path)
resolve_token read_to_string none none = unresolved no_token
resolve_token read_to_string (some token) (some path) = unresolved unreachable_arguments

-- `is_loopback` of the address that the target parses to; `none` is `Ok(())`.
unfoldable pub validate_target : (Text → Option Bool) → Text → Option StartupError
validate_target parse_loopback target = elim (parse_loopback target) [
  | none ↦ some target_not_parsed
  | some true ↦ none
  | some false ↦ some target_not_loopback
]

unfoldable pub check_pairing_device : Option Text → Text → Option StartupError
check_pairing_device none device_id = none
check_pairing_device (some pairing_device_id) device_id =
    if list_eq pairing_device_id device_id then none else some other_device_id

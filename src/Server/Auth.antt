-- ===== src/Server/Auth.antt =====
-- src/server.rs: token checks and `authenticate`.
use Prim.Native.Nat.{bit_or, bit_xor}
use rust_ssh.Prelude.{
  ℕ, zero, suc, ◌+◌, ◌&&◌, ◌||◌, Bool, not, List, Option, none, some, length, get_or, ltb, leb,
  ◌==◌, if◌then◌else◌, max, Text, len, as_bytes, trim, lookup,
}
use rust_ssh.Protocol.{Role, agent, agent_session, controller}
use rust_ssh.DeviceId

abbrev pub min_token_bytes : ℕ
min_token_bytes = 32

abbrev pub max_token_bytes : ℕ
max_token_bytes = 4096

-- `for index in 0..`, by the rounds left; past the end of a slice a byte is 0.
unfoldable pub difference_loop : ℕ → ℕ → List ℕ → List ℕ → ℕ → ℕ
difference_loop zero index left right difference = difference
difference_loop (suc rounds) index left right difference =
    difference_loop rounds (index + 1) left right
      (bit_or difference (bit_xor (get_or left index 0) (get_or right index 0)))

unfoldable pub constant_time_equal : List ℕ → List ℕ → Bool
unfolding difference_loop
constant_time_equal left right =
    difference_loop (max (length left) (length right)) 0 left right
      (bit_xor (length left) (length right))
    == 0

unfoldable pub valid_token_length : Text → Bool
valid_token_length token = leb min_token_bytes (len token) && leb (len token) max_token_bytes

pub data TokenError : Type 0 where
  too_short too_large : TokenError

pub data TokenResult : Type 0 where
  token_ok : Text → TokenResult
  token_error : TokenError → TokenResult

-- The same code stands in bootstrap.rs and, as `resolve_token_value`, in main.rs.
unfoldable pub check_trimmed : Text → TokenResult
check_trimmed token =
    if ltb (len token) min_token_bytes
    then token_error too_short
    else (if ltb max_token_bytes (len token) then token_error too_large else token_ok token)

unfoldable pub validate_token : Text → TokenResult
unfolding check_trimmed
validate_token token = check_trimmed (trim token)

pub data AuthError : Type 0 where
  no_device_id invalid_device_id invalid_controller_token : AuthError
  not_configured invalid_device_token : Text → AuthError

-- `none` is `Ok(())`.
unfoldable pub check_token : Text → Text → AuthError → Option AuthError
check_token token expected e =
    if not (valid_token_length token)
      || not (constant_time_equal (as_bytes token) (as_bytes expected))
    then some e
    else none

unfoldable pub check_configured : Text → Text → Option Text → Option AuthError
unfolding check_token
check_configured device_id token none = some (not_configured device_id)
check_configured device_id token (some expected) =
    check_token token expected (invalid_device_token device_id)

unfoldable pub check_device : Option Text → Text → List (Text × Text) → Option AuthError
unfolding check_configured
check_device none token tokens = some no_device_id
check_device (some device_id) token tokens =
    if not (DeviceId.is_valid device_id)
    then some invalid_device_id
    else check_configured device_id token (lookup device_id tokens)

unfoldable pub authenticate :
    Role → Option Text → Text → Text → List (Text × Text) → Option AuthError
unfolding check_device
authenticate agent device_id token controller_token tokens = check_device device_id token tokens
authenticate agent_session device_id token controller_token tokens =
    check_device device_id token tokens
authenticate controller device_id token controller_token tokens =
    check_token token controller_token invalid_controller_token

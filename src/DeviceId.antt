-- ===== src/DeviceId.antt =====
-- src/device_id.rs: which device identifiers are valid, which are generated, and how one is made.
pub mod Laws
mod Tests
use rust_ssh.Prelude.{
  ℕ, ◌*◌, ◌&&◌, ◌||◌, Bool, false, not, List, ◌++◌, Option, none, some, length, take, all, is_empty,
  leb, ◌==◌, if◌then◌else◌, ltb, Text, codes, len, as_bytes, strip_prefix, is_ascii_alphanumeric,
  is_ascii_hexdigit,
}

abbrev pub generated_prefix : Text
generated_prefix = codes "rssh-"

abbrev pub generated_random_bytes : ℕ
generated_random_bytes = 16

abbrev pub max_length : ℕ
max_length = 128

unfoldable pub is_id_byte : ℕ → Bool
unfolding is_ascii_alphanumeric
is_id_byte b = is_ascii_alphanumeric b || b == b'.' || b == b'_' || b == b'-'

unfoldable pub is_valid : Text → Bool
unfolding is_id_byte
is_valid value =
    not (is_empty value) && leb (len value) max_length && all is_id_byte (as_bytes value)

-- What follows the prefix, if the value has it.
unfoldable pub is_random_part : Option Text → Bool
unfolding is_ascii_hexdigit
is_random_part none = false
is_random_part (some random) =
    len random == generated_random_bytes * 2 && all is_ascii_hexdigit (as_bytes random)

unfoldable pub is_generated : Text → Bool
unfolding is_random_part
is_generated value = is_random_part (strip_prefix generated_prefix value)

-- `snow`'s key pair and `hex::encode` are parameters: `private` is the fresh key, if one was made.
unfoldable pub generate : (List ℕ → Text) → Option (List ℕ) → Option Text
generate hex_encode none = none
generate hex_encode (some private) =
    if ltb (length private) generated_random_bytes
    then none
    else some (generated_prefix ++ hex_encode (take generated_random_bytes private))

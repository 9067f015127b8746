-- ===== src/Pairing.antt =====
-- src/bootstrap.rs: pairing codes. The address parser, hexadecimal digits, base64 and JSON are the
-- parameter Codecs; the files that `create_code` reads are left out.
pub mod Laws
pub mod RoundTrip
pub mod Create
pub mod Sample
mod Tests
use rust_ssh.Prelude.{
  ℕ, List, [], ◌∷◌, ◌++◌, Bool, not, ◌||◌, ◌==◌, Option, none, some, length, ltb, if◌then◌else◌,
  Text, codes, len, trim, strip_prefix, is_whitespace,
}
use rust_ssh.DeviceId

abbrev pub code_prefix : Text
code_prefix = codes "rssh1:"

abbrev pub min_token_bytes : ℕ
min_token_bytes = 32

abbrev pub max_token_bytes : ℕ
max_token_bytes = 4096

abbrev pub static_key_size : ℕ
static_key_size = 32

pub record Config : Type 0 where
  pub server : Text
  pub server_key : List ℕ
  pub token : Text
  pub device_id : Option Text

pub record WireConfig : Type 0 where
  pub server : Text
  pub server_key : Text
  pub token : Text
  pub device_id : Option Text

-- `SocketAddr`.
pub record Address : Type 0 where
  pub port : ℕ
  pub is_unspecified : Bool

pub record Codecs : Type 0 where
  pub parse_address : Text → Option Address
  pub hex_encode : List ℕ → Text
  pub hex_decode : Text → Option (List ℕ)
  pub base64_encode : List ℕ → Text
  pub base64_decode : Text → Option (List ℕ)
  pub to_vec : WireConfig → Option (List ℕ)
  pub from_slice : List ℕ → Option WireConfig

pub data PairingError : Type 0 where
  wrong_prefix wrong_base64 wrong_json no_encoding wrong_address unusable_address wrong_hex
        wrong_key_size token_too_short token_too_large invalid_device_id :
      PairingError

pub data Paired {ℓ} (A : Type ℓ) : Type ℓ where
  ok : A → Paired A
  error : PairingError → Paired A

infixl 5 ◌>>=◌
abbrev pub ◌>>=◌ : {A B : Type 0} → Paired A → (A → Paired B) → Paired B
ok a >>= f = f a
error e >>= f = error e

abbrev pub or_error : {A : Type 0} → PairingError → Option A → Paired A
or_error e none = error e
or_error e (some a) = ok a

unfoldable pub validate_device_id : Text → Paired Text
validate_device_id value =
    if not (DeviceId.is_valid value) then error invalid_device_id else ok value

-- `.map(validate_device_id).transpose()`
unfoldable pub validate_optional : Option Text → Paired (Option Text)
unfolding validate_device_id
validate_optional none = ok none
validate_optional (some value) = validate_device_id value >>= λ id. ok (some id)

unfoldable pub check_token : Text → Paired Text
check_token token =
    if ltb (len token) min_token_bytes
    then error token_too_short
    else (if ltb max_token_bytes (len token) then error token_too_large else ok token)

unfoldable pub validate_token : Text → Paired Text
unfolding check_token
validate_token token = check_token (trim token)

unfoldable pub without_whitespace : Text → Text
without_whitespace [] = []
without_whitespace (c ∷ t) =
    let rest = without_whitespace t in if is_whitespace c then rest else c ∷ rest

module _ (C : Codecs) where
  unfoldable pub check_address : Text → Address → Paired Text
  check_address server address =
      if address.port == 0 || address.is_unspecified then error unusable_address else ok server

  unfoldable pub validate_server : Text → Paired Text
  unfolding check_address
  validate_server server =
      or_error wrong_address (C.parse_address (trim server)) >>= check_address (trim server)

  unfoldable pub check_key : List ℕ → Paired (List ℕ)
  check_key key = if length key == static_key_size then ok key else error wrong_key_size

  unfoldable pub decode_public_key : Text → Paired (List ℕ)
  unfolding check_key
  decode_public_key value = or_error wrong_hex (C.hex_decode value) >>= check_key

  unfoldable pub encode : Config → Paired Text
  encode config = do
    server ← validate_server config.server
    token ← validate_token config.token
    device_id ← validate_optional config.device_id
    payload ← or_error no_encoding (
        C.to_vec (record {
          server = server;
          server_key = C.hex_encode config.server_key;
          token = token;
          device_id = device_id;
        }))
    ok (code_prefix ++ C.base64_encode payload)

  unfoldable pub decode_wire : WireConfig → Paired Config
  decode_wire wire = do
    server ← validate_server wire.server
    key ← decode_public_key wire.server_key
    token ← validate_token wire.token
    device_id ← validate_optional wire.device_id
    ok (record { server = server; server_key = key; token = token; device_id = device_id })

  unfoldable pub decode : Text → Paired Config
  unfolding decode_wire
  decode code = do
    text ← or_error wrong_prefix (strip_prefix code_prefix (without_whitespace code))
    payload ← or_error wrong_base64 (C.base64_decode text)
    wire ← or_error wrong_json (C.from_slice payload)
    decode_wire wire

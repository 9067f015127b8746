-- ===== src/Desktop/Checks.antt =====
-- src/desktop.rs: what is checked before a value is used.
use rust_ssh.Prelude.{
  ℕ, ◌&&◌, ◌||◌, Bool, true, false, not, List, Option, none, some, leb, ◌==◌, if◌then◌else◌, Text,
  len, trim, is_empty, any, all, list_eq, is_whitespace, is_control, is_ascii_alphanumeric,
}
use rust_ssh.DeviceId
use rust_ssh.Pairing

pub data Refusal : Type 0 where
  empty_value unsafe_user target_not_parsed target_not_loopback id_not_generated unbound_code
        other_device unsupported_id unsupported_host :
      Refusal
  wrong_code : Pairing.PairingError → Refusal

pub data Checked (A : Type 0) : Type 0 where
  ok : A → Checked A
  error : Refusal → Checked A

infixl 5 ◌>>=◌
abbrev pub ◌>>=◌ : {A B : Type 0} → Checked A → (A → Checked B) → Checked B
ok a >>= f = f a
error e >>= f = error e

abbrev pub from_pairing : {A : Type 0} → Pairing.Paired A → Checked A
from_pairing (Pairing.ok a) = ok a
from_pairing (Pairing.error e) = error (wrong_code e)

unfoldable pub required_value : Text → Checked Text
required_value value = if is_empty (trim value) then error empty_value else ok (trim value)

unfoldable pub is_unsafe_user_char : ℕ → Bool
unfolding is_whitespace is_control
is_unsafe_user_char c = is_whitespace c || is_control c

unfoldable pub validate_ssh_user : Text → Checked (Unit {0})
unfolding is_unsafe_user_char
validate_ssh_user user = if any is_unsafe_user_char user then error unsafe_user else ok tt

unfoldable pub is_host_char : ℕ → Bool
unfolding is_ascii_alphanumeric
is_host_char c = is_ascii_alphanumeric c || c == b'.' || c == b'_' || c == b'-'

unfoldable pub valid_host_alias : Text → Bool
unfolding is_host_char
valid_host_alias alias = not (is_empty alias) && leb (len alias) 255 && all is_host_char alias

-- Whether the address that a target parses to is a loopback one is a parameter.
unfoldable pub validate_loopback_target : (Text → Option Bool) → Text → Checked (Unit {0})
validate_loopback_target parse_loopback target = elim (parse_loopback target) [
  | none ↦ error target_not_parsed
  | some true ↦ ok tt
  | some false ↦ error target_not_loopback
]

pub record ClientSettings : Type 0 where
  pub pairing_code : Text
  pub device_id : Text
  pub target : Text
  pub config_version : ℕ

-- `agent::Config`.
pub record AgentConfig : Type 0 where
  pub server : Text
  pub server_key : List ℕ
  pub token : Text
  pub device_id : Text
  pub target : Text

unfoldable pub check_generated : Text → Checked (Unit {0})
check_generated device_id =
    if not (DeviceId.is_generated device_id) then error id_not_generated else ok tt

unfoldable pub check_bound : Option Text → Text → Checked (Unit {0})
check_bound none device_id = error unbound_code
check_bound (some pairing_device_id) device_id =
    if not (list_eq pairing_device_id device_id) then error other_device else ok tt

module _ (C : Pairing.Codecs) (parse_loopback : Text → Option Bool) where
  unfoldable pub client_agent_config : ClientSettings → Checked AgentConfig
  client_agent_config settings = do
    pairing ← from_pairing (Pairing.decode C settings.pairing_code)
    device_id ← required_value settings.device_id
    _ ← check_generated device_id
    _ ← check_bound pairing.device_id device_id
    target ← required_value settings.target
    _ ← validate_loopback_target parse_loopback target
    ok (record {
      server = pairing.server;
      server_key = pairing.server_key;
      token = pairing.token;
      device_id = device_id;
      target = target;
    })

-- ===== src/Desktop/ChecksLaws.antt =====
-- What src/desktop.rs starts an agent with is what src/agent.rs takes.
use rust_ssh.Prelude.{
  ◌≡◌, refl, ap, subst, Bool, true, Option, none, some, Text, list_eq_iff, list_eq_refl, arith,
}
use rust_ssh.DeviceId
use rust_ssh.DeviceId.Laws.{is_generated-is_valid}
use rust_ssh.Pairing
use rust_ssh.Pairing.Laws.{IsUsable, decode-IsUsable}
use rust_ssh.Client.Startup.{validate_target, check_pairing_device}
use rust_ssh.Desktop.Checks.{
  Checked, ok, error, ◌>>=◌, from_pairing, required_value, validate_loopback_target, ClientSettings,
  AgentConfig, check_generated, check_bound, client_agent_config,
}

bind_ok :
    {A B : Type 0} (m : Checked A) (f : A → Checked B) (b : B)
    → (m >>= f) ≡ ok b
    → (a : A) × (m ≡ ok a) × (f a ≡ ok b)
bind_ok (ok a) f b e = (a, refl, e)
bind_ok (error x) f b e = cc

ok_injective : {A : Type 0} {a b : A} → ok a ≡ ok b → a ≡ b
ok_injective h = cc

from_pairing_ok :
    {A : Type 0} (p : Pairing.Paired A) (a : A) → from_pairing p ≡ ok a → p ≡ Pairing.ok a
from_pairing_ok (Pairing.ok x) a e = ap Pairing.ok (ok_injective e)
from_pairing_ok (Pairing.error x) a e = cc

check_generated_ok :
    (id : Text) (u : Unit {0}) → check_generated id ≡ ok u → DeviceId.is_generated id ≡ true
unfolding check_generated
check_generated_ok id u e = ground arith

check_bound_ok :
    (bound : Option Text) (id : Text) (u : Unit {0}) → check_bound bound id ≡ ok u → bound ≡ some id
unfolding check_bound
check_bound_ok none id u e = cc
check_bound_ok (some other) id u e = ground (arith, list_eq_iff other id)

validate_loopback_target_ok :
    (parse_loopback : Text → Option Bool) (target : Text) (u : Unit {0})
    → validate_loopback_target parse_loopback target ≡ ok u
    → validate_target parse_loopback target ≡ none
unfolding validate_loopback_target validate_target
validate_loopback_target_ok parse_loopback target u e = ground arith

-- What an agent starts with: the values of a usable code that is bound to the device, a generated
-- and so valid id, and a target that the agent's own checks let pass.
pub record IsStartable (C : Pairing.Codecs) (parse_loopback : Text → Option Bool)
    (settings : ClientSettings) (config : AgentConfig) : Type 0 where
  pub code : Pairing.Config
  pub decoded : Pairing.decode C settings.pairing_code ≡ Pairing.ok code
  pub usable : IsUsable C code
  pub server : config.server ≡ code.server
  pub server_key : config.server_key ≡ code.server_key
  pub token : config.token ≡ code.token
  pub bound : check_pairing_device code.device_id config.device_id ≡ none
  pub named : code.device_id ≡ some config.device_id
  pub generated : DeviceId.is_generated config.device_id ≡ true
  pub valid : DeviceId.is_valid config.device_id ≡ true
  pub target : validate_target parse_loopback config.target ≡ none

check_pairing_device_same :
    (bound : Option Text) (id : Text) → bound ≡ some id → check_pairing_device bound id ≡ none
unfolding check_pairing_device
check_pairing_device_same bound id e = rw (e, check_pairing_device) (rw (list_eq_refl id) refl)

-- Whatever the settings are, what the client window starts an agent with carries the values of a
-- usable code that is bound to the device, has a valid and generated device id, and passes the checks
-- that the agent makes itself.
pub client_agent_config-IsStartable :
    (C : Pairing.Codecs) (parse_loopback : Text → Option Bool) (settings : ClientSettings)
    (config : AgentConfig)
    → client_agent_config C parse_loopback settings ≡ ok config
    → IsStartable C parse_loopback settings config
unfolding client_agent_config
client_agent_config-IsStartable C parse_loopback settings config e =
    let (code, c, e1) =
      bind_ok (from_pairing (Pairing.decode C settings.pairing_code)) _ config e in
    let (id, _, e2) = bind_ok (required_value settings.device_id) _ config e1 in
    let (u, g, e3) = bind_ok (check_generated id) _ config e2 in
    let (v, b, e4) = bind_ok (check_bound code.device_id id) _ config e3 in
    let (target, _, e5) = bind_ok (required_value settings.target) _ config e4 in
    let (w, t, made) = bind_ok (validate_loopback_target parse_loopback target) _ config e5 in
    let generated = check_generated_ok id u g in
    let decoded = from_pairing_ok (Pairing.decode C settings.pairing_code) code c in
    let named = check_bound_ok code.device_id id v b in
    subst (IsStartable C parse_loopback settings) (ok_injective made) (record {
      code = code;
      decoded = decoded;
      usable = decode-IsUsable C settings.pairing_code code decoded;
      server = refl;
      server_key = refl;
      token = refl;
      bound = check_pairing_device_same code.device_id id named;
      named = named;
      generated = generated;
      valid = is_generated-is_valid id generated;
      target = validate_loopback_target_ok parse_loopback target w t;
    })

-- ===== src/Pairing/Laws.antt =====
-- What src/bootstrap.rs accepts.
use rust_ssh.Prelude.{
  ℕ, ◌≤◌, ◌≡◌, refl, sym, subst, ◌∙◌, ap, List, true, false, Option, none, some, length, Text, len,
  trim, strip_prefix, arith, inl, inr, Bool-cases,
}
use rust_ssh.DeviceId
use rust_ssh.Pairing.{
  code_prefix, without_whitespace, min_token_bytes, max_token_bytes, static_key_size, Config,
  WireConfig, Address, Codecs, Paired, ok, error, ◌>>=◌, or_error, validate_device_id,
  validate_optional, validate_token, check_address, validate_server, check_key, decode_public_key,
  decode_wire, decode, invalid_device_id, wrong_address, wrong_hex, wrong_prefix, wrong_base64,
  wrong_json, PairingError,
}

abbrev pub IsDevice : Option Text → Type 0
IsDevice none = Unit {0}
IsDevice (some id) = DeviceId.is_valid id ≡ true

-- A usable address, a key of 32 bytes, a token of 32 to 4096 bytes, and a valid device id, if any.
pub record IsUsable (C : Codecs) (c : Config) : Type 0 where
  pub address :
      (a : Address) × (C.parse_address c.server ≡ some a)
      × (¬ (a.port ≡ 0))
      × (a.is_unspecified ≡ false)
  pub key : length c.server_key ≡ static_key_size
  pub token : (min_token_bytes ≤ len c.token) × (len c.token ≤ max_token_bytes)
  pub device : IsDevice c.device_id

pub bind_ok :
    {A B : Type 0} (m : Paired A) (f : A → Paired B) (b : B)
    → (m >>= f) ≡ ok b
    → (a : A) × (m ≡ ok a) × (f a ≡ ok b)
bind_ok (ok a) f b e = (a, refl, e)
bind_ok (error x) f b e = cc

pub or_error_ok :
    {A : Type 0} (x : PairingError) (o : Option A) (a : A) → or_error x o ≡ ok a → o ≡ some a
or_error_ok x none a e = cc
or_error_ok x (some b) a e = cc

pub validate_token_ok :
    (t u : Text) → validate_token t ≡ ok u → (min_token_bytes ≤ len u) × (len u ≤ max_token_bytes)
unfolding validate_token
validate_token_ok t u e = ground arith

validate_device_id_ok : (v u : Text) → validate_device_id v ≡ ok u → DeviceId.is_valid u ≡ true
unfolding validate_device_id
validate_device_id_ok v u e = elim (Bool-cases (DeviceId.is_valid v)) [
  | inl valid ↦
      let kept : ◌≡◌ {A = Paired Text} (ok v) (ok u) = rw valid at e in
      let same : v ≡ u = cc kept in ap DeviceId.is_valid (sym same) ∙ valid
  | inr bad ↦
      let refused : ◌≡◌ {A = Paired Text} (error invalid_device_id) (ok u) = rw bad at e in
      cc refused
]

validate_optional_ok : (o p : Option Text) → validate_optional o ≡ ok p → IsDevice p
unfolding validate_optional
validate_optional_ok o none e = tt
validate_optional_ok none (some u) e = cc
validate_optional_ok (some v) (some u) e =
    let (w, checked, same) = bind_ok (validate_device_id v) (λ id. ok (some id)) (some u) e in
    let wu : w ≡ u = cc same in validate_device_id_ok v u (checked ∙ ap ok wu)

module _ (C : Codecs) where
  pub check_key_ok : (k l : List ℕ) → check_key C k ≡ ok l → length l ≡ static_key_size
  unfolding check_key
  check_key_ok k l e = ground arith

  check_address_ok :
      (s u : Text) (a : Address)
      → check_address C s a ≡ ok u
      → (s ≡ u) × (¬ (a.port ≡ 0)) × (a.is_unspecified ≡ false)
  unfolding check_address
  check_address_ok s u a e = ground arith

  validate_server_ok :
      (s u : Text)
      → validate_server C s ≡ ok u
      → (a : Address) × (C.parse_address u ≡ some a) × (¬ (a.port ≡ 0)) × (a.is_unspecified ≡ false)
  unfolding validate_server
  validate_server_ok s u e =
      let (a, parsed, checked) =
        bind_ok (or_error wrong_address (C.parse_address (trim s))) (check_address C (trim s)) u
          e in
      let (same, port, specified) = check_address_ok (trim s) u a checked in
      (
        a,
        ap C.parse_address (sym same)
            ∙ or_error_ok wrong_address (C.parse_address (trim s)) a parsed,
        port,
        specified,
      )

  decode_wire_ok : (w : WireConfig) (c : Config) → decode_wire C w ≡ ok c → IsUsable C c
  unfolding decode_wire decode_public_key
  decode_wire_ok w c e =
      let (server, s, e1) = bind_ok (validate_server C w.server) _ c e in
      let (key, k, e2) = bind_ok (decode_public_key C w.server_key) _ c e1 in
      let (token, t, e3) = bind_ok (validate_token w.token) _ c e2 in
      let (id, d, e4) = bind_ok (validate_optional w.device_id) _ c e3 in
      let (bytes, _, sized) = bind_ok (or_error wrong_hex (C.hex_decode w.server_key)) _ key k in
      let made : record { server = server; server_key = key; token = token; device_id = id } ≡ c =
        cc e4 in
      subst (IsUsable C) made (record {
        address = validate_server_ok w.server server s;
        key = check_key_ok bytes key sized;
        token = validate_token_ok w.token token t;
        device = validate_optional_ok w.device_id id d;
      })

  -- What `decode` accepts is usable: the server is an address with a port and not the unspecified one,
  -- the key has 32 bytes, the token 32 to 4096, and the device id, if there is one, is valid.
  pub decode-IsUsable : (code : Text) (c : Config) → decode C code ≡ ok c → IsUsable C c
  unfolding decode
  decode-IsUsable code c e =
      let (text, _, e1) =
        bind_ok (or_error wrong_prefix (strip_prefix code_prefix (without_whitespace code)))
          (λ text. or_error wrong_base64 (C.base64_decode text) >>= λ payload.
            or_error wrong_json (C.from_slice payload) >>= decode_wire C)
          c e in
      let (payload, _, e2) =
        bind_ok (or_error wrong_base64 (C.base64_decode text))
          (λ payload. or_error wrong_json (C.from_slice payload) >>= decode_wire C) c e1 in
      let (wire, _, e3) =
        bind_ok (or_error wrong_json (C.from_slice payload)) (decode_wire C) c e2 in
      decode_wire_ok wire c e3

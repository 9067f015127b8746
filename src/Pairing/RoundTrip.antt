-- ===== src/Pairing/RoundTrip.antt =====
-- src/bootstrap.rs: `decode` against `encode`.
use rust_ssh.Prelude.{
  ℕ, ◌≡◌, refl, sym, subst, ◌∙◌, ap, List, [], ◌∷◌, ◌++◌, false, Option, none, some, length, Text,
  trim, trim_twice, strip_prefix, is_whitespace, All, IsByte, arith,
}
use rust_ssh.Pairing.{
  code_prefix, without_whitespace, static_key_size, Config, WireConfig, Codecs, Paired, ok,
  or_error, validate_device_id, validate_optional, validate_token, check_token, check_address,
  validate_server, check_key, decode_public_key, decode_wire, encode, decode, wrong_address,
  no_encoding,
}
use rust_ssh.Pairing.Laws.{bind_ok, or_error_ok}

-- What the code relies on of the encodings: each is read back, digits stand for bytes, and base64 has
-- no white space.
pub record IsFaithful (C : Codecs) : Type 0 where
  pub hex : (bytes : List ℕ) → All IsByte bytes → C.hex_decode (C.hex_encode bytes) ≡ some bytes
  pub hex_bytes : (t : Text) (bytes : List ℕ) → C.hex_decode t ≡ some bytes → All IsByte bytes
  pub base64 :
      (bytes : List ℕ) → All IsByte bytes → C.base64_decode (C.base64_encode bytes) ≡ some bytes
  pub base64_solid : (bytes : List ℕ) → All (λ c. is_whitespace c ≡ false) (C.base64_encode bytes)
  pub json :
      (w : WireConfig) (bytes : List ℕ)
      → C.to_vec w ≡ some bytes
      → All IsByte bytes × (C.from_slice bytes ≡ some w)

without_whitespace-solid :
    (t : Text) → All (λ c. is_whitespace c ≡ false) t → without_whitespace t ≡ t
unfolding without_whitespace
without_whitespace-solid [] h = refl
without_whitespace-solid (c ∷ t) (e, h) = rw e (ap (λ x. c ∷ x) (without_whitespace-solid t h))

strip_prefix-code : (t : Text) → strip_prefix code_prefix (code_prefix ++ t) ≡ some t
unfolding strip_prefix
strip_prefix-code t = refl

without_whitespace-code :
    (t : Text) → without_whitespace (code_prefix ++ t) ≡ code_prefix ++ without_whitespace t
unfolding without_whitespace is_whitespace
without_whitespace-code t = refl

check_token_same : (t u : Text) → check_token t ≡ ok u → u ≡ t
unfolding check_token
check_token_same t u e = ground arith

pub validate_token-trim :
    (t u : Text) → validate_token t ≡ ok u → (u ≡ trim t) × (validate_token u ≡ ok u)
unfolding validate_token
validate_token-trim t u e =
    let same : u ≡ trim t = check_token_same (trim t) u e in
    (same, rw same (rw (trim_twice t) (e ∙ ap ok same)))

validate_device_id-same : (v u : Text) → validate_device_id v ≡ ok u → u ≡ v
unfolding validate_device_id
validate_device_id-same v u e = ground arith

validate_optional-same : (o p : Option Text) → validate_optional o ≡ ok p → p ≡ o
unfolding validate_optional
validate_optional-same none p e = cc
validate_optional-same (some v) p e =
    let (w, checked, same) = bind_ok (validate_device_id v) (λ id. ok (some id)) p e in
    let back : w ≡ v = validate_device_id-same v w checked in cc

module _ (C : Codecs) where
  check_address_same : (s u : Text) (a : _) → check_address C s a ≡ ok u → u ≡ s
  unfolding check_address
  check_address_same s u a e = ground arith

  pub check_key_same : (k l : List ℕ) → check_key C k ≡ ok l → l ≡ k
  unfolding check_key
  check_key_same k l e = ground arith

  pub validate_server-trim :
      (s u : Text) → validate_server C s ≡ ok u → (u ≡ trim s) × (validate_server C u ≡ ok u)
  unfolding validate_server
  validate_server-trim s u e =
      let (a, parsed, checked) =
        bind_ok (or_error wrong_address (C.parse_address (trim s))) (check_address C (trim s)) u
          e in
      let same : u ≡ trim s = check_address_same (trim s) u a checked in
      (same, rw same (rw (trim_twice s) (e ∙ ap ok same)))

  decode_public_key-hex :
      IsFaithful C
      → (key : List ℕ) → All IsByte key
      → length key ≡ static_key_size
      → decode_public_key C (C.hex_encode key) ≡ ok key
  unfolding decode_public_key check_key
  decode_public_key-hex faithful key bytes sized = rw (faithful.hex key bytes) (rw sized refl)

  decode-made :
      IsFaithful C
      → (wire : WireConfig) (payload : List ℕ) → C.to_vec wire ≡ some payload
      → decode C (code_prefix ++ C.base64_encode payload) ≡ decode_wire C wire
  unfolding decode
  decode-made faithful wire payload made =
      let (payload_bytes, read) = faithful.json wire payload made in
      rw (without_whitespace-code (C.base64_encode payload)) (
        rw (without_whitespace-solid (C.base64_encode payload) (faithful.base64_solid payload)) (
          rw (strip_prefix-code (C.base64_encode payload))
            (rw (faithful.base64 payload payload_bytes) (rw read refl))))

  decode_wire-checked :
      (wire : WireConfig) (key : List ℕ)
      → validate_server C wire.server ≡ ok wire.server
      → decode_public_key C wire.server_key ≡ ok key
      → validate_token wire.token ≡ ok wire.token
      → validate_optional wire.device_id ≡ ok wire.device_id
      → decode_wire C wire
        ≡ ok (record {
          server = wire.server;
          server_key = key;
          token = wire.token;
          device_id = wire.device_id;
        })
  unfolding decode_wire
  decode_wire-checked wire key s k t d = rw s (rw k (rw t (rw d refl)))

-- The config that a pairing code stands for.
abbrev pub trimmed_config : Config → Config
trimmed_config c = record c { server = trim c.server; token = trim c.token }

same_config :
    (server token : Text) (id : Option Text) (c : Config)
    → server ≡ trim c.server
    → token ≡ trim c.token
    → id ≡ c.device_id
    → ◌≡◌ {A = Paired Config}
        (ok (record { server = server; server_key = c.server_key; token = token; device_id = id }))
        (ok (trimmed_config c))
same_config server token id c s t d = rw s (rw t (rw d refl))

-- With encodings that are read back, every code that `encode` makes is read back by `decode`, as the
-- config it was made of with the white space around its server and its token removed.
pub decode-encode :
    (C : Codecs)
    → IsFaithful C
    → (c : Config) (code : Text) → All IsByte c.server_key
    → length c.server_key ≡ static_key_size
    → encode C c ≡ ok code
    → decode C code ≡ ok (trimmed_config c)
unfolding encode
decode-encode C faithful c code bytes sized e =
    let (server, s, e1) = bind_ok (validate_server C c.server) _ code e in
    let (token, t, e2) = bind_ok (validate_token c.token) _ code e1 in
    let (id, d, e3) = bind_ok (validate_optional c.device_id) _ code e2 in
    let wire : WireConfig = record {
      server = server;
      server_key = C.hex_encode c.server_key;
      token = token;
      device_id = id;
    } in
    let (payload, w, e4) = bind_ok (or_error no_encoding (C.to_vec wire)) _ code e3 in
    let made : code_prefix ++ C.base64_encode payload ≡ code = cc e4 in
    let (server_trim, server_again) = validate_server-trim C c.server server s in
    let (token_trim, token_again) = validate_token-trim c.token token t in
    let id_same = validate_optional-same c.device_id id d in
    sym (ap (decode C) made)
    ∙ decode-made C faithful wire payload (or_error_ok no_encoding (C.to_vec wire) payload w)
    ∙ decode_wire-checked C wire c.server_key server_again
        (decode_public_key-hex C faithful c.server_key bytes sized) token_again
        (subst (λ o. validate_optional o ≡ ok id) (sym id_same) d)
    ∙ same_config server token id c server_trim token_trim id_same

-- ===== src/Pairing/Sample.antt =====
-- Encodings that are read back, for the tests: bytes stand for themselves, and one config has a JSON.
use mathlib.Core.Option.{some-injective}
use rust_ssh.Prelude.{
  subst, ℕ, ◌+◌, ◌-◌, ◌≡◌, refl, ap, ap₂, sym, List, [], ◌∷◌, Bool, true, false, ◌&&◌, Option, none,
  some, if◌then◌else◌, ltb, all, map, list_eq, list_eq_iff, Text, IsByte, All, is_whitespace, arith,
  Bool-cases, inl, inr,
}
use rust_ssh.Prelude.Utf8.{IsText}
use rust_ssh.Pairing.{WireConfig, Codecs}
use rust_ssh.Pairing.RoundTrip.{IsFaithful}

abbrev pub clamp : ℕ → ℕ
clamp b = if ltb b 256 then b else 0

abbrev pub hex_encode : List ℕ → Text
hex_encode bytes = map clamp bytes

abbrev pub hex_decode : Text → Option (List ℕ)
hex_decode t = if all (λ b. ltb b 256) t then some t else none

abbrev pub base64_encode : List ℕ → Text
base64_encode bytes = map (λ b. b + 20000) bytes

abbrev pub base64_decode : Text → Option (List ℕ)
base64_decode t = some (map (λ c. c - 20000) t)

abbrev same_optional : Option Text → Option Text → Bool
same_optional none none = true
same_optional (some s) (some t) = list_eq s t
same_optional o p = false

abbrev same_wire : WireConfig → WireConfig → Bool
same_wire v w =
    list_eq v.server w.server
    && list_eq v.server_key w.server_key
    && list_eq v.token w.token
    && same_optional v.device_id w.device_id

abbrev pub sample_codecs : WireConfig → Codecs
sample_codecs wire = record {
  parse_address = λ t. some (record { port = 1; is_unspecified = false });
  hex_encode = hex_encode;
  hex_decode = hex_decode;
  base64_encode = base64_encode;
  base64_decode = base64_decode;
  to_vec = λ w. if same_wire w wire then some (1 ∷ []) else none;
  from_slice = λ bytes. some wire;
}

pub all-IsByte : (t : Text) → all (λ b. ltb b 256) t ≡ true → All IsByte t
all-IsByte [] h = tt
all-IsByte (b ∷ t) h = (ground arith, all-IsByte t (ground arith))

clamp-IsByte : (bytes : List ℕ) → all (λ b. ltb b 256) (hex_encode bytes) ≡ true
clamp-IsByte [] = refl
clamp-IsByte (b ∷ bytes) = elim (Bool-cases (ltb b 256)) [
  | inl e ↦ rw e (rw e (clamp-IsByte bytes))
  | inr e ↦ rw e (clamp-IsByte bytes)
]

clamp-same : (bytes : List ℕ) → All IsByte bytes → hex_encode bytes ≡ bytes
clamp-same [] h = refl
clamp-same (b ∷ bytes) (e, h) =
    let below : ltb b 256 ≡ true = ground arith in rw below (ap (λ x. b ∷ x) (clamp-same bytes h))

pub hex_encode-IsText : (bytes : List ℕ) → IsText (hex_encode bytes)
hex_encode-IsText [] = tt
hex_encode-IsText (b ∷ bytes) = (ground arith, hex_encode-IsText bytes)

shifted : (bytes : List ℕ) → map (λ c. c - 20000) (base64_encode bytes) ≡ bytes
shifted [] = refl
shifted (b ∷ bytes) = let e : b + 20000 - 20000 ≡ b = omega arith in ap₂ ◌∷◌ e (shifted bytes)

solid : (bytes : List ℕ) → All (λ c. is_whitespace c ≡ false) (base64_encode bytes)
unfolding is_whitespace
solid [] = tt
solid (b ∷ bytes) = (ground arith, solid bytes)

same_optional-eq : (o p : Option Text) → same_optional o p ≡ true → o ≡ p
same_optional-eq none none h = refl
same_optional-eq none (some t) h = cc
same_optional-eq (some s) none h = cc
same_optional-eq (some s) (some t) h = ap some ((list_eq_iff s t).0 h)

and_true : (a b : Bool) → (a && b) ≡ true → (a ≡ true) × (b ≡ true)
and_true a b h = ground arith

same_wire-eq : (v w : WireConfig) → same_wire v w ≡ true → v ≡ w
same_wire-eq v w h =
    let (h1, id) = and_true _ (same_optional v.device_id w.device_id) h in
    let (h2, token) = and_true _ (list_eq v.token w.token) h1 in
    let (server, key) =
      and_true (list_eq v.server w.server) (list_eq v.server_key w.server_key) h2 in
    let a = (list_eq_iff v.server w.server).0 server in
    let b = (list_eq_iff v.server_key w.server_key).0 key in
    let c = (list_eq_iff v.token w.token).0 token in
    let d = same_optional-eq v.device_id w.device_id id in
    λ i. record { server = a i; server_key = b i; token = c i; device_id = d i }

chosen :
    {A : Type 0} (b : Bool) (x y : A) → (if b then some x else none) ≡ some y → (b ≡ true) × (x ≡ y)
chosen true x y h = (refl, some-injective x y h)
chosen false x y h = cc

pub sample_codecs-IsFaithful : (wire : WireConfig) → IsFaithful (sample_codecs wire)
sample_codecs-IsFaithful wire = record {
  hex = λ bytes h. rw (clamp-IsByte bytes) (ap some (clamp-same bytes h));
  hex_bytes = λ t bytes h.
      let (small, same) = chosen (all (λ b. ltb b 256) t) t bytes h in
      subst (All IsByte) same (all-IsByte t small);
  base64 = λ bytes h. ap some (shifted bytes);
  base64_solid = solid;
  json = λ w bytes h.
      let (same, made) = chosen (same_wire w wire) (1 ∷ []) bytes h in
      (subst (All IsByte) made (omega arith, tt), ap some (sym (same_wire-eq w wire same)));
}

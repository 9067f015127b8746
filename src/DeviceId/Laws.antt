-- ===== src/DeviceId/Laws.antt =====
-- Generated identifiers are recognised as generated, and are valid.
use rust_ssh.Prelude.{
  ℕ, ◌*◌, ◌+◌, ◌≤◌, ◌<◌, ◌≡◌, refl, ap, sym, ◌∙◌, true, List, [], ◌∷◌, ◌++◌, Option, none, some,
  length, take, all, arith, Text, len, as_bytes, encode_char, strip_prefix, strip_prefix-prefix,
  is_ascii_hexdigit, length-take, All, append_assoc,
}
use rust_ssh.DeviceId.{
  generated_prefix, generated_random_bytes, is_id_byte, is_valid, is_generated, is_random_part,
  generate,
}

pub as_bytes-append : (s t : Text) → as_bytes (s ++ t) ≡ as_bytes s ++ as_bytes t
unfolding as_bytes
as_bytes-append [] t = refl
as_bytes-append (c ∷ s) t =
    ap (λ x. encode_char c ++ x) (as_bytes-append s t)
    ∙ sym (append_assoc (encode_char c) (as_bytes s) (as_bytes t))

hexdigit-id_byte : (b : ℕ) → is_ascii_hexdigit b ≡ true → is_id_byte b ≡ true
unfolding is_ascii_hexdigit is_id_byte
hexdigit-id_byte b h = ground arith

all-hexdigit-id_byte : (bs : List ℕ) → all is_ascii_hexdigit bs ≡ true → all is_id_byte bs ≡ true
all-hexdigit-id_byte [] h = refl
all-hexdigit-id_byte (b ∷ bs) h = ground (arith, hexdigit-id_byte b, all-hexdigit-id_byte bs)

strip_prefix-eq_some : (p t r : Text) → strip_prefix p t ≡ some r → t ≡ p ++ r
unfolding strip_prefix
strip_prefix-eq_some [] t r h = cc
strip_prefix-eq_some (x ∷ p) [] r h = cc
strip_prefix-eq_some (x ∷ p) (c ∷ t) r h = ground (arith, strip_prefix-eq_some p t r)

-- The shape of a generated identifier.
is_generated_parts :
    (value : Text)
    → is_generated value ≡ true
    → (r : Text) × (value ≡ generated_prefix ++ r)
      × (len r ≡ 32)
      × (all is_ascii_hexdigit (as_bytes r) ≡ true)
unfolding is_generated
is_generated_parts value h = go (strip_prefix generated_prefix value) refl h
  where
    go :
        (o : Option Text)
        → strip_prefix generated_prefix value ≡ o
        → is_random_part o ≡ true
        → (r : Text) × (value ≡ generated_prefix ++ r)
          × (len r ≡ 32)
          × (all is_ascii_hexdigit (as_bytes r) ≡ true)
    go none e k = cc
    go (some r) e k =
        (r, strip_prefix-eq_some generated_prefix value r e, ground arith, ground arith)

prefix_len : (r : Text) → len (generated_prefix ++ r) ≡ 5 + len r
unfolding len
prefix_len r = omega arith

prefix_valid :
    (r : Text)
    → len r ≡ 32
    → all is_ascii_hexdigit (as_bytes r) ≡ true
    → is_valid (generated_prefix ++ r) ≡ true
unfolding is_valid as_bytes
prefix_valid r size digits = ground (arith, prefix_len r, all-hexdigit-id_byte (as_bytes r) digits)

-- Every identifier that counts as generated is valid.
pub is_generated-is_valid : (value : Text) → is_generated value ≡ true → is_valid value ≡ true
is_generated-is_valid value h =
    let (r, e, size, digits) = is_generated_parts value h in rw e (prefix_valid r size digits)

-- ASCII text is its own bytes.
ascii_bytes : (t : Text) → All (λ c. c < 128) t → as_bytes t ≡ t
unfolding as_bytes
ascii_bytes [] h = refl
ascii_bytes (c ∷ t) h = ground (arith, ascii_bytes t)

hexdigits_ascii : (t : Text) → all is_ascii_hexdigit t ≡ true → All (λ c. c < 128) t
unfolding is_ascii_hexdigit
hexdigits_ascii [] h = tt
hexdigits_ascii (c ∷ t) h = (ground arith, hexdigits_ascii t (ground arith))

-- What `hex::encode` documents: two lowercase hexadecimal digits for each byte.
pub record IsHex (hex_encode : List ℕ → Text) : Type 0 where
  pub size : (bs : List ℕ) → length (hex_encode bs) ≡ length bs * 2
  pub digits : (bs : List ℕ) → all is_ascii_hexdigit (hex_encode bs) ≡ true

-- `generate` succeeds for a key of at least 16 bytes, and what it makes counts as generated.
pub generate-is_generated :
    (hex_encode : List ℕ → Text)
    → IsHex hex_encode
    → (private : List ℕ) → generated_random_bytes ≤ length private
    → (id : Text) × (generate hex_encode (some private) ≡ some id) × (is_generated id ≡ true)
generate-is_generated hex_encode hex private h = (
  generated_prefix ++ random,
  (unfold generate in ground arith),
  (unfold is_generated in
      ap is_random_part (strip_prefix-prefix generated_prefix random)
      ∙ ground (arith, size, digits, hex.digits (take generated_random_bytes private))),
)
  where
    random : Text
    random = hex_encode (take generated_random_bytes private)

    bytes : as_bytes random ≡ random
    bytes =
        ascii_bytes random
          (hexdigits_ascii random (hex.digits (take generated_random_bytes private)))

    size : len random ≡ 32
    size =
        unfold len in
        ap length bytes
        ∙ omega (
          arith,
          hex.size (take generated_random_bytes private),
          length-take generated_random_bytes private h,
        )

    digits : all is_ascii_hexdigit (as_bytes random) ≡ true
    digits = ap (all is_ascii_hexdigit) bytes ∙ hex.digits (take generated_random_bytes private)

-- ===== src/Prelude/Utf8.antt =====
-- UTF-8 loses nothing: texts with the same bytes are the same.
use Prim.Native.Nat.{ℕ, ◌<◌}
use mathlib.Core.Path.{◌≡◌, refl, sym}
use mathlib.Core.List.{List, [], ◌∷◌, ◌++◌}
use native.Mathlib.Omega.{arith}
use rust_ssh.Prelude.Lists.{All}
use rust_ssh.Prelude.Strings.{Text, encode_char, as_bytes}

-- `char`: below 0x110000.
abbrev pub IsText : Text → Type 0
IsText t = All (λ c. c < 1114112) t

encode_char-cancel :
    (c d : ℕ) (xs ys : List ℕ)
    → c < 1114112
    → d < 1114112
    → encode_char c ++ xs ≡ encode_char d ++ ys
    → (c ≡ d) × (xs ≡ ys)
unfolding encode_char
encode_char-cancel c d xs ys hc hd e = ground arith

encode_char-ne-nil : (c : ℕ) (xs : List ℕ) → ¬ (encode_char c ++ xs ≡ [])
unfolding encode_char
encode_char-ne-nil c xs e = ground arith

pub as_bytes_injective : (s t : Text) → IsText s → IsText t → as_bytes s ≡ as_bytes t → s ≡ t
unfolding as_bytes
as_bytes_injective [] [] hs ht e = refl
as_bytes_injective [] (d ∷ t) hs ht e = absurd (encode_char-ne-nil d (as_bytes t) (sym e))
as_bytes_injective (c ∷ s) [] hs ht e = absurd (encode_char-ne-nil c (as_bytes s) e)
as_bytes_injective (c ∷ s) (d ∷ t) (hc, hs) (hd, ht) e =
    let (same, rest) = encode_char-cancel c d (as_bytes s) (as_bytes t) hc hd e in
    ground (arith, as_bytes_injective s t hs ht rest)

-- ===== src/DeviceId/Tests.antt =====
-- The theorems on identifiers at concrete ones.
use rust_ssh.Prelude.{
  ℕ, ◌*◌, ◌≡◌, refl, true, List, [], ◌∷◌, some, length, all, replicate, Text, codes, arith,
  is_ascii_hexdigit,
}
use rust_ssh.DeviceId.{is_generated, generate}
use rust_ssh.DeviceId.Laws.{IsHex, generate-is_generated}

abbrev an_id : Text
an_id = codes "rssh-0123456789abcdef0123456789abcdef"

-- Two digits for each byte, all of them zeros.
abbrev zeros : List ℕ → Text
zeros [] = []
zeros (b ∷ bs) = 48 ∷ 48 ∷ zeros bs

length-zeros : (bs : List ℕ) → length (zeros bs) ≡ length bs * 2
length-zeros [] = refl
length-zeros (b ∷ bs) = omega (arith, length-zeros bs)

zeros_digits : (bs : List ℕ) → all is_ascii_hexdigit (zeros bs) ≡ true
unfolding is_ascii_hexdigit
zeros_digits [] = refl
zeros_digits (b ∷ bs) = zeros_digits bs

zeros-IsHex : IsHex zeros
zeros-IsHex = record { size = length-zeros; digits = zeros_digits }

generate-is_generated_example :
    (id : Text) × (generate zeros (some (replicate 32 7)) ≡ some id) × (is_generated id ≡ true)
generate-is_generated_example =
    generate-is_generated zeros zeros-IsHex (replicate 32 7) (omega arith)

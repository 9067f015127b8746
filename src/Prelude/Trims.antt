-- ===== src/Prelude/Trims.antt =====
-- What `trim` and its halves leave.
use Prim.Native.Nat.{ℕ}
use mathlib.Core.Path.{◌≡◌, refl, ap, ◌∙◌, sym, subst}
use mathlib.Core.Logic.{inl, inr}
use mathlib.Core.Bool.{true, false}
use mathlib.Core.List.{[], ◌∷◌, ◌++◌, reverse, reverse-append, reverse-reverse, append-nil}
use rust_ssh.Prelude.Tests.{Bool-cases}
use rust_ssh.Prelude.Lists.{All, List-cases}
use rust_ssh.Prelude.Strings.{Text, trim_start, trim_end, trim, is_whitespace}

abbrev pub IsBlank : Text → Type 0
IsBlank t = All (λ c. is_whitespace c ≡ true) t

pub trim_start-append : (t : Text) → (blanks : Text) × IsBlank blanks × (t ≡ blanks ++ trim_start t)
unfolding trim_start
trim_start-append [] = ([], tt, refl)
trim_start-append (c ∷ t) = elim (Bool-cases (is_whitespace c)) [
  | inl e ↦ let (blanks, h, q) = trim_start-append t in rw e (c ∷ blanks, (e, h), ap (λ x. c ∷ x) q)
  | inr e ↦ rw e ([], tt, refl)
]

pub append-All {ℓ} : (P : ℕ → Type ℓ) (s t : Text) → All P s → All P t → All P (s ++ t)
append-All P [] t h k = k
append-All P (c ∷ s) t (e, h) k = (e, append-All P s t h k)

reverse-IsBlank : (t : Text) → IsBlank t → IsBlank (reverse t)
reverse-IsBlank [] h = tt
reverse-IsBlank (c ∷ t) (e, h) =
    rw (reverse-append (c ∷ []) t) (append-All _ (reverse t) (c ∷ []) (reverse-IsBlank t h) (e, tt))

pub trim_end-append : (t : Text) → (blanks : Text) × IsBlank blanks × (t ≡ trim_end t ++ blanks)
unfolding trim_end
trim_end-append t =
    let (blanks, h, q) = trim_start-append (reverse t) in
    (
      reverse blanks,
      reverse-IsBlank blanks h,
      sym (reverse-reverse t) ∙ ap reverse q ∙ reverse-append blanks (trim_start (reverse t)),
    )

-- What is left starts with no white space.
trim_start-cons : (t rest : Text) (c : ℕ) → trim_start t ≡ c ∷ rest → is_whitespace c ≡ false
unfolding trim_start
trim_start-cons [] rest c h = cc
trim_start-cons (d ∷ t) rest c h = elim (Bool-cases (is_whitespace d)) [
  | inl e ↦ trim_start-cons t rest c (sym (rw e refl) ∙ h)
  | inr e ↦
      let same : ◌≡◌ {A = Text} (d ∷ t) (c ∷ rest) = sym (rw e refl) ∙ h in
      let head : d ≡ c = cc same in ap is_whitespace (sym head) ∙ e
]

trim_start_twice : (t : Text) → trim_start (trim_start t) ≡ trim_start t
unfolding trim_start
trim_start_twice [] = refl
trim_start_twice (c ∷ t) = elim (Bool-cases (is_whitespace c)) [
  | inl e ↦ rw e (trim_start_twice t)
  | inr e ↦ rw e (rw e refl)
]

trim_end_twice : (t : Text) → trim_end (trim_end t) ≡ trim_end t
unfolding trim_end
trim_end_twice t =
    ap (λ x. reverse (trim_start x)) (reverse-reverse (trim_start (reverse t)))
    ∙ ap reverse (trim_start_twice (reverse t))

trim_start-part : (s t : Text) → trim_start (s ++ t) ≡ s ++ t → trim_start s ≡ s
unfolding trim_start
trim_start-part [] t h = refl
trim_start-part (c ∷ s) t h = rw (trim_start-cons (c ∷ s ++ t) (s ++ t) c h) refl

trim_start-trim_end : (t : Text) → trim_start t ≡ t → trim_start (trim_end t) ≡ trim_end t
trim_start-trim_end t h =
    let (blanks, _, q) = trim_end-append t in
    trim_start-part (trim_end t) blanks (ap trim_start (sym q) ∙ h ∙ q)

pub trim_twice : (t : Text) → trim (trim t) ≡ trim t
unfolding trim
trim_twice t =
    ap trim_end (trim_start-trim_end (trim_start t) (trim_start_twice t))
    ∙ trim_end_twice (trim_start t)

blank-trim_start : (blanks t : Text) → IsBlank blanks → trim_start (blanks ++ t) ≡ trim_start t
unfolding trim_start
blank-trim_start [] t h = refl
blank-trim_start (c ∷ blanks) t (e, h) = rw e (blank-trim_start blanks t h)

trim_end-blank : (t blanks : Text) → IsBlank blanks → trim_end (t ++ blanks) ≡ trim_end t
unfolding trim_end
trim_end-blank t blanks h =
    ap (λ x. reverse (trim_start x)) (reverse-append t blanks)
    ∙ ap reverse (blank-trim_start (reverse blanks) (reverse t) (reverse-IsBlank blanks h))

-- White space added at the end of a trimmed text is trimmed again.
pub trim-append_blank : (t blanks : Text) → IsBlank blanks → trim (trim t ++ blanks) ≡ trim t
unfolding trim trim_start
trim-append_blank t blanks h = elim (List-cases (trim t)) [
  | inl e ↦
      rw e (
        ap trim_end (ap trim_start (sym (append-nil blanks)) ∙ blank-trim_start blanks [] h) ∙ refl)
  | inr (c, rest, e) ↦
      let tight : trim_start (c ∷ rest) ≡ c ∷ rest =
        subst (λ x. trim_start x ≡ x) e (trim_start-trim_end (trim_start t) (trim_start_twice t)) in
      let solid : is_whitespace c ≡ false = trim_start-cons (c ∷ rest) rest c tight in
      let kept : trim_start (trim t ++ blanks) ≡ trim t ++ blanks = rw e (rw solid refl) in
      ap trim_end kept ∙ trim_end-blank (trim t) blanks h ∙ trim_end_twice (trim_start t)
]

All-append {ℓ} : (P : ℕ → Type ℓ) (s t : Text) → All P (s ++ t) → All P s × All P t
All-append P [] t h = (tt, h)
All-append P (c ∷ s) t (e, h) = let (l, r) = All-append P s t h in ((e, l), r)

-- What holds of each character of a text holds of each that is left.
pub trim-All {ℓ} : (P : ℕ → Type ℓ) (t : Text) → All P t → All P (trim t)
unfolding trim
trim-All P t h =
    let (front, _, q) = trim_start-append t in
    let (back, _, r) = trim_end-append (trim_start t) in
    (All-append P (trim t) back
      (subst (All P) r (All-append P front (trim_start t) (subst (All P) q h)).1)).0

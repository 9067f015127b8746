-- ===== src/Prelude/Search.antt =====
-- Searching and cutting texts, as the methods of `str` of these names do. A piece of a text that the
-- source names by byte offsets is the piece itself.
use Prim.Native.Nat.{ℕ, zero, suc, ◌-◌}
use mathlib.Core.Path.{◌≡◌, refl, ap}
use mathlib.Core.Logic.{inl, inr}
use mathlib.Core.Bool.{Bool, true, false, ◌&&◌}
use mathlib.Core.Option.{Option, none, some}
use mathlib.Core.List.{List, [], ◌∷◌, ◌++◌, map, reverse, reverse-append, reverse-reverse}
use native.Mathlib.Omega.{arith}
use rust_ssh.Prelude.Tests.{leb, ◌==◌, if◌then◌else◌, Bool-cases, Option-cases}
use rust_ssh.Prelude.Lists.{length, is_empty}
use rust_ssh.Prelude.Strings.{Text, strip_prefix}

abbrev pub line_feed : ℕ
line_feed = 10

abbrev pub carriage_return : ℕ
carriage_return = 13

-- `char::is_control`: the category Cc.
unfoldable pub is_control : ℕ → Bool
is_control c = (if leb c 0x1f then true else (leb 0x7f c && leb c 0x9f))

unfoldable pub starts_with : Text → Text → Bool
unfolding strip_prefix
starts_with p t = elim (strip_prefix p t) [ none ↦ false | some rest ↦ true ]

unfoldable pub strip_suffix : Text → Text → Option Text
unfolding strip_prefix
strip_suffix p t = elim (strip_prefix (reverse p) (reverse t)) [
  | none ↦ none
  | some rest ↦ some (reverse rest)
]

abbrev pub before_char : ℕ → Option (Text × Text) → Option (Text × Text)
before_char c none = none
before_char c (some (before, after)) = some (c ∷ before, after)

abbrev pub found_or : Option Text → Option (Text × Text) → Option (Text × Text)
found_or none later = later
found_or (some rest) later = some ([], rest)

-- `find`: what stands before the first occurrence of the pattern, and what follows it.
unfoldable pub find : Text → Text → Option (Text × Text)
unfolding strip_prefix
find p [] = found_or (strip_prefix p []) none
find p (c ∷ t) = found_or (strip_prefix p (c ∷ t)) (before_char c (find p t))

unfoldable pub contains : Text → Text → Bool
unfolding find
contains p t = elim (find p t) [ none ↦ false | some parts ↦ true ]

-- `replace`, by the characters still to be skipped of the last occurrence. An empty pattern occurs
-- before each character and at the end.
unfoldable pub replace_from : Text → Text → ℕ → Text → Text
unfolding starts_with
replace_from p q k [] = if is_empty p then q else []
replace_from p q (suc k) (c ∷ t) = replace_from p q k t
replace_from p q zero (c ∷ t) =
    let kept = c ∷ replace_from p q zero t in
    let skipped = replace_from p q (length p - 1) t in
    if starts_with p (c ∷ t) then q ++ (if is_empty p then kept else skipped) else kept

unfoldable pub replace : Text → Text → Text → Text
unfolding replace_from
replace p q t = replace_from p q zero t

unfoldable pub join : Text → List Text → Text
join separator [] = []
join separator (t ∷ []) = t
join separator (t ∷ u ∷ ts) = t ++ separator ++ join separator (u ∷ ts)

abbrev pub to_first : ℕ → List Text → List Text
to_first c [] = (c ∷ []) ∷ []
to_first c (t ∷ ts) = (c ∷ t) ∷ ts

unfoldable pub raw_lines : Text → List Text
raw_lines [] = []
raw_lines (c ∷ t) = let rest = raw_lines t in if c == line_feed then [] ∷ rest else to_first c rest

abbrev pub without_return : Text → Text
unfolding strip_suffix
without_return t = elim (strip_suffix (carriage_return ∷ []) t) [ none ↦ t | some rest ↦ rest ]

-- `lines`: a line ends with `\n` or `\r\n`, the last one may end with the text.
unfoldable pub lines : Text → List Text
unfolding raw_lines without_return
lines t = map without_return (raw_lines t)

pub strip_prefix-append : (p t rest : Text) → strip_prefix p t ≡ some rest → t ≡ p ++ rest
unfolding strip_prefix
strip_prefix-append [] t rest h = cc
strip_prefix-append (c ∷ p) [] rest h = cc
strip_prefix-append (c ∷ p) (d ∷ t) rest h = elim (Bool-cases (c == d)) [
  | inl e ↦ ground (arith, strip_prefix-append p t rest)
  | inr e ↦ ground arith
]

-- Where something is found, the pattern stands between the parts.
pub find-append :
    (p t before after : Text) → find p t ≡ some (before, after) → t ≡ before ++ p ++ after
unfolding find
find-append p [] before after h = elim (Option-cases (strip_prefix p [])) [
  | inl e ↦ ground arith
  | inr (rest, e) ↦ ground (arith, strip_prefix-append p [] rest e)
]
find-append p (c ∷ t) before after h = elim (Option-cases (strip_prefix p (c ∷ t))) [
  | inl e ↦ elim (Option-cases (find p t)) [
    | inl f ↦ ground arith
    | inr ((b, a), f) ↦ ground (arith, find-append p t b a f)
  ]
  | inr (rest, e) ↦ ground (arith, strip_prefix-append p (c ∷ t) rest e)
]

pub strip_prefix-prefix : (p r : Text) → strip_prefix p (p ++ r) ≡ some r
unfolding strip_prefix
strip_prefix-prefix [] r = refl
strip_prefix-prefix (x ∷ p) r = ground (arith, strip_prefix-prefix p r)

pub strip_suffix-suffix : (p t : Text) → strip_suffix p (t ++ p) ≡ some t
unfolding strip_suffix
strip_suffix-suffix p t =
    rw (strip_suffix, reverse-append t p)
      (rw (strip_prefix-prefix (reverse p) (reverse t)) (ap some (reverse-reverse t)))

-- ===== src/Prelude/Maps.antt =====
-- A `HashMap` keyed by text, as an association list.
use Prim.Native.Nat.{◌≤◌}
use mathlib.Core.Path.{◌≡◌, refl, ◌∙◌, sym}
use mathlib.Core.Bool.{false, true}
use mathlib.Core.Option.{Option, none, some}
use mathlib.Core.List.{List, [], ◌∷◌}
use mathlib.Core.Logic.{inl, inr}
use native.Mathlib.Omega.{arith}
use rust_ssh.Prelude.Lists.{length, list_eq, list_eq_iff, list_eq_refl}
use rust_ssh.Prelude.Tests.{if◌then◌else◌, Bool-cases}
use rust_ssh.Prelude.Strings.{Text}

module _ {ℓ} {V : Type ℓ} where
  -- The first pair of a key counts.
  unfoldable pub lookup : Text → List (Text × V) → Option V
  lookup k [] = none
  lookup k ((j, v) ∷ m) = let rest = lookup k m in if list_eq j k then some v else rest

  unfoldable pub remove : Text → List (Text × V) → List (Text × V)
  remove k [] = []
  remove k ((j, v) ∷ m) = let rest = remove k m in if list_eq j k then rest else (j, v) ∷ rest

  unfoldable pub insert : Text → V → List (Text × V) → List (Text × V)
  unfolding remove
  insert k v m = (k, v) ∷ remove k m

  pub lookup-remove_same : (k : Text) (m : List (Text × V)) → lookup k (remove k m) ≡ none
  unfolding lookup remove
  lookup-remove_same k [] = refl
  lookup-remove_same k ((j, v) ∷ m) = ground (arith, lookup-remove_same k m)

  pub lookup-remove_other :
      (k j : Text) (m : List (Text × V)) → list_eq k j ≡ false → lookup j (remove k m) ≡ lookup j m
  unfolding lookup remove
  lookup-remove_other k j [] h = refl
  lookup-remove_other k j ((i, v) ∷ m) h =
      ground (arith, lookup-remove_other k j m h, list_eq_iff i k, list_eq_iff i j, list_eq_iff k j)

  pub lookup-insert_same :
      (k : Text) (v : V) (m : List (Text × V)) → lookup k (insert k v m) ≡ some v
  unfolding lookup insert
  lookup-insert_same k v m = rw list_eq_refl

  pub lookup-insert_other :
      (k j : Text) (v : V) (m : List (Text × V))
      → list_eq k j ≡ false
      → lookup j (insert k v m) ≡ lookup j m
  unfolding lookup insert
  lookup-insert_other k j v m h = rw h (lookup-remove_other k j m h)

  pub length-remove : (k : Text) (m : List (Text × V)) → length (remove k m) ≤ length m
  unfolding remove
  length-remove k [] = omega arith
  length-remove k ((j, v) ∷ m) = ground (arith, length-remove k m)

  -- No key stands twice.
  abbrev pub AreKeysDistinct : List (Text × V) → Type ℓ
  AreKeysDistinct [] = Unit
  AreKeysDistinct ((k, v) ∷ m) = (lookup k m ≡ none) × AreKeysDistinct m

  pub remove-AreKeysDistinct :
      (k : Text) (m : List (Text × V)) → AreKeysDistinct m → AreKeysDistinct (remove k m)
  unfolding remove
  remove-AreKeysDistinct k [] h = tt
  remove-AreKeysDistinct k ((j, v) ∷ m) (new, h) = elim (Bool-cases (list_eq j k)) [
    | inl same ↦ rw same (remove-AreKeysDistinct k m h)
    | inr other ↦
        rw other (lookup-remove_other k j m (flip other) ∙ new, remove-AreKeysDistinct k m h)
  ]
    where
      flip : list_eq j k ≡ false → list_eq k j ≡ false
      flip e = ground (arith, list_eq_iff j k, list_eq_iff k j)

  pub lookup-none_cons :
      (k j : Text) (v : V) (m : List (Text × V))
      → lookup k ((j, v) ∷ m) ≡ none
      → (list_eq j k ≡ false) × (lookup k m ≡ none)
  unfolding lookup
  lookup-none_cons k j v m h = ground arith

  pub lookup_other :
      (k j : Text) (v : V) (m : List (Text × V))
      → list_eq j k ≡ false
      → lookup k ((j, v) ∷ m) ≡ lookup k m
  unfolding lookup
  lookup_other k j v m h = rw h refl

pub list_eq_flip : (s t : Text) → list_eq s t ≡ false → list_eq t s ≡ false
list_eq_flip s t h = ground (arith, list_eq_iff s t, list_eq_iff t s)

pub list_eq_apart :
    (s t u : Text) → list_eq s t ≡ false → list_eq s u ≡ true → list_eq t u ≡ true → ⊥
list_eq_apart s t u h a b =
    let same : s ≡ t = (list_eq_iff s u).0 a ∙ sym ((list_eq_iff t u).0 b) in
    let k = (list_eq_iff s t).1 same in false_true (sym h ∙ k)
  where
    false_true : false ≡ true → ⊥
    false_true e = cc

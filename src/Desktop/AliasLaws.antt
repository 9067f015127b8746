-- ===== src/Desktop/AliasLaws.antt =====
-- src/desktop.rs: the aliases of the devices stay usable, and apart from each other.
use mathlib.Core.Option.{some-injective}
use rust_ssh.Prelude.{
  ◌⊎◌, ◌≡◌, refl, ap, ◌∙◌, sym, subst, inl, inr, Bool, true, false, not, ◌||◌, List, [], ◌∷◌,
  Option, none, some, if◌then◌else◌, Text, arith, Bool-cases, any, list_eq, is_empty, trim, lookup,
  insert, remove, lookup-remove_same, lookup-remove_other, list_eq_iff, list_eq_refl,
}
use rust_ssh.Desktop.Checks.{valid_host_alias}
use rust_ssh.Desktop.ConnectApp.{
  ConnectApp, host_alias_for, is_taken, with_aliases, after_save, save_alias, save_host_alias,
}

abbrev pub has_alias : Text → List (Text × Text) → Bool
has_alias alias aliases = any (λ entry. list_eq entry.1 alias) aliases

-- Each alias is one that `ssh` takes as a Host, and each device and each alias stands once.
abbrev pub AreUsable : List (Text × Text) → Type 0
AreUsable [] = Unit {0}
AreUsable ((id, alias) ∷ aliases) =
    (valid_host_alias alias ≡ true)
    × (lookup id aliases ≡ none)
    × (has_alias alias aliases ≡ false)
    × AreUsable aliases

has_alias-remove :
    (alias k : Text) (aliases : List (Text × Text))
    → has_alias alias aliases ≡ false
    → has_alias alias (remove k aliases) ≡ false
unfolding remove
has_alias-remove alias k [] h = refl
has_alias-remove alias k ((j, a) ∷ aliases) h =
    let ih = has_alias-remove alias k aliases in ground arith

lookup-remove :
    (id k : Text) (aliases : List (Text × Text))
    → lookup id aliases ≡ none
    → lookup id (remove k aliases) ≡ none
lookup-remove id k aliases h = elim (Bool-cases (list_eq k id)) [
  | inl e ↦
      let same : k ≡ id = (list_eq_iff k id).0 e in
      subst (λ x. lookup x (remove k aliases) ≡ none) same (lookup-remove_same k aliases)
  | inr e ↦ lookup-remove_other k id aliases e ∙ h
]

remove-AreUsable :
    (k : Text) (aliases : List (Text × Text)) → AreUsable aliases → AreUsable (remove k aliases)
unfolding remove
remove-AreUsable k [] h = tt
remove-AreUsable k ((j, a) ∷ aliases) (valid, new, apart, h) = elim (Bool-cases (list_eq j k)) [
  | inl e ↦ rw e (remove-AreUsable k aliases h)
  | inr e ↦ rw e (
    valid,
    lookup-remove j k aliases new,
    has_alias-remove a k aliases apart,
    remove-AreUsable k aliases h,
  )
]

-- What no other device has, nobody has after the device's own entry is removed.
is_taken-remove :
    (k alias : Text) (aliases : List (Text × Text))
    → is_taken k alias aliases ≡ false
    → has_alias alias (remove k aliases) ≡ false
unfolding remove
is_taken-remove k alias [] h = refl
is_taken-remove k alias ((j, a) ∷ aliases) h = elim (Bool-cases (list_eq j k)) [
  | inl e ↦ rw e (is_taken-remove k alias aliases (sym (rw e refl) ∙ h))
  | inr e ↦ rw e (let ih = is_taken-remove k alias aliases in ground arith)
]

insert-AreUsable :
    (k alias : Text) (aliases : List (Text × Text))
    → valid_host_alias alias ≡ true
    → is_taken k alias aliases ≡ false
    → AreUsable aliases
    → AreUsable (insert k alias aliases)
unfolding insert
insert-AreUsable k alias aliases valid free h = (
  valid,
  lookup-remove_same k aliases,
  is_taken-remove k alias aliases free,
  remove-AreUsable k aliases h,
)

abbrev pub changed : List (Text × Text) → Text → ConnectApp → ConnectApp
changed aliases status app = record (with_aliases aliases app) { status = status }

-- What saving an alias changes: the status, and the aliases, which stay usable.
unfoldable pub Changes : ConnectApp → ConnectApp → Type 0
Changes app app' =
    (aliases : List (Text × Text)) × (status : Text) × (app' ≡ changed aliases status app)
    × (AreUsable app.settings.host_aliases → AreUsable aliases)

if-Changes :
    (app : ConnectApp) (b : Bool) (x y : ConnectApp)
    → (b ≡ true → Changes app x)
    → (b ≡ false → Changes app y)
    → Changes app (if b then x else y)
if-Changes app true x y v w = v refl
if-Changes app false x y v w = w refl

after_save-Changes :
    (saved : Option Text) (app : ConnectApp) (aliases : List (Text × Text)) (status : Text)
    → (AreUsable app.settings.host_aliases → AreUsable aliases)
    → Changes app (after_save saved (changed aliases status app))
unfolding Changes
after_save-Changes none app aliases status h = (aliases, status, refl, h)
after_save-Changes (some e) app aliases status h =
    (aliases, (after_save (some e) (changed aliases status app)).status, refl, h)

status-Changes : (app : ConnectApp) (status : Text) → Changes app (record app { status = status })
unfolding Changes
status-Changes app status = (app.settings.host_aliases, status, refl, λ h. h)

not-false : (b : Bool) → not b ≡ false → b ≡ true
not-false b h = ground arith

pub save_host_alias-Changes :
    (saved : Option Text) (device_id value : Text) (app : ConnectApp)
    → Changes app (save_host_alias saved device_id value app)
unfolding save_host_alias save_alias
save_host_alias-Changes saved device_id value app =
    if-Changes app (is_empty alias || list_eq alias device_id) _ _
      (λ own.
        after_save-Changes saved app _ _ (remove-AreUsable device_id app.settings.host_aliases))
      (λ other.
        if-Changes app (not (valid_host_alias alias)) _ _ (λ bad. status-Changes app _)
          (λ valid.
            if-Changes app (is_taken device_id alias app.settings.host_aliases) _ _
              (λ taken. status-Changes app _)
              (λ free. after_save-Changes saved app _ _ (
                insert-AreUsable device_id alias app.settings.host_aliases
                  (not-false (valid_host_alias alias) valid) free))))
  where
    alias : Text
    alias = trim value

-- Saving an alias keeps the aliases usable, whatever is entered and whether or not the settings can be
-- written: each is one that is valid as a Host, and each device and each alias stands once.
pub save_host_alias-AreUsable :
    (saved : Option Text) (device_id value : Text) (app : ConnectApp)
    → AreUsable app.settings.host_aliases
    → AreUsable (save_host_alias saved device_id value app).settings.host_aliases
unfolding Changes
save_host_alias-AreUsable saved device_id value app h =
    let (aliases, status, same, keeps) = save_host_alias-Changes saved device_id value app in
    rw same (keeps h)

lookup-has_alias :
    (id alias : Text) (aliases : List (Text × Text))
    → lookup id aliases ≡ some alias
    → has_alias alias aliases ≡ true
unfolding lookup
lookup-has_alias id alias [] h = ground arith
lookup-has_alias id alias ((j, a) ∷ aliases) h =
    ground (arith, lookup-has_alias id alias aliases, list_eq_refl alias)

lookup-valid_host_alias :
    (id alias : Text) (aliases : List (Text × Text))
    → AreUsable aliases
    → lookup id aliases ≡ some alias
    → valid_host_alias alias ≡ true
unfolding lookup
lookup-valid_host_alias id alias [] h e = ground arith
lookup-valid_host_alias id alias ((j, a) ∷ aliases) (valid, new, apart, h) e =
    elim (Bool-cases (list_eq j id)) [
      | inl same ↦
          subst (λ x. valid_host_alias x ≡ true) (some-injective a alias (sym (rw same refl) ∙ e))
            valid
      | inr other ↦ lookup-valid_host_alias id alias aliases h (sym (rw other refl) ∙ e)
    ]

alias_owner :
    (i j alias : Text) (aliases : List (Text × Text))
    → AreUsable aliases
    → lookup i aliases ≡ some alias
    → lookup j aliases ≡ some alias
    → i ≡ j
unfolding lookup
alias_owner i j alias [] h ei ej = absurd (none_some ei)
  where
    none_some : {t : Text} → none ≡ some t → ⊥
    none_some k = cc
alias_owner i j alias ((k, a) ∷ aliases) (valid, new, apart, h) ei ej =
    owner (Bool-cases (list_eq k i)) (Bool-cases (list_eq k j))
      λ p q. alias_owner i j alias aliases h p q
  where
    twice :
        (l m : Text)
        → list_eq k l ≡ true
        → list_eq k m ≡ false
        → lookup l ((k, a) ∷ aliases) ≡ some alias
        → lookup m ((k, a) ∷ aliases) ≡ some alias
        → ⊥
    twice l m hit miss el em =
        let same = some-injective a alias (sym (rw hit refl) ∙ el) in
        let again = lookup-has_alias m alias aliases (sym (rw miss refl) ∙ em) in
        true_false (sym again ∙ ap (λ x. has_alias x aliases) (sym same) ∙ apart)
      where
        true_false : true ≡ false → ⊥
        true_false z = cc

    owner :
        (list_eq k i ≡ true) ⊎ (list_eq k i ≡ false)
        → (list_eq k j ≡ true) ⊎ (list_eq k j ≡ false)
        → (lookup i aliases ≡ some alias → lookup j aliases ≡ some alias → i ≡ j)
        → i ≡ j
    owner (inl p) (inl q) ih = sym ((list_eq_iff k i).0 p) ∙ (list_eq_iff k j).0 q
    owner (inl p) (inr q) ih = absurd (twice i j p q ei ej)
    owner (inr p) (inl q) ih = absurd (twice j i q p ej ei)
    owner (inr p) (inr q) ih = ih (sym (rw p refl) ∙ ei) (sym (rw q refl) ∙ ej)

host_alias_for-alias :
    (app : ConnectApp) (id alias : Text)
    → AreUsable app.settings.host_aliases
    → lookup id app.settings.host_aliases ≡ some alias
    → host_alias_for app id ≡ alias
unfolding host_alias_for
host_alias_for-alias app id alias h e =
    rw (e, lookup-valid_host_alias id alias app.settings.host_aliases h e) refl

-- Among usable aliases, two devices that have one are reached by different Hosts.
pub host_alias_for_apart :
    (app : ConnectApp) (i j a b : Text)
    → AreUsable app.settings.host_aliases
    → lookup i app.settings.host_aliases ≡ some a
    → lookup j app.settings.host_aliases ≡ some b
    → ¬ (i ≡ j)
    → ¬ (host_alias_for app i ≡ host_alias_for app j)
host_alias_for_apart app i j a b h ei ej apart e =
    let same : b ≡ a =
      sym (host_alias_for-alias app j b h ej) ∙ sym e ∙ host_alias_for-alias app i a h ei in
    apart (alias_owner i j a app.settings.host_aliases h ei (ej ∙ ap some same))

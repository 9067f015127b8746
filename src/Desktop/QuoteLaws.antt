-- ===== src/Desktop/QuoteLaws.antt =====
-- What is quoted by src/desktop.rs is read back as it was, by readers written from the rules of the
-- shell and of AppleScript.
use rust_ssh.Prelude.{
  ◌||◌, ◌∙◌, sym, ℕ, Bool, true, false, [], ◌∷◌, ◌++◌, ◌≡◌, refl, ap, sym, inl, inr, append_assoc,
  append-nil, subst, ==_iff, ◌==◌, if◌then◌else◌, Option, none, some, Text, codes, strip_prefix,
  starts_with, replace_from, replace, Bool-cases, arith, drop,
}
use rust_ssh.Desktop.Quote.{
  quote, backslash, is_shell_special, is_script_special, escape, shell_double_quote,
  apple_script_string, terminal_script,
}

abbrev with_char : ℕ → Option (Text × Text) → Option (Text × Text)
with_char c none = none
with_char c (some (value, rest)) = some (c ∷ value, rest)

-- The characters that the readers treat specially, told apart from the code.
abbrev pub escapes_in_shell : ℕ → Bool
escapes_in_shell c = c == b'"' || c == b'\\' || c == b'$' || c == b'`'

abbrev pub escapes_in_script : ℕ → Bool
escapes_in_script c = c == b'"' || c == b'\\'

-- A POSIX shell between double quotes, after a backslash or not: the value and what follows the
-- closing quote. A dollar or a backquote would be expanded, which is `none`; a backslash is itself
-- unless it stands before something special.
unfoldable pub read_shell : Bool → Text → Option (Text × Text)
read_shell after_backslash [] = none
read_shell true (c ∷ t) =
    let rest = with_char c (read_shell false t) in
    if escapes_in_shell c then rest else with_char backslash rest
read_shell false (c ∷ t) =
    let escaped = read_shell true t in
    let plain = with_char c (read_shell false t) in
    if c == quote
    then some ([], t)
    else (if c == backslash then escaped else (if escapes_in_shell c then none else plain))

-- A literal of AppleScript: a backslash escapes a quote or a backslash.
unfoldable pub read_script : Bool → Text → Option (Text × Text)
read_script after_backslash [] = none
read_script true (c ∷ t) =
    let rest = with_char c (read_script false t) in if escapes_in_script c then rest else none
read_script false (c ∷ t) =
    let escaped = read_script true t in
    let plain = with_char c (read_script false t) in
    if c == quote then some ([], t) else (if c == backslash then escaped else plain)

-- A word of Windows, after a quote inside or not: two quotes are one, a single one closes.
unfoldable pub read_windows : Bool → Text → Option (Text × Text)
read_windows false [] = none
read_windows true [] = some ([], [])
read_windows true (c ∷ t) =
    let rest = with_char c (read_windows false t) in if c == quote then rest else some ([], c ∷ t)
read_windows false (c ∷ t) =
    let quoted = read_windows true t in
    let plain = with_char c (read_windows false t) in if c == quote then quoted else plain

starts_quote : (c : ℕ) (t : Text) → starts_with (quote ∷ []) (c ∷ t) ≡ (c == quote)
unfolding starts_with strip_prefix
starts_quote c t = ground arith

shell_same : (c : ℕ) → is_shell_special c ≡ escapes_in_shell c
unfolding is_shell_special
shell_same c = refl

script_same : (c : ℕ) → is_script_special c ≡ escapes_in_script c
unfolding is_script_special
script_same c = refl

module _ (rest : Text) where
  read_shell-escape :
      (value : Text) → read_shell false (escape is_shell_special value ++ rest) ≡ some (value, rest)
  unfolding read_shell escape is_shell_special
  read_shell-escape [] = refl
  read_shell-escape (c ∷ t) = elim (Bool-cases (is_shell_special c)) [
    | inl special ↦ rw special (rw (sym (shell_same c) ∙ special) (rw (read_shell-escape t) refl))
    | inr plain ↦ rw plain (let ih = read_shell-escape t in ground arith)
  ]

  read_script-escape :
      (value : Text)
      → read_script false (escape is_script_special value ++ rest) ≡ some (value, rest)
  unfolding read_script escape is_script_special
  read_script-escape [] = refl
  read_script-escape (c ∷ t) = elim (Bool-cases (is_script_special c)) [
    | inl special ↦ rw special (rw (sym (script_same c) ∙ special) (rw (read_script-escape t) refl))
    | inr plain ↦ rw plain (let ih = read_script-escape t in ground arith)
  ]

  read_windows-replace :
      (value : Text)
      → ¬ (starts_with (quote ∷ []) rest ≡ true)
      → read_windows false (replace (quote ∷ []) (quote ∷ quote ∷ []) value ++ quote ∷ rest)
        ≡ some (value, rest)
  unfolding read_windows replace replace_from starts_with strip_prefix
  read_windows-replace [] h = closes rest h
    where
      closes :
          (u : Text) → ¬ (starts_with (quote ∷ []) u ≡ true) → read_windows true u ≡ some ([], u)
      closes [] h = refl
      closes (d ∷ u) h = ground arith
  read_windows-replace (c ∷ t) h = elim (Bool-cases (c == quote)) [
    | inl same ↦
        rw (starts_quote c t, same)
          (rw (read_windows-replace t h)
            (ap (λ d. some (d ∷ t, rest)) (sym ((==_iff c quote).0 same))))
    | inr other ↦ rw (starts_quote c t, other) (rw (other, read_windows-replace t h) refl)
  ]

-- A value that is quoted outside Windows is what a shell reads, whatever it holds and whatever follows
-- it: nothing in it is expanded or ends it.
pub read-shell_double_quote :
    (value rest : Text)
    → (starts_with (quote ∷ []) (shell_double_quote false value ++ rest) ≡ true)
      × (read_shell false (drop 1 (shell_double_quote false value ++ rest)) ≡ some (value, rest))
unfolding shell_double_quote starts_with strip_prefix
read-shell_double_quote value rest = (refl, read_shell-escape rest value)

-- A value that is quoted on Windows, before something other than a quote, is the word that is read.
pub read_windows-shell_double_quote :
    (value rest : Text)
    → ¬ (starts_with (quote ∷ []) rest ≡ true)
    → read_windows false (drop 1 (shell_double_quote true value ++ rest)) ≡ some (value, rest)
unfolding shell_double_quote
read_windows-shell_double_quote value rest h = rw append_assoc (read_windows-replace rest value h)

-- The script that opens a terminal is `do script` of one literal, and the command in it is `ssh` with
-- the host, whatever it holds, as its one argument.
pub read-terminal_script :
    (host : Text)
    → (command : Text) × (strip_prefix
          (codes "tell application \"Terminal\" to do script \"")
          (terminal_script host)
        ≡ some (escape is_script_special command))
      × (read_script false (escape is_script_special command) ≡ some (command, []))
      × (strip_prefix (codes "ssh \"") command ≡ some (escape is_shell_special host))
      × (read_shell false (escape is_shell_special host) ≡ some (host, []))
unfolding terminal_script apple_script_string shell_double_quote strip_prefix
read-terminal_script host = (
  codes "ssh " ++ shell_double_quote false host,
  refl,
  subst (λ t. read_script false t ≡ some (codes "ssh " ++ shell_double_quote false host, []))
      (append-nil _) (read_script-escape [] (codes "ssh " ++ shell_double_quote false host)),
  refl,
  subst (λ t. read_shell false t ≡ some (host, [])) (append-nil _) (read_shell-escape [] host),
)

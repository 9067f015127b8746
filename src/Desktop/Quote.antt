-- ===== src/Desktop/Quote.antt =====
-- src/desktop.rs: how values are quoted for the shell and for AppleScript.
use rust_ssh.Prelude.{ℕ, ◌||◌, Bool, [], ◌∷◌, ◌++◌, ◌==◌, if◌then◌else◌, Text, codes, replace}

abbrev pub quote : ℕ
quote = b'"'

abbrev pub backslash : ℕ
backslash = b'\\'

-- What a shell treats specially between double quotes.
unfoldable pub is_shell_special : ℕ → Bool
is_shell_special c = c == quote || c == backslash || c == b'$' || c == b'`'

unfoldable pub is_script_special : ℕ → Bool
is_script_special c = c == quote || c == backslash

-- The loop over the characters: a backslash before the special ones, and the closing quote.
unfoldable pub escape : (ℕ → Bool) → Text → Text
escape special [] = quote ∷ []
escape special (c ∷ t) =
    let rest = escape special t in if special c then backslash ∷ c ∷ rest else c ∷ rest

-- `cfg(windows)` is the first argument.
unfoldable pub shell_double_quote : Bool → Text → Text
unfolding escape is_shell_special replace
shell_double_quote windows value =
    if windows
    then (quote ∷ []) ++ replace (quote ∷ []) (quote ∷ quote ∷ []) value ++ (quote ∷ [])
    else quote ∷ escape is_shell_special value

unfoldable pub apple_script_string : Text → Text
unfolding escape is_script_special
apple_script_string value = quote ∷ escape is_script_special value

-- `launch_ssh_terminal` on macOS, the script.
unfoldable pub terminal_script : Text → Text
unfolding shell_double_quote apple_script_string
terminal_script host =
    let command = codes "ssh " ++ shell_double_quote Bool.false host in
    codes "tell application \"Terminal\" to do script " ++ apple_script_string command

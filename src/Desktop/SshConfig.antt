-- ===== src/Desktop/SshConfig.antt =====
-- src/desktop.rs: the managed block of the SSH configuration, as texts. Text outside it is kept.
use rust_ssh.Prelude.{
  ◌&&◌, Bool, false, not, List, [], ◌∷◌, ◌++◌, Option, none, some, if◌then◌else◌, any, is_empty,
  list_eq, Text, codes, trim, trim_end, strip_prefix, starts_with, find, contains, replace, join,
  lines, ◌||◌,
}
use rust_ssh.Desktop.Quote.{shell_double_quote}

abbrev pub managed_ssh_begin : Text
managed_ssh_begin = codes "# >>> rust-ssh managed begin >>>"

abbrev pub managed_ssh_end : Text
managed_ssh_end = codes "# <<< rust-ssh managed end <<<"

unfoldable pub rewrite_setup_path_in_managed_block : Text → Text → Text → Text
rewrite_setup_path_in_managed_block text old_path new_path = elim (find managed_ssh_begin text) [
  | none ↦ text
  | some (before, after_begin) ↦ elim (find managed_ssh_end after_begin) [
    | none ↦ text
    | some (managed, after) ↦
        if not (contains old_path managed)
        then text
        else before
          ++ managed_ssh_begin
          ++ replace old_path new_path managed
          ++ managed_ssh_end
          ++ after
  ]
]

-- `cfg(windows)` comes first, as in `shell_double_quote`.
unfoldable pub block_lines : Bool → Text → Text → Text → Text → Text → List Text
block_lines windows host device_id user executable setup_code_path =
    (codes "Host " ++ host)
    ∷ codes "\tHostName rust-ssh-proxy"
    ∷ (codes "\tHostKeyAlias " ++ device_id)
    ∷ (codes "\tUser " ++ user)
    ∷ codes "\tControlMaster no"
    ∷ codes "\tControlPersist no"
    ∷ codes "\tControlPath none"
    ∷ (codes "\tProxyCommand "
        ++ shell_double_quote windows executable
        ++ codes " --proxy --setup-code-file "
        ++ shell_double_quote windows setup_code_path
        ++ codes " --target "
        ++ shell_double_quote windows device_id)
    ∷ []

unfoldable pub ssh_host_block : Bool → Text → Text → Text → Text → Text → Text → Text
unfolding block_lines join
ssh_host_block windows host device_id user executable setup_code_path newline =
    join newline (block_lines windows host device_id user executable setup_code_path) ++ newline

unfoldable pub normalize_line_endings : Text → Text
unfolding replace
normalize_line_endings text =
    replace (codes "\r") (codes "\n") (replace (codes "\r\n") (codes "\n") text)

-- The loop over the lines with the variables `blocks` and `current`.
abbrev pub add_line : Text → List Text × List Text → List Text × List Text
add_line line (blocks, current) =
    if is_empty (trim line) && is_empty current
    then (blocks, current)
    else (blocks, current ++ line ∷ [])

abbrev pub cut : Text → List Text × List Text → List Text × List Text
cut line (blocks, current) =
    if starts_with (codes "Host ") line && not (is_empty current)
    then (blocks ++ join (codes "\n") current ∷ [], [])
    else (blocks, current)

unfoldable pub split_loop : List Text → List Text × List Text → List Text × List Text
split_loop [] state = state
split_loop (line ∷ rest) state = split_loop rest (add_line line (cut line state))

abbrev pub last_block : List Text × List Text → List Text
last_block (blocks, current) =
    if not (is_empty current) then blocks ++ join (codes "\n") current ∷ [] else blocks

unfoldable pub split_host_blocks : Text → List Text
unfolding split_loop
split_host_blocks text = last_block (split_loop (lines text) ([], []))

abbrev pub is_host_line : Text → Option Text → Bool
is_host_line host none = false
is_host_line host (some rest) = list_eq (trim rest) host

abbrev pub first_is_host : Text → List Text → Bool
first_is_host host [] = false
first_is_host host (line ∷ rest) = is_host_line host (strip_prefix (codes "Host ") line)

-- The closure of `retain`, negated.
unfoldable pub is_replaced : Text → Text → Text → Bool
is_replaced device_id host block =
    first_is_host host (lines block)
    || any (λ line. list_eq (trim line) (codes "HostKeyAlias " ++ device_id)) (lines block)

unfoldable pub retain : (Text → Bool) → List Text → List Text
retain keep [] = []
retain keep (block ∷ blocks) =
    let rest = retain keep blocks in if keep block then block ∷ rest else rest

abbrev pub managed_body : List Text → Text
unfolding join
managed_body blocks = codes "\n" ++ join (codes "\n\n") blocks ++ codes "\n"

-- `managed`, for a list of blocks.
abbrev pub managed_text : List Text → Text
managed_text blocks = managed_ssh_begin ++ managed_body blocks ++ managed_ssh_end ++ codes "\n"

unfoldable pub new_blocks : Text → Text → Text → Text → List Text
unfolding split_host_blocks is_replaced retain
new_blocks body host_block device_id host =
    retain (λ block. not (is_replaced device_id host block)) (split_host_blocks body)
    ++ host_block ∷ []

unfoldable pub append_managed : Text → Text → Text
append_managed existing managed =
    if is_empty (trim_end existing) then managed else trim_end existing ++ codes "\n\n" ++ managed

-- The text of the configuration after the update, with `\n`; `none` is the error of a block without
-- an end. `existing` and `host_block` are the normalized ones.
unfoldable pub updated_config : Text → Text → Text → Text → Option Text
unfolding new_blocks append_managed
updated_config existing host_block device_id host = elim (find managed_ssh_begin existing) [
  | none ↦ some (append_managed existing (managed_text (host_block ∷ [])))
  | some (before, after_begin) ↦ elim (find managed_ssh_end after_begin) [
    | none ↦ none
    | some (body, after) ↦
        some (before ++ managed_text (new_blocks body host_block device_id host) ++ after)
  ]
]

abbrev pub to_native : Bool → Text → Text
unfolding replace
to_native windows text = if windows then replace (codes "\n") (codes "\r\n") text else text

-- The text that `update_managed_ssh_config` writes over `existing`, the file's text or the empty one.
unfoldable pub update_managed_ssh_config : Bool → Text → Text → Text → Text → Option Text
unfolding normalize_line_endings updated_config
update_managed_ssh_config windows existing host_block device_id host =
    elim (updated_config (normalize_line_endings existing)
      (trim_end (normalize_line_endings host_block)) device_id host) [
        | none ↦ none
        | some updated ↦ some (to_native windows updated)
      ]

-- ===== src/Server/EnrolLaws.antt =====
-- src/server.rs, `add_device` against the loading of the tokens and `authenticate`.
use mathlib.Core.Option.{some-injective}
use rust_ssh.Prelude.{
  ℕ, ◌≡◌, refl, sym, ap, ◌∙◌, subst, ◌<◌, arith, List, [], ◌∷◌, ◌++◌, Bool, true, false, ◌||◌, any,
  Option, none, some, Text, as_bytes, trim, trim-append_blank, trim-All, append-All, line_feed,
  is_whitespace, codes, run, Always-run, list_eq, list_eq_refl, All, strip_suffix-suffix,
}
use rust_ssh.Prelude.Utf8.{IsText, as_bytes_injective}
use rust_ssh.DeviceId.Laws.{as_bytes-append}
use rust_ssh.Protocol.{agent}
use rust_ssh.Pairing.{Config, Codecs, ok, decode}
use rust_ssh.Pairing.RoundTrip.{IsFaithful, decode-encode, trimmed_config}
use rust_ssh.Identity.Files.{FileCall, FileReply, fine, FileLog, NewFile, contents}
use rust_ssh.Identity.TokenLaws.{token_file}
use rust_ssh.Identity.{token_mode}
use rust_ssh.Server.Auth.{authenticate}
use rust_ssh.Server.AuthLaws.{authenticate-lookup}
use rust_ssh.Server.Tokens.{
  Entry, unlisted, untyped, no_file, a_file, TokenFile, loaded, device_of, AuthSnapshot, TokenFiles,
  load_auth_snapshot,
}
use rust_ssh.Server.LoadLaws.{token_in, named_token, trimmed}
use rust_ssh.Server.TokensLaws.{load_auth_snapshot-IsOf}
use rust_ssh.Server.Devices.{token_path, add_device}
use rust_ssh.Server.DevicesLaws.{IsAdded, End, own_pairing, add_device-IsAdded}

or_false : (a b : Bool) → (a || b) ≡ false → (a ≡ false) × (b ≡ false)
or_false a b h = ground arith

abbrev pub is_named : Text → Option Text → Bool
is_named id none = false
is_named id (some device) = list_eq device id

-- The entry is a file that is called by the id and `.token`.
abbrev pub is_file_of : Text → Entry → Bool
is_file_of id (a_file file) = is_named id (device_of file.file_name)
is_file_of id entry = false

named_token-skip :
    (id : Text) (name content later : Option Text)
    → is_named id name ≡ false
    → named_token id name content later ≡ later
named_token-skip id none content later h = refl
named_token-skip id (some device) content later h = rw h refl

-- The file of a device, when no entry before it in the listing has its name.
token_in-append :
    (id text : Text) (before after : List Entry) (file : TokenFile)
    → any (is_file_of id) before ≡ false
    → device_of file.file_name ≡ some id
    → file.content ≡ some text
    → token_in id (before ++ a_file file ∷ after) ≡ some (trim text)
token_in-append id text [] after file h named read =
    rw named (rw (list_eq_refl id) (ap trimmed read))
token_in-append id text (unlisted ∷ before) after file h named read =
    token_in-append id text before after file h named read
token_in-append id text (untyped ∷ before) after file h named read =
    token_in-append id text before after file h named read
token_in-append id text (no_file ∷ before) after file h named read =
    token_in-append id text before after file h named read
token_in-append id text (a_file f ∷ before) after file h named read =
    let (other, rest) = or_false (is_named id (device_of f.file_name)) _ h in
    named_token-skip id (device_of f.file_name) f.content _ other
    ∙ token_in-append id text before after file rest named read

blank_line : All (λ c. is_whitespace c ≡ true) (line_feed ∷ [])
unfolding is_whitespace
blank_line = (refl, tt)

-- The text of a file that holds a token and the end of its line.
text_of_line :
    (token text : Text)
    → IsText token
    → IsText text
    → as_bytes (trim token) ++ line_feed ∷ [] ≡ as_bytes text
    → trim text ≡ trim token
unfolding as_bytes
text_of_line token text is_text h e =
    let whole : IsText (trim token ++ line_feed ∷ []) =
      append-All (λ c. c < 1114112) (trim token) (line_feed ∷ []) (trim-All _ token is_text)
        (omega arith, tt) in
    let same : trim token ++ line_feed ∷ [] ≡ text =
      as_bytes_injective (trim token ++ line_feed ∷ []) text whole h
        (as_bytes-append (trim token) (line_feed ∷ []) ∙ e) in
    ap trim (sym same) ∙ trim-append_blank token (line_feed ∷ []) blank_line

-- With encodings that are read back: if add_device returns a code, then its token file was created
-- with mode 0640, and once the server has loaded its files, the directory holding a file of the
-- device's name with the text that was written, and no such file before it in the listing, the code
-- is read as a config for that device and that server whose token lets an agent of that id in.
pub add_device-authenticate :
    (C : Codecs)
    → IsFaithful C
    → ((bytes : List ℕ) → IsText (C.hex_encode bytes))
    → (parent : Text → Option Text) (join : Text → Text → Text)
      (devices_dir device_id server server_key_path : Text)
      (world : FileLog → (c : FileCall) → FileReply c) (log : FileLog) (code : Text)
    → run world [] (add_device C parent join devices_dir device_id server server_key_path)
      ≡ (log, fine code)
    → (new : NewFile) (text : Text)
    → contents (token_path C parent join devices_dir device_id server server_key_path) log
      ≡ some new
    → new.bytes ≡ some (as_bytes text)
    → IsText text
    → (files : TokenFiles) (auth : AuthSnapshot) (before after : List Entry) (file : TokenFile)
    → load_auth_snapshot files ≡ loaded auth
    → files.devices_dir ≡ some (before ++ a_file file ∷ after)
    → any (is_file_of device_id) before ≡ false
    → file.file_name ≡ some (device_id ++ codes ".token")
    → file.content ≡ some text
    → (new.mode ≡ some token_mode)
      × ((config : Config) × (decode C code ≡ ok config)
          × (config.device_id ≡ some device_id)
          × (config.server ≡ trim server)
          × (authenticate agent config.device_id config.token auth.controller_token
                auth.device_tokens
              ≡ none))
add_device-authenticate C faithful hex_text parent join devices_dir device_id server server_key_path
      world log code ran new text created written is_text files auth before after file is_loaded
      listed first named read =
    let added : IsAdded C faithful parent join devices_dir device_id server server_key_path log
        code =
      subst (λ r. End C faithful parent join devices_dir device_id server server_key_path r.0 r.1)
        ran
        (Always-run (End C faithful parent join devices_dir device_id server server_key_path) world
          [] (add_device C parent join devices_dir device_id server server_key_path)
          (add_device-IsAdded C faithful parent join devices_dir device_id server
            server_key_path)) in
    let token = C.hex_encode added.secret in
    let same_file : new ≡ token_file (as_bytes (trim token) ++ line_feed ∷ []) =
      some-injective _ _ (sym created ∙ added.file) in
    let bytes : as_bytes (trim token) ++ line_feed ∷ [] ≡ as_bytes text =
      some-injective _ _ (sym (ap (λ n. n.bytes) same_file) ∙ written) in
    let trims = text_of_line token text (hex_text added.secret) is_text bytes in
    let own = load_auth_snapshot-IsOf files auth is_loaded in
    let entries : own.entries ≡ before ++ a_file file ∷ after =
      some-injective _ _ (sym own.listed ∙ listed) in
    let suffixed : device_of file.file_name ≡ some device_id =
      ap device_of named ∙ strip_suffix-suffix (codes ".token") device_id in
    let found : token_in device_id own.entries ≡ some (trim token) =
      ap (token_in device_id) entries
      ∙ token_in-append device_id text before after file first suffixed read
      ∙ ap some trims in
    let (valid, long) = own.usable device_id (trim token) found in
    (
      ap (λ n. n.mode) same_file,
      (
        trimmed_config (
            own_pairing C faithful parent join devices_dir device_id server server_key_path
              added.server_key token),
        decode-encode C faithful _ code added.is_key.1 added.is_key.0 added.encoded,
        refl,
        refl,
        authenticate-lookup device_id (trim token) auth.controller_token auth.device_tokens valid
            (own.devices device_id ∙ found) long,
      ),
    )

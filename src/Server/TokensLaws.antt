-- ===== src/Server/TokensLaws.antt =====
-- src/server.rs: the tokens that the server goes by are those of its files, and what can enter then.
use mathlib.Core.Option.{some-injective}
use rust_ssh.Prelude.{
  subst, ◌≡◌, refl, sym, ap, ◌∙◌, ◌↔◌, inl, inr, true, Bool-cases, List, [], ◌∷◌, Option, none,
  some, list_eq, list_eq_iff, All, Text, trim, lookup,
}
use rust_ssh.Prelude.Utf8.{IsText}
use rust_ssh.DeviceId
use rust_ssh.Protocol.{agent, controller}
use rust_ssh.Server.Auth.{authenticate}
use rust_ssh.Server.AuthLaws.{IsTokenLength, AreTexts, authenticate_iff}
use rust_ssh.Server.Tokens.{
  Entry, TokenRecord, loaded, load_loop, sort_records, load_device_token_records, collect_tokens,
  load_device_tokens, AuthSnapshot, TokenFiles, load_auth_snapshot,
}
use rust_ssh.Server.LoadLaws.{
  trimmed, or_else-none, token_in, pairs, IsUsable, Holds, Holds-same, bind_loaded, load_loop-Holds,
  loaded_injective, from_option_loaded, from_token_loaded,
}
use rust_ssh.Server.SortLaws.{sort_records-Holds, lookup-collect_tokens}

empty-Holds : Holds [] (λ id. none)
unfolding lookup
empty-Holds = record { distinct = tt; usable = tt; same = λ id. refl }

-- The records that are loaded are usable, of distinct ids, and those of the files.
load_device_token_records-Holds :
    (directory : Option (List Entry)) (records : List TokenRecord)
    → load_device_token_records directory ≡ loaded records
    → (entries : List Entry) × (directory ≡ some entries)
      × Holds records (λ id. token_in id entries)
unfolding load_device_token_records
load_device_token_records-Holds directory records e =
    let (entries, listed, rest) = bind_loaded _ _ records e in
    let (found, gathered, sorted) = bind_loaded (load_loop entries []) _ records rest in
    let h = load_loop-Holds entries [] found (λ id. none) empty-Holds gathered in
    (
      entries,
      from_option_loaded _ directory entries listed,
      rw (sym (loaded_injective sorted)) (
          Holds-same (sort_records found) _ _ h.same
            (sort_records-Holds found h.distinct h.usable)),
    )

lookup-IsUsable :
    (id token : Text) (records : List TokenRecord)
    → All IsUsable records
    → lookup id (pairs records) ≡ some token
    → (DeviceId.is_valid id ≡ true) × IsTokenLength token
unfolding lookup
lookup-IsUsable id token [] u e = absurd (none_some e)
  where
    none_some : {t : Text} → none ≡ some t → ⊥
    none_some k = cc
lookup-IsUsable id token (r ∷ records) (ur, u) e = elim (Bool-cases (list_eq r.device_id id)) [
  | inl same ↦
      let key : r.device_id ≡ id = (list_eq_iff r.device_id id).0 same in
      let value : r.token ≡ token = some-injective r.token token (sym (rw same refl) ∙ e) in
      (subst (λ k. DeviceId.is_valid k ≡ true) key ur.0, subst IsTokenLength value ur.1)
  | inr other ↦ lookup-IsUsable id token records u (sym (rw other refl) ∙ e)
]

-- What a loaded snapshot is to the files.
pub record IsOf (files : TokenFiles) (auth : AuthSnapshot) : Type 0 where
  pub controller_text : Text
  pub read : files.controller_token_file ≡ some controller_text
  pub controller : auth.controller_token ≡ trim controller_text
  pub controller_length : IsTokenLength auth.controller_token
  pub entries : List Entry
  pub listed : files.devices_dir ≡ some entries
  pub devices : (id : Text) → lookup id auth.device_tokens ≡ token_in id entries
  pub usable :
      (id token : Text)
      → token_in id entries ≡ some token
      → (DeviceId.is_valid id ≡ true) × IsTokenLength token

pub load_auth_snapshot-IsOf :
    (files : TokenFiles) (auth : AuthSnapshot)
    → load_auth_snapshot files ≡ loaded auth
    → IsOf files auth
unfolding load_auth_snapshot load_device_tokens lookup
load_auth_snapshot-IsOf files auth e =
    let (text, read, e1) = bind_loaded _ _ auth e in
    let (token, checked, e2) = bind_loaded _ _ auth e1 in
    let (tokens, loaded_tokens, e3) =
      bind_loaded (load_device_tokens files.devices_dir) _ auth e2 in
    let (records, got, collected) =
      bind_loaded (load_device_token_records files.devices_dir) _ tokens loaded_tokens in
    let (entries, listed, h) = load_device_token_records-Holds files.devices_dir records got in
    let (trimmed_eq, long) = from_token_loaded text token checked in
    let made : record { controller_token = token; device_tokens = collect_tokens records [] }
        ≡ auth =
      ap (λ m. record { controller_token = token; device_tokens = m }) (loaded_injective collected)
      ∙ loaded_injective e3 in
    subst (IsOf files) made (record {
      controller_text = text;
      read = from_option_loaded _ files.controller_token_file text read;
      controller = trimmed_eq;
      controller_length = long;
      entries = entries;
      listed = listed;
      devices = λ id. lookup-collect_tokens id records [] h.distinct ∙ or_else-none _ ∙ h.same id;
      usable = λ id token found. lookup-IsUsable id token records h.usable (h.same id ∙ found);
    })

-- What an agent may enter with, whatever the loads were: the trimmed text of the first file that is
-- called by its id and `.token`; and a controller: the trimmed text of the controller's file.
pub load_auth_snapshot-authenticate :
    (files : TokenFiles) (auth : AuthSnapshot) (id token : Text)
    → load_auth_snapshot files ≡ loaded auth
    → IsText token
    → IsText auth.controller_token
    → AreTexts auth.device_tokens
    → (entries : List Entry) × (files.devices_dir ≡ some entries)
      × ((authenticate agent (some id) token auth.controller_token auth.device_tokens ≡ none)
          ↔ (token_in id entries ≡ some token))
      × ((authenticate controller none token auth.controller_token auth.device_tokens ≡ none)
          ↔ (trimmed files.controller_token_file ≡ some token))
load_auth_snapshot-authenticate files auth id token e h k hs =
    let f = load_auth_snapshot-IsOf files auth e in
    let (enters, lets_in) =
      authenticate_iff agent (some id) token auth.controller_token auth.device_tokens h k hs in
    let (controls, lets_control) =
      authenticate_iff controller none token auth.controller_token auth.device_tokens h k hs in
    let own : trimmed files.controller_token_file ≡ some auth.controller_token =
      ap trimmed f.read ∙ ap some (sym f.controller) in
    (
      f.entries,
      f.listed,
      (
        λ a.
            let (d, same, _, found, _) = enters a in
            sym (f.devices id)
            ∙ ap (λ x. lookup x auth.device_tokens) (some-injective id d same)
            ∙ found,
        λ found.
            let (valid, long) = f.usable id token found in
            lets_in (id, refl, valid, f.devices id ∙ found, long),
      ),
      (
        λ a. own ∙ ap some (sym (controls a).0),
        λ found.
            let same : auth.controller_token ≡ token = some-injective _ _ (sym own ∙ found) in
            lets_control (sym same, subst IsTokenLength same f.controller_length),
      ),
    )

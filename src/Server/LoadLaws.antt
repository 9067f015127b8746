-- ===== src/Server/LoadLaws.antt =====
-- src/server.rs: what the loop over the token files gathers.
use rust_ssh.Prelude.{
  ◌≡◌, refl, sym, ap, ◌∙◌, inl, inr, Bool, true, false, not, Bool-cases, List, [], ◌∷◌, ◌++◌,
  Option, none, some, if◌then◌else◌, list_eq, list_eq_iff, All, arith, Text, trim, lookup,
  AreKeysDistinct,
}
use rust_ssh.DeviceId
use rust_ssh.Server.Auth.{validate_token, check_trimmed, TokenResult, token_ok, token_error}
use rust_ssh.Server.AuthLaws.{IsTokenLength}
use rust_ssh.Server.Tokens.{
  add_record, TokenFile, Entry, unlisted, untyped, no_file, a_file, TokenRecord, LoadError,
  wrong_name, duplicate, Loaded, loaded, not_loaded, ◌>>=◌, from_option, from_token, is_recorded,
  load_token, device_of, load_named, load_entry, load_loop,
}

abbrev pub or_else : Option Text → Option Text → Option Text
or_else none later = later
or_else (some token) later = some token

abbrev pub trimmed : Option Text → Option Text
trimmed none = none
trimmed (some text) = some (trim text)

abbrev pub named_token : Text → Option Text → Option Text → Option Text → Option Text
named_token id none content later = later
named_token id (some device_id) content later =
    if list_eq device_id id then trimmed content else later

-- The token of a device, told apart from the code: the text, trimmed, of the first file in the
-- directory that is called by its id and `.token`.
abbrev pub token_in : Text → List Entry → Option Text
token_in id [] = none
token_in id (a_file file ∷ entries) =
    named_token id (device_of file.file_name) file.content (token_in id entries)
token_in id (entry ∷ entries) = token_in id entries

-- The records as a map.
abbrev pub pairs : List TokenRecord → List (Text × Text)
pairs [] = []
pairs (r ∷ records) = (r.device_id, r.token) ∷ pairs records

lookup_cons :
    (id key token : Text) (m : List (Text × Text))
    → lookup id ((key, token) ∷ m) ≡ (if list_eq key id then some token else lookup id m)
unfolding lookup
lookup_cons id key token m = refl

is_recorded-lookup :
    (id : Text) (records : List TokenRecord)
    → is_recorded id records ≡ false
    → lookup id (pairs records) ≡ none
unfolding is_recorded lookup
is_recorded-lookup id [] h = refl
is_recorded-lookup id (r ∷ records) h = elim (Bool-cases (list_eq r.device_id id)) [
  | inl e ↦ ground arith
  | inr e ↦ rw e (is_recorded-lookup id records (sym (rw e refl) ∙ h))
]

lookup-pairs-append :
    (id : Text) (records : List TokenRecord) (r : TokenRecord)
    → lookup id (pairs (records ++ r ∷ []))
      ≡ or_else (lookup id (pairs records)) (if list_eq r.device_id id then some r.token else none)
unfolding lookup
lookup-pairs-append id [] r = refl
lookup-pairs-append id (s ∷ records) r = elim (Bool-cases (list_eq s.device_id id)) [
  | inl e ↦ rw e refl
  | inr e ↦ rw e (lookup-pairs-append id records r)
]

pairs-AreKeysDistinct :
    (records : List TokenRecord) (r : TokenRecord)
    → AreKeysDistinct (pairs records)
    → lookup r.device_id (pairs records) ≡ none
    → AreKeysDistinct (pairs (records ++ r ∷ []))
unfolding lookup
pairs-AreKeysDistinct [] r h new = (refl, tt)
pairs-AreKeysDistinct (s ∷ records) r (own, h) new =
    elim (Bool-cases (list_eq s.device_id r.device_id)) [
      | inl e ↦ ground arith
      | inr e ↦
          let flip : list_eq r.device_id s.device_id ≡ false =
            ground
              (arith, list_eq_iff s.device_id r.device_id, list_eq_iff r.device_id s.device_id) in
          (
            rw (lookup-pairs-append s.device_id records r) (rw (own, flip) refl),
            pairs-AreKeysDistinct records r h (sym (rw e refl) ∙ new),
          )
    ]

-- A record that may stand in the list.
abbrev pub IsUsable : TokenRecord → Type 0
IsUsable r = (DeviceId.is_valid r.device_id ≡ true) × IsTokenLength r.token

-- What a step of the loading makes of the records: usable ones, of distinct ids, which are found
-- where `found` tells.
pub record Holds (records : List TokenRecord) (found : Text → Option Text) : Type 0 where
  pub distinct : AreKeysDistinct (pairs records)
  pub usable : All IsUsable records
  pub same : (id : Text) → lookup id (pairs records) ≡ found id

append-IsUsable :
    (records : List TokenRecord) (r : TokenRecord)
    → All IsUsable records
    → IsUsable r
    → All IsUsable (records ++ r ∷ [])
append-IsUsable [] r h k = (k, tt)
append-IsUsable (s ∷ records) r (u, h) k = (u, append-IsUsable records r h k)

token_ok-trim :
    (text token : Text)
    → validate_token text ≡ token_ok token
    → (token ≡ trim text) × IsTokenLength token
unfolding validate_token check_trimmed
token_ok-trim text token h = ground arith

pub bind_loaded :
    {A B : Type 0} (x : Loaded A) (f : A → Loaded B) (b : B)
    → (x >>= f) ≡ loaded b
    → (a : A) × (x ≡ loaded a) × (f a ≡ loaded b)
bind_loaded (loaded a) f b e = (a, refl, e)
bind_loaded (not_loaded x) f b e = cc

pub not_loaded_loaded : {A : Type 0} {e : LoadError} {a : A} → not_loaded e ≡ loaded a → ⊥
not_loaded_loaded h = cc

pub loaded_injective : {A : Type 0} {a b : A} → loaded a ≡ loaded b → a ≡ b
loaded_injective h = cc

pub from_option_loaded :
    {A : Type 0} (e : LoadError) (o : Option A) (a : A) → from_option e o ≡ loaded a → o ≡ some a
from_option_loaded e none a h = cc
from_option_loaded e (some x) a h = cc

pub from_token_loaded :
    (text token : Text)
    → from_token (validate_token text) ≡ loaded token
    → (token ≡ trim text) × IsTokenLength token
from_token_loaded text token h = token_ok-trim text token (go (validate_token text) h)
  where
    go : (r : TokenResult) → from_token r ≡ loaded token → r ≡ token_ok token
    go (token_ok t) e = cc
    go (token_error t) e = cc

guard_loaded :
    {A : Type 0} (b : Bool) (e : LoadError) (x : Loaded A) (a : A)
    → (if b then not_loaded e else x) ≡ loaded a
    → (b ≡ false) × (x ≡ loaded a)
guard_loaded true e x a h = absurd (not_loaded_loaded h)
guard_loaded false e x a h = (refl, h)

not-false : (b : Bool) → not b ≡ false → b ≡ true
not-false true h = refl
not-false false h = cc

add_record_loaded :
    (path id : Text) (records records' : List TokenRecord) (token : Text)
    → add_record path id records token ≡ loaded records'
    → (is_recorded id records ≡ false)
      × (records' ≡ records ++ record { device_id = id; path = path; token = token } ∷ [])
unfolding add_record
add_record_loaded path id records records' token e =
    let (new, made) = guard_loaded (is_recorded id records) (duplicate id) _ records' e in
    (new, sym (loaded_injective made))

-- What a successful round over a named file has found and made.
load_token-inverse :
    (file : TokenFile) (id : Text) (records records' : List TokenRecord)
    → load_token file id records ≡ loaded records'
    → (r : TokenRecord) × (r.device_id ≡ id)
      × (trimmed file.content ≡ some r.token)
      × IsUsable r
      × (is_recorded id records ≡ false)
      × (records' ≡ records ++ r ∷ [])
unfolding load_token
load_token-inverse file id records records' e =
    let (bad, rest) =
      guard_loaded (not (DeviceId.is_valid id)) (wrong_name file.path) _ records' e in
    let (token, first, last) = bind_loaded _ (add_record file.path id records) records' rest in
    let (text, content, checked) = bind_loaded _ (λ t. from_token (validate_token t)) token first in
    let (trim_eq, long) = from_token_loaded text token checked in
    let (new, made) = add_record_loaded file.path id records records' token last in
    (
      record { device_id = id; path = file.path; token = token },
      refl,
      ap trimmed (from_option_loaded _ file.content text content) ∙ ap some (sym trim_eq),
      (not-false (DeviceId.is_valid id) bad, long),
      new,
      made,
    )

load_token-Holds :
    (file : TokenFile) (id : Text) (records records' : List TokenRecord)
    (found : Text → Option Text)
    → Holds records found
    → load_token file id records ≡ loaded records'
    → Holds records' (λ j. or_else (found j) (named_token j (some id) file.content none))
load_token-Holds file id records records' found h e =
    let (r, own, text, usable, new, made) = load_token-inverse file id records records' e in
    let fresh : lookup r.device_id (pairs records) ≡ none =
      rw own (is_recorded-lookup id records new) in
    rw made (record {
      distinct = pairs-AreKeysDistinct records r h.distinct fresh;
      usable = append-IsUsable records r h.usable usable;
      same = λ j.
          lookup-pairs-append j records r
          ∙ ap (λ o. or_else o (if list_eq r.device_id j then some r.token else none)) (h.same j)
          ∙ rw (own, text) refl;
    })

or_else_assoc : (a b c : Option Text) → or_else (or_else a b) c ≡ or_else a (or_else b c)
or_else_assoc none b c = refl
or_else_assoc (some x) b c = refl

pub or_else-none : (a : Option Text) → or_else a none ≡ a
or_else-none none = refl
or_else-none (some x) = refl

pub Holds-same :
    (records : List TokenRecord) (found found' : Text → Option Text)
    → ((id : Text) → found id ≡ found' id)
    → Holds records found
    → Holds records found'
Holds-same records found found' e h = record {
  distinct = h.distinct;
  usable = h.usable;
  same = λ id. h.same id ∙ e id;
}

first_named :
    (j id token : Text) (content later : Option Text)
    → trimmed content ≡ some token
    → or_else (named_token j (some id) content none) later ≡ named_token j (some id) content later
first_named j id token content later e = elim (Bool-cases (list_eq id j)) [
  | inl same ↦ rw same (rw e refl)
  | inr other ↦ rw other refl
]

-- The loop keeps what it has, and adds what the rest of the directory tells.
pub load_loop-Holds :
    (entries : List Entry) (records records' : List TokenRecord) (found : Text → Option Text)
    → Holds records found
    → load_loop entries records ≡ loaded records'
    → Holds records' (λ j. or_else (found j) (token_in j entries))
unfolding load_loop load_entry
load_loop-Holds [] records records' found h e =
    rw (sym (loaded_injective e)) (Holds-same records found _ (λ j. sym (or_else-none (found j))) h)
load_loop-Holds (unlisted ∷ entries) records records' found h e = absurd (not_loaded_loaded e)
load_loop-Holds (untyped ∷ entries) records records' found h e = absurd (not_loaded_loaded e)
load_loop-Holds (no_file ∷ entries) records records' found h e =
    load_loop-Holds entries records records' found h e
load_loop-Holds (a_file file ∷ entries) records records' found h e =
    named (device_of file.file_name)
      (λ middle found' h' k. load_loop-Holds entries middle records' found' h' k) e
  where
    named :
        (name : Option Text)
        → ((middle : List TokenRecord) (found' : Text → Option Text)
            → Holds middle found'
            → load_loop entries middle ≡ loaded records'
            → Holds records' (λ j. or_else (found' j) (token_in j entries)))
        → (load_named file name records >>= load_loop entries) ≡ loaded records'
        → Holds records'
            (λ j. or_else (found j) (named_token j name file.content (token_in j entries)))
    named none later k = later records found h k
    named (some id) later k =
        let (middle, first, last) =
          bind_loaded (load_token file id records) (load_loop entries) records' k in
        let (r, own, text, _, _, _) = load_token-inverse file id records middle first in
        Holds-same records' _ _
          (λ j.
            or_else_assoc (found j) (named_token j (some id) file.content none) (token_in j entries)
            ∙ ap (or_else (found j))
                (first_named j id r.token file.content (token_in j entries) text))
          (later middle _ (load_token-Holds file id records middle found h first) last)

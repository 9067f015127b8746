-- ===== src/Identity/TokenLaws.antt =====
-- src/identity.rs: what `write_token` and the reading of the public key leave, on every run.
use rust_ssh.Prelude.{
  ℕ, ◌≡◌, refl, List, [], ◌∷◌, ◌++◌, Bool, true, false, Option, none, some, list_eq_refl, Text,
  as_bytes, trim, line_feed, Always, ret, call, length, All, IsByte,
}
use rust_ssh.Pairing.{
  Codecs, static_key_size, Paired, ok, error, or_error, wrong_hex, check_key, decode_public_key,
}
use rust_ssh.Pairing.Laws.{bind_ok, or_error_ok, check_key_ok}
use rust_ssh.Pairing.RoundTrip.{IsFaithful, check_key_same}
use rust_ssh.Identity.{
  token_mode, fill, write_each, create_named, create_parent, write_token, from_paired,
  load_public_key,
}
use rust_ssh.Identity.Files.{
  create_new, write_all, flush, Done, fine, failed, FileProg, FileLog, ◌>>=◌, NewFile, contents,
  ask, failed_write,
}
use rust_ssh.Identity.Laws.{Always-then, Ends}

abbrev pub Anything : FileLog → Type 0
Anything log = Unit {0}

pub Always-Anything :
    {A : Type 0} (log : FileLog) (p : FileProg A)
    → Always (Ends (λ log _. Anything log) Anything) log p
Always-Anything log (ret (fine a)) = tt
Always-Anything log (ret (failed e)) = tt
Always-Anything log (call c k) = λ r. Always-Anything ((c, r) ∷ log) (k r)

-- A new file with the mode of a token, and what is in it.
abbrev pub token_file : List ℕ → NewFile
token_file bytes = record { mode = some token_mode; bytes = some bytes }

module _ (path : Text) (first second : List ℕ) where
  abbrev pub HasFile : FileLog → Unit {0} → Type 0
  HasFile log u = contents path log ≡ some (token_file (first ++ second))

  abbrev pub Filled : FileLog → Done Unit → Type 0
  Filled = Ends HasFile Anything

  abbrev last : FileProg Unit
  last = call (flush path) (ask (failed_write path))

  flushed-HasFile :
      (r : Bool) (log : FileLog)
      → HasFile ((flush path, true) ∷ log) tt
      → Always Filled ((flush path, r) ∷ log) (ask (failed_write path) r)
  flushed-HasFile true log h = h
  flushed-HasFile false log h = tt

  second-HasFile :
      (r : Bool) (log : FileLog)
      → contents path log ≡ some (token_file first)
      → Always Filled
          ((write_all path second, r) ∷ log)
          ((ask (failed_write path) r >>= λ _. ret (fine tt)) >>= λ _. last)
  unfolding contents
  second-HasFile false log h = tt
  second-HasFile true log h = λ r.
      flushed-HasFile r ((write_all path second, true) ∷ log) (rw (list_eq_refl path) (rw h refl))

  first-HasFile :
      (r : Bool) (log : FileLog)
      → contents path log ≡ some (token_file [])
      → Always Filled
          ((write_all path first, r) ∷ log)
          ((ask (failed_write path) r >>= λ _. write_each path (second ∷ [])) >>= λ _. last)
  unfolding contents write_each
  first-HasFile false log h = tt
  first-HasFile true log h = λ r.
      second-HasFile r ((write_all path first, true) ∷ log) (rw (list_eq_refl path) (rw h refl))

  created-HasFile :
      (r : Bool) (log : FileLog)
      → Always Filled
          ((create_new path (some token_mode), r) ∷ log)
          (ask (failed_write path) r >>= λ _. write_each path (first ∷ second ∷ []) >>= λ _. last)
  unfolding contents write_each
  created-HasFile false log = tt
  created-HasFile true log = λ r.
      first-HasFile r ((create_new path (some token_mode), true) ∷ log)
        (rw (list_eq_refl path) refl)

-- A token file that is written holds the trimmed token and the end of the line, with mode 0640.
pub write_token-HasFile :
    (C : Codecs) (parent : Text → Option Text) (path token : Text) (log : FileLog)
    → Always
        (Filled path (as_bytes (trim token)) (line_feed ∷ []))
        log
        (write_token C parent path token)
unfolding write_token fill create_parent
write_token-HasFile C parent path token log =
    let first = as_bytes (trim token) in
    let second = line_feed ∷ [] in
    Always-then (λ log _. Anything log) Anything (Filled path first second) _
      (λ log _ h r. created-HasFile path first second r log) (λ log e h. h) log
      (create_named (parent path)) (Always-Anything log (create_named (parent path)))

-- What a key that is read is.
abbrev pub IsKey : List ℕ → Type 0
IsKey key = (length key ≡ static_key_size) × All IsByte key

module _ (C : Codecs) (faithful : IsFaithful C) (parent : Text → Option Text) where
  from_paired-IsKey :
      (value : Text) (p : Paired (List ℕ)) (log : FileLog)
      → decode_public_key C value ≡ p
      → Always (Ends (λ _ key. IsKey key) Anything) log (from_paired C parent p)
  unfolding decode_public_key
  from_paired-IsKey value (error e) log h = tt
  from_paired-IsKey value (ok key) log h =
      let (bytes, read, sized) =
        bind_ok (or_error wrong_hex (C.hex_decode value)) (check_key C) key h in
      let same : key ≡ bytes = check_key_same C bytes key sized in
      (
        check_key_ok C bytes key sized,
        rw same (
            faithful.hex_bytes value bytes (or_error_ok wrong_hex (C.hex_decode value) bytes read)),
      )

  pub load_public_key-IsKey :
      (path : Text) (log : FileLog)
      → Always (Ends (λ _ key. IsKey key) Anything) log (load_public_key C parent path)
  unfolding load_public_key
  load_public_key-IsKey path log none = tt
  load_public_key-IsKey path log (some text) =
      from_paired-IsKey (trim text) (decode_public_key C (trim text)) _ refl

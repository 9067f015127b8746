-- ===== src/Identity/Files.antt =====
-- The calls of the file system that src/identity.rs and the code on top of it make.
use rust_ssh.Prelude.{
  ℕ, List, [], ◌∷◌, ◌++◌, Bool, true, false, Option, none, some, if◌then◌else◌, list_eq, Text, Prog,
  ret, call, Event,
}
use rust_ssh.Pairing.{PairingError}

pub record KeyPair : Type 0 where
  pub private : List ℕ
  pub public : List ℕ

-- `create_new` opens a file that must not exist; the number is its mode, if it is set. `write_all`
-- and `flush` are on the file opened at that path.
pub data FileCall : Type 0 where
  exists create_dir_all read_file read_to_string flush : Text → FileCall
  generate_keypair : FileCall
  create_new : Text → Option ℕ → FileCall
  write_all : Text → List ℕ → FileCall

-- Where nothing is read, whether it succeeded.
abbrev pub FileReply : FileCall → Type 0
FileReply (read_file path) = Option (List ℕ)
FileReply (read_to_string path) = Option Text
FileReply generate_keypair = Option KeyPair
FileReply c = Bool

pub data FileError : Type 0 where
  already_exists no_directory failed_write unreadable : Text → FileError
  no_keys wrong_key_size invalid_device_id : FileError
  already_registered : Text → FileError
  wrong_key no_code : PairingError → FileError

pub data Done (A : Type 0) : Type 0 where
  fine : A → Done A
  failed : FileError → Done A

abbrev pub FileProg : Type 0 → Type 0
FileProg A = Prog FileCall FileReply (Done A)

abbrev pub FileLog : Type 0
FileLog = List (Event FileCall FileReply)

-- `?`
infixl 5 ◌>>=◌
abbrev pub ◌>>=◌ : {A B : Type 0} → FileProg A → (A → FileProg B) → FileProg B
ret (fine a) >>= f = f a
ret (failed e) >>= f = ret (failed e)
call c k >>= f = call c (λ r. k r >>= f)

abbrev pub ask : FileError → Bool → FileProg Unit
ask e true = ret (fine tt)
ask e false = ret (failed e)

abbrev pub give : {A : Type 0} → FileError → Option A → FileProg A
give e none = ret (failed e)
give e (some a) = ret (fine a)

-- A file that a run has created: the bytes are not known after a write that failed.
pub record NewFile : Type 0 where
  pub mode : Option ℕ
  pub bytes : Option (List ℕ)

abbrev pub append_known : List ℕ → Option (List ℕ) → Option (List ℕ)
append_known bytes none = none
append_known bytes (some old) = some (old ++ bytes)

abbrev pub added : List ℕ → Option NewFile → Option NewFile
added bytes none = none
added bytes (some file) = some (record file { bytes = append_known bytes file.bytes })

abbrev pub spoiled : Option NewFile → Option NewFile
spoiled none = none
spoiled (some file) = some (record file { bytes = none })

-- The file that the calls have created at a path, if they have.
unfoldable pub contents : Text → FileLog → Option NewFile
contents path [] = none
contents path ((create_new p mode, true) ∷ log) =
    if list_eq p path then some (record { mode = mode; bytes = some [] }) else contents path log
contents path ((write_all p bytes, true) ∷ log) =
    let file = contents path log in if list_eq p path then added bytes file else file
contents path ((write_all p bytes, false) ∷ log) =
    let file = contents path log in if list_eq p path then spoiled file else file
contents path (event ∷ log) = contents path log

-- The file system has said that there is nothing at the path.
unfoldable pub is_absent : Text → FileLog → Bool
is_absent path [] = false
is_absent path ((exists p, false) ∷ log) =
    let rest = is_absent path log in if list_eq p path then true else rest
is_absent path (event ∷ log) = is_absent path log

-- The keys that were generated last.
unfoldable pub generated : FileLog → Option KeyPair
generated [] = none
generated ((generate_keypair, some keys) ∷ log) = some keys
generated (event ∷ log) = generated log

-- ===== src/Identity/Laws.antt =====
-- src/identity.rs: what `generate` and `write_token` make of the files, on every run.
use rust_ssh.Prelude.{
  ℕ, ◌≡◌, refl, ◌∙◌, ◌⊎◌, inl, inr, List, [], ◌∷◌, Bool, true, false, Option, none, some,
  if◌then◌else◌, is_empty, list_eq, list_eq_refl, Bool-cases, Text, Always, Always-mono, ret, call,
}
use rust_ssh.Pairing.{Codecs}
use rust_ssh.Identity.{
  private_mode, fill, write_each, write_new, write_new_private, create_named, create_parent, refuse,
  public_line, generate,
}
use rust_ssh.Identity.Files.{
  KeyPair, FileCall, exists, generate_keypair, create_new, write_all, flush, Done, fine, failed,
  FileError, FileProg, FileLog, ◌>>=◌, contents, is_absent, generated, ask, give, no_directory,
  failed_write, no_keys, already_exists,
}

abbrev pub IsFailed : {A : Type 0} → Done A → Type 0
IsFailed (fine a) = ⊥
IsFailed (failed e) = Unit {0}

-- A part ends in `P` where it succeeds and in `E` where it fails.
abbrev pub Ends :
    {A : Type 0} → (FileLog → A → Type 0) → (FileLog → Type 0) → FileLog → Done A → Type 0
Ends P E log (fine a) = P log a
Ends P E log (failed e) = E log

-- A part that may fail, and what follows it.
pub Always-then :
    {A B : Type 0} (P : FileLog → A → Type 0) (E : FileLog → Type 0) (Q : FileLog → Done B → Type 0)
    → (f : A → FileProg B) → ((log : FileLog) (a : A) → P log a → Always Q log (f a))
    → ((log : FileLog) (e : FileError) → E log → Q log (failed e))
    → (log : FileLog) (p : FileProg A) → Always (Ends P E) log p
    → Always Q log (p >>= f)
Always-then P E Q f h k log (ret (fine a)) x = h log a x
Always-then P E Q f h k log (ret (failed e)) x = k log e x
Always-then P E Q f h k log (call c g) x = λ r. Always-then P E Q f h k ((c, r) ∷ log) (g r) (x r)

module _ (C : Codecs) (parent : Text → Option Text) (private_path public_path : Text) where
  -- When a call may be made: a file is created only at a path where there was nothing, and what is
  -- written is the private key, into its own file of mode 0600, or the line of the public key, into
  -- its own file, and then the private key is on the disk as a whole.
  abbrev pub MayWrite : KeyPair → Text → List ℕ → FileLog → Type 0
  MayWrite keys path bytes log =
      ((path ≡ private_path)
        × (bytes ≡ keys.private)
        × (contents path log ≡ some (record { mode = some private_mode; bytes = some [] })))
      ⊎ ((path ≡ public_path)
          × (bytes ≡ public_line C parent keys)
          × (contents private_path log
              ≡ some (record { mode = some private_mode; bytes = some keys.private })))

  abbrev pub May : FileCall → FileLog → Type 0
  May (create_new path mode) log = is_absent path log ≡ true
  May (write_all path bytes) log =
      (keys : KeyPair) × (generated log ≡ some keys) × MayWrite keys path bytes log
  May c log = Unit {0}

  abbrev pub IsCareful : FileLog → Type 0
  IsCareful [] = Unit {0}
  IsCareful ((c, r) ∷ log) = May c log × IsCareful log

  pub record IsGenerated (log : FileLog) (result : Done Unit) : Type 0 where
    pub careful : IsCareful log
    pub success :
        (result ≡ fine tt)
        → (keys : KeyPair) × (generated log ≡ some keys)
          × (contents private_path log
              ≡ some (record { mode = some private_mode; bytes = some keys.private }))
          × (contents public_path log
              ≡ some (record { mode = none; bytes = some (public_line C parent keys) }))

  stopped : (log : FileLog) (e : FileError) → IsCareful log → IsGenerated log (failed e)
  stopped log e careful = record { careful = careful; success = λ h. cc }

  -- Before the keys are made.
  record IsReady (log : FileLog) : Type 0 where
    careful : IsCareful log
    private_absent : is_absent private_path log ≡ true
    public_absent : is_absent public_path log ≡ true

  ask-IsReady :
      (e : FileError) (r : Bool) (log : FileLog)
      → IsReady log
      → Always (Ends (λ log _. IsReady log) IsReady) log (ask e r)
  ask-IsReady e true log h = h
  ask-IsReady e false log h = h

  create_named-IsReady :
      (directory : Option Text) (log : FileLog)
      → IsReady log
      → Always (Ends (λ log _. IsReady log) IsReady) log (create_named directory)
  unfolding is_absent
  create_named-IsReady none log h = h
  create_named-IsReady (some directory) log h = elim (Bool-cases (is_empty directory)) [
    | inl e ↦ rw e h
    | inr e ↦ rw e (λ r. ask-IsReady (no_directory directory) r _ (record {
      careful = (tt, h.careful);
      private_absent = h.private_absent;
      public_absent = h.public_absent;
    }))
  ]

  -- What writing a file leaves, over the log of before.
  record IsFilled (path : Text) (mode : Option ℕ) (bytes : List ℕ) (old log : FileLog)
      : Type 0 where
    careful : IsCareful log
    filled : contents path log ≡ some (record { mode = mode; bytes = some bytes })
    kept : generated log ≡ generated old
    others : (q : Text) → list_eq path q ≡ false → contents q log ≡ contents q old
    absent : (q : Text) → is_absent q log ≡ is_absent q old

  abbrev FillEnd : Text → Option ℕ → List ℕ → FileLog → FileLog → Done Unit → Type 0
  FillEnd path mode bytes old = Ends (λ log _. IsFilled path mode bytes old log) IsCareful

  module _ (path : Text) (mode : Option ℕ) (bytes : List ℕ) (old : FileLog) where
    abbrev opened : FileLog
    opened = (create_new path mode, true) ∷ old

    flushed-IsFilled :
        (r : Bool) (log : FileLog)
        → IsFilled path mode bytes old ((flush path, true) ∷ log)
        → IsCareful log
        → Always (FillEnd path mode bytes old) ((flush path, r) ∷ log) (ask (failed_write path) r)
    flushed-IsFilled true log h careful = h
    flushed-IsFilled false log h careful = (tt, careful)

    written-IsFilled :
        (r : Bool)
        → IsCareful old
        → is_absent path old ≡ true
        → May (write_all path bytes) opened
        → Always (FillEnd path mode bytes old) ((write_all path bytes, r) ∷ opened) (
            (ask (failed_write path) r >>= λ _. ret (fine tt)) >>= λ _.
            call (flush path) (ask (failed_write path)))
    unfolding contents generated is_absent
    written-IsFilled false careful absent may = (may, (absent, careful))
    written-IsFilled true careful absent may = λ r.
        flushed-IsFilled r ((write_all path bytes, true) ∷ opened)
          (record {
            careful = (tt, (may, (absent, careful)));
            filled = rw (list_eq_refl path) refl;
            kept = refl;
            others = λ q e. rw e refl;
            absent = λ q. refl;
          })
          (may, (absent, careful))

    fill-IsFilled :
        IsCareful old
        → is_absent path old ≡ true
        → May (write_all path bytes) opened
        → Always (FillEnd path mode bytes old) old (fill path mode (bytes ∷ []))
    unfolding fill write_each
    fill-IsFilled careful absent may = λ r.
        elim r
          as (λ x. Always (FillEnd path mode bytes old) ((create_new path mode, x) ∷ old) (
            ask (failed_write path) x >>= λ _.
            (call (write_all path bytes) (ask (failed_write path)) >>= λ _. ret (fine tt)) >>= λ _.
            call (flush path) (ask (failed_write path)))) [
              | true ↦ λ r. written-IsFilled r careful absent may
              | false ↦ (absent, careful)
            ]

  abbrev public_part : KeyPair → FileProg Unit
  public_part keys = write_new public_path (public_line C parent keys)

  -- The second file, once the first is there.
  public_part-IsGenerated :
      list_eq public_path private_path ≡ false
      → (keys : KeyPair) (log : FileLog) → IsCareful log
      → is_absent public_path log ≡ true
      → generated log ≡ some keys
      → contents private_path log
        ≡ some (record { mode = some private_mode; bytes = some keys.private })
      → Always IsGenerated log (public_part keys)
  unfolding write_new contents generated
  public_part-IsGenerated apart keys log careful absent made written =
      Always-mono _ IsGenerated (λ end d h. filled-IsGenerated end d h) log (public_part keys)
        (fill-IsFilled public_path none (public_line C parent keys) log careful absent
          (keys, made, inr (refl, refl, rw apart written)))
    where
      filled-IsGenerated :
          (end : FileLog) (d : Done Unit)
          → FillEnd public_path none (public_line C parent keys) log end d
          → IsGenerated end d
      filled-IsGenerated end (fine u) h = record {
        careful = h.careful;
        success = λ _. (keys, h.kept ∙ made, h.others private_path apart ∙ written, h.filled);
      }
      filled-IsGenerated end (failed e) h = stopped end e h

  -- What is done once the keys are asked for.
  keys-IsGenerated :
      list_eq public_path private_path ≡ false
      → (r : Option KeyPair) (log : FileLog) → IsReady log
      → Always IsGenerated ((generate_keypair, r) ∷ log) (
          give no_keys r >>= λ keys.
          write_new_private private_path keys.private >>= λ _. public_part keys)
  unfolding write_new_private contents generated is_absent
  keys-IsGenerated apart none log h =
      stopped ((generate_keypair, none) ∷ log) no_keys (tt, h.careful)
  keys-IsGenerated apart (some keys) log h =
      let start : FileLog = (generate_keypair, some keys) ∷ log in
      Always-then (λ end _. IsFilled private_path (some private_mode) keys.private start end)
        IsCareful IsGenerated (λ _. public_part keys)
        (λ end _ k.
          public_part-IsGenerated apart keys end k.careful (k.absent public_path ∙ h.public_absent)
            k.kept k.filled)
        stopped start (write_new_private private_path keys.private)
        (fill-IsFilled private_path (some private_mode) keys.private start (tt, h.careful)
          h.private_absent (keys, refl, inl (refl, refl, rw (list_eq_refl private_path) refl)))

  parents-IsGenerated :
      list_eq public_path private_path ≡ false
      → (log : FileLog) → IsReady log
      → Always IsGenerated log (
          create_parent C parent private_path >>= λ _. create_parent C parent public_path >>= λ _.
          call generate_keypair (give no_keys) >>= λ keys.
          write_new_private private_path keys.private >>= λ _. public_part keys)
  unfolding create_parent
  parents-IsGenerated apart log h =
      let end : (log : FileLog) (e : FileError) → IsReady log → IsGenerated log (failed e) =
        λ log e h. stopped log e h.careful in
      Always-then (λ log _. IsReady log) IsReady IsGenerated _
        (λ log _ h.
          Always-then (λ log _. IsReady log) IsReady IsGenerated _
            (λ log _ h r. keys-IsGenerated apart r log h) end log
            (create_named (parent public_path)) (create_named-IsReady (parent public_path) log h))
        end log (create_named (parent private_path))
        (create_named-IsReady (parent private_path) log h)

  abbrev found_private : FileLog
  found_private = (exists private_path, false) ∷ []

  -- After the two paths are looked at.
  public_refused-IsGenerated :
      list_eq public_path private_path ≡ false
      → (found : Bool)
      → Always IsGenerated ((exists public_path, found) ∷ found_private) (
          (if found then ret (failed (already_exists public_path)) else ret (fine tt)) >>= λ _.
          create_parent C parent private_path >>= λ _. create_parent C parent public_path >>= λ _.
          call generate_keypair (give no_keys) >>= λ keys.
          write_new_private private_path keys.private >>= λ _. public_part keys)
  unfolding is_absent
  public_refused-IsGenerated apart true = stopped _ (already_exists public_path) (tt, (tt, tt))
  public_refused-IsGenerated apart false =
      parents-IsGenerated apart ((exists public_path, false) ∷ found_private) (record {
        careful = (tt, (tt, tt));
        private_absent = rw (apart, list_eq_refl private_path) refl;
        public_absent = rw (list_eq_refl public_path) refl;
      })

  private_refused-IsGenerated :
      list_eq public_path private_path ≡ false
      → (found : Bool)
      → Always IsGenerated ((exists private_path, found) ∷ []) (
          (if found then ret (failed (already_exists private_path)) else ret (fine tt)) >>= λ _.
          refuse public_path >>= λ _. create_parent C parent private_path >>= λ _.
          create_parent C parent public_path >>= λ _.
          call generate_keypair (give no_keys) >>= λ keys.
          write_new_private private_path keys.private >>= λ _. public_part keys)
  unfolding refuse
  private_refused-IsGenerated apart true = stopped _ (already_exists private_path) (tt, tt)
  private_refused-IsGenerated apart false = public_refused-IsGenerated apart

  -- Whatever the file system and the key generator answer, with two paths that differ: generate
  -- creates a file only where it was told that there is none, writes the private key only into a file
  -- that it created with mode 0600, and writes the public key only once the private one is on the
  -- disk; and if it succeeds, the two files hold the generated private key and the line of the public
  -- one.
  pub generate-IsGenerated :
      list_eq public_path private_path ≡ false
      → Always IsGenerated [] (generate C parent private_path public_path)
  unfolding generate refuse
  generate-IsGenerated apart = private_refused-IsGenerated apart

-- ===== src/Installer/Tests.antt =====
-- The theorem on the installer's helper at the program of the client.
use rust_ssh.Prelude.{ℕ, ◌∷◌, [], codes, Text, List, Always}
use rust_ssh.Installer.{run_helper}
use rust_ssh.Installer.Laws.{IsCareful, run_helper-IsCareful}

abbrev ascii : List ℕ → Text
ascii value = value

abbrev one_digit : ℕ → Text
one_digit n = n ∷ []

run_helper-IsCareful_example :
    Always
      (IsCareful 500 60 ascii one_digit (codes "rust-ssh-client.exe") (codes "Rust-SSH-Client"))
      []
      (run_helper ascii one_digit (codes "rust-ssh-client.exe") (codes "Rust-SSH-Client") 500 60)
run_helper-IsCareful_example =
    run_helper-IsCareful 500 60 ascii one_digit (codes "rust-ssh-client.exe")
      (codes "Rust-SSH-Client")

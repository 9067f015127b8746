-- ===== src/Noise/HandshakeLaws.antt =====
-- The client of src/noise.rs ends its handshake only with the server that it knows.
use rust_ssh.Prelude.{ℕ, ◌≤◌, ◌≡◌, List, [], ◌∷◌, some, length, All, Event, Always}
use rust_ssh.Noise.Handshake.{
  max_handshake_message, Call, Reply, get_remote_static, write_all, read_exact, Handshake, secured,
  Shaking,
}

abbrev pub Log : Type 0
Log = List (Event Call Reply)

-- The sizes of the messages on the socket, and the keys that the other side proved to have.
abbrev pub sizes : Log → List ℕ
sizes [] = []
sizes ((write_all m, r) ∷ log) = length m ∷ sizes log
sizes ((read_exact n, r) ∷ log) = n ∷ sizes log
sizes (e ∷ log) = sizes log

abbrev pub remotes : Log → List (List ℕ)
remotes [] = []
remotes ((get_remote_static, some key) ∷ log) = key ∷ remotes log
remotes (e ∷ log) = remotes log

abbrev pub IsSized : ℕ → Type 0
IsSized n = (1 ≤ n) × (n ≤ max_handshake_message)

-- All messages are of 1 to 65535 bytes; and a stream that is secured has `keys`.
pub record IsShaken (keys : List (List ℕ)) (log : Log) (r : Handshake) : Type 0 where
  pub sized : All IsSized (sizes log)
  pub known : r ≡ secured → remotes log ≡ keys

module _ (keys : List (List ℕ)) where
  -- What follows is fine from every log with messages of such sizes and the remote keys `now`.
  abbrev GoesOn : List (List ℕ) → Shaking → Type 0
  GoesOn now next =
      (log : Log) → All IsSized (sizes log) → remotes log ≡ now → Always (IsShaken keys) log next

-- ===== src/Server/PermitsLaws.antt =====
-- The permits of src/server.rs, in every interleaving of the tasks.
use rust_ssh.Prelude.{◌+◌, ◌≡◌, length}
use rust_ssh.Server.Permits.{max_connections, Semaphore}

abbrev pub IsConserved : Semaphore → Type 0
IsConserved s = s.available + length s.held ≡ max_connections

-- ===== src/Client/SessionLaws.antt =====
-- What `run_session` of src/agent.rs does on every run.
use rust_ssh.Prelude.{ℕ, suc, ◌⊎◌, ◌+◌, ◌*◌, ◌≤◌, ◌≡◌, List, [], ◌∷◌, none, Text}
use rust_ssh.Protocol.{
  Message, session_attach, session_accepted, is_ready, refused, hello_ok, hello_timeout,
  session_establish_timeout,
}
use rust_ssh.Protocol.Net.{received, went_out, Formats}
use rust_ssh.Client.{
  client_connect, write_within, read_within, Answer, ok, Log, reads, sends, bridged, reached,
  waited,
}
use rust_ssh.Client.Session.{Config, session_hello}

-- Two waits for the Hello, two for the session, and one for Ready.
abbrev pub longest : ℕ
longest = hello_timeout + 4 * session_establish_timeout

-- The stream is joined with the local server only once the relay accepted the Hello and the session,
-- the local server is reached, and Ready is sent; and if the session was accepted but the local server
-- is not reached, the relay is told that it failed.
pub record IsBridged (config : Config) (id : Text) (log : Log) (o : Answer (Unit {0}))
    : Type 0 where
  pub joins :
      (n : ℕ)
      → bridged log ≡ suc n
      → ((features : List Text) × (reads log ≡ session_accepted id ∷ hello_ok features ∷ []))
        × (reached log ≡ 1)
        × (sends log ≡ is_ready id ∷ session_attach id ∷ session_hello config ∷ [])
  pub succeeds : o ≡ ok tt → bridged log ≡ 1
  pub answers :
      (features : List Text)
      → reads log ≡ session_accepted id ∷ hello_ok features ∷ []
      → (reason : Text) × (answer : Message) × ((answer ≡ is_ready id)
          ⊎ (answer ≡ refused id reason))
        × (sends log ≡ answer ∷ session_attach id ∷ session_hello config ∷ [])
  pub in_time : waited log ≤ longest

module _ (F : Formats) (config : Config) (id : Text) where
  module _ (features : List Text) where
    abbrev attached : Log
    attached =
        (write_within session_establish_timeout (session_attach id), went_out)
        ∷ (read_within hello_timeout, received (hello_ok features))
        ∷ (write_within session_establish_timeout (session_hello config), went_out)
        ∷ (client_connect config.server config.server_key, none)
        ∷ []

    abbrev accepted : Log
    accepted = (read_within session_establish_timeout, received (session_accepted id)) ∷ attached

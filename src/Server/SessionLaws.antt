-- ===== src/Server/SessionLaws.antt =====
-- What `handle_agent_session` of src/server.rs does on every run.
use rust_ssh.Prelude.{ℕ, ◌+◌, ◌≤◌, ◌≡◌, List, [], ◌∷◌, none, some, Text}
use rust_ssh.Protocol.{session_attach, session_accepted}
use rust_ssh.Protocol.Net.{received, Outcome, done, Formats}
use rust_ssh.Server.Calls.{ServerTiming, read_within, write, find_device, take_pending}
use rust_ssh.Server.Logs.{Log, taken, responded, handovers, attaches, readies, waited}

-- A session that was taken from the pending ones is answered once; its stream is handed over only
-- for the session that the connection attached to, once that one is ready; and there are at most
-- the two waits.
pub record IsSettled (timing : ServerTiming) (own : ℕ) (log : Log) (o : Outcome) : Type 0 where
  pub answers : responded log ≡ taken log
  pub hands_own :
      (stream : ℕ) (others : List ℕ)
      → handovers log ≡ stream ∷ others
      → (stream ≡ own) × (others ≡ []) × (readies log ≡ attaches log) × (o ≡ done)
  pub in_time : waited log ≤ timing.attach_timeout + timing.ready_timeout

module _ (F : Formats) (timing : ServerTiming) (own : ℕ) (device_id : Text) where
  -- Once the session is taken.
  module _ (id : Text) (sender device : ℕ) where
    -- The log when the connection waits for Ready.
    abbrev accepting : Log
    accepting =
        (write (session_accepted id), none)
        ∷ (take_pending device id, some sender)
        ∷ (find_device device_id, some device)
        ∷ (read_within timing.attach_timeout, received (session_attach id))
        ∷ []

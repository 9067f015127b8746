-- ===== src/Server/ControllerLaws.antt =====
-- What `handle_controller` of src/server.rs does on every run.
use rust_ssh.Prelude.{ℕ, ◌+◌, ◌≤◌, ◌≡◌, List, [], ◌∷◌, some, true, length, Text, Always}
use rust_ssh.Protocol.{open_request}
use rust_ssh.Protocol.Net.{received, Outcome, Formats}
use rust_ssh.Server.Calls.{
  ServerTiming, Opened, read_within, find_device, register_pending, open_within, Handler,
}
use rust_ssh.Server.Logs.{Log, waiting, written, requests, offered, joined, waited}

-- Each request is answered by one frame, no session is left among the pending ones, a stream is
-- joined only if an agent handed it over, and there are at most the two waits.
pub record IsServed (timing : ServerTiming) (log : Log) (o : Outcome) : Type 0 where
  pub answers : length (written log) ≡ requests log
  pub none_left : waiting log ≡ []
  pub joins :
      (stream : ℕ) (others : List ℕ)
      → joined log ≡ stream ∷ others
      → (offered log ≡ stream ∷ []) × (others ≡ [])
  pub in_time : waited log ≤ timing.request_timeout + timing.open_timeout

module _ (F : Formats) (timing : ServerTiming) where
  module _ (target id : Text) (device : ℕ) where
    -- The log when the session is registered, and waits.
    abbrev opening : Log
    opening =
        (register_pending device id, true)
        ∷ (find_device target, some device)
        ∷ (read_within timing.request_timeout, received (open_request target id))
        ∷ []

    abbrev Served : Opened → Handler → Type 0
    Served o p =
        Always (IsServed timing) ((open_within timing.open_timeout device id, o) ∷ opening) p

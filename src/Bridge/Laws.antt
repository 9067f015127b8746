-- ===== src/Bridge/Laws.antt =====
-- What src/bridge.rs promises: the end of the input does not end the output.
use rust_ssh.Prelude.{
  ℕ, ◌≡◌, List, [], ◌∷◌, ◌++◌, ◌||◌, Bool, true, false, Option, none, some, Text,
}
use rust_ssh.Bridge.{BridgeEvent, uploads, downloads, upload_ends, download_ends, Bridge}

-- What the relay brings until it ends, and whether it ends well.
abbrev pub brought : List BridgeEvent → List ℕ
brought [] = []
brought (downloads bytes ∷ events) = bytes ++ brought events
brought (download_ends result ∷ events) = []
brought (event ∷ events) = brought events

abbrev pub relay_end : List BridgeEvent → Option (Option Text)
relay_end [] = none
relay_end (download_ends result ∷ events) = some result
relay_end (event ∷ events) = relay_end events

-- What the input gives until it or the relay ends, and whether it has ended then.
abbrev pub given : List BridgeEvent → List ℕ
given [] = []
given (uploads bytes ∷ events) = bytes ++ given events
given (downloads bytes ∷ events) = given events
given (event ∷ events) = []

abbrev pub input_ended : List BridgeEvent → Bool
input_ended [] = false
input_ended (upload_ends result ∷ events) = true
input_ended (download_ends result ∷ events) = false
input_ended (event ∷ events) = input_ended events

-- The input breaks off while both directions are open.
abbrev pub input_fails : List BridgeEvent → Bool
input_fails [] = false
input_fails (uploads bytes ∷ events) = input_fails events
input_fails (downloads bytes ∷ events) = input_fails events
input_fails (upload_ends none ∷ events) = false
input_fails (upload_ends (some e) ∷ events) = true
input_fails (download_ends result ∷ events) = false

-- What has been done from `b` on.
pub record IsComplete (b b' : Bridge) (events : List BridgeEvent) : Type 0 where
  pub output : b'.output ≡ b.output ++ brought events
  pub flushed : b'.flushed ≡ true
  pub sent : b'.sent ≡ b.sent ++ given events
  pub shut_down : b'.shut_down ≡ (b.shut_down || input_ended events)

-- After the end of the input only the output counts.
record IsDownloaded (b b' : Bridge) (events : List BridgeEvent) : Type 0 where
  output : b'.output ≡ b.output ++ brought events
  flushed : b'.flushed ≡ true
  sent : b'.sent ≡ b.sent
  shut_down : b'.shut_down ≡ b.shut_down

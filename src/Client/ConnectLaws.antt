-- ===== src/Client/ConnectLaws.antt =====
-- What src/connect.rs does on every run.
use rust_ssh.Prelude.{ℕ, suc, ◌+◌, ◌*◌, ◌≤◌, ◌≡◌, List, [], ◌∷◌, none, Text, Always}
use rust_ssh.Protocol.{DeviceInfo, is_ready, hello_ok, list_request, device_list, open_request}
use rust_ssh.Protocol.Net.{received, went_out, Formats}
use rust_ssh.Client.{
  client_connect, write_within, read_within, session_id, Client, Answer, ok, err, Log, reads, sends,
  bridged, waited,
}
use rust_ssh.Client.Connect.{Config, ListConfig, ConnectTiming, controller_hello}

abbrev pub longest : ConnectTiming → ℕ
longest timing = 3 * timing.hello_timeout + timing.response_timeout

-- The devices that are answered are the ones that the relay sent, after it accepted the Hello, to the
-- request for them.
pub record IsListed (timing : ConnectTiming) (token : Text) (log : Log)
    (o : Answer (List DeviceInfo)) : Type 0 where
  pub lists :
      (devices : List DeviceInfo)
      → o ≡ ok devices
      → ((features : List Text) × (reads log ≡ device_list devices ∷ hello_ok features ∷ []))
        × (sends log ≡ list_request ∷ controller_hello token ∷ [])
  pub in_time : waited log ≤ longest timing

-- The stream is joined only once the relay accepted the Hello and then reported ready the session that
-- was asked for.
pub record IsJoined (timing : ConnectTiming) (config : Config) (log : Log) (o : Answer (Unit {0}))
    : Type 0 where
  pub joins :
      (n : ℕ)
      → bridged log ≡ suc n
      → (id : Text) × (features : List Text) × (n ≡ 0)
        × (reads log ≡ is_ready id ∷ hello_ok features ∷ [])
        × (sends log ≡ open_request config.target id ∷ controller_hello config.token ∷ [])
  pub succeeds : o ≡ ok tt → bridged log ≡ 1
  pub in_time : waited log ≤ longest timing

module _ (F : Formats) (timing : ConnectTiming) (server : Text) (key : List ℕ) (token : Text) where
  -- The log once the Hello is sent.
  abbrev hello_sent : Log
  hello_sent =
      (write_within timing.hello_timeout (controller_hello token), went_out)
      ∷ (client_connect server key, none)
      ∷ []

  module _ {A : Type 0} (P : Log → Answer A → Type 0) (next : Client A) where
    -- What holds of a loss on the way and of what follows the Hello holds of all.
    abbrev Loses : Type 0
    Loses = (log : Log) (e : Text) → waited log ≤ longest timing → bridged log ≡ 0 → P log (err e)

    abbrev GoesOn : Type 0
    GoesOn =
        (features : List Text)
        → Always P ((read_within timing.hello_timeout, received (hello_ok features)) ∷ hello_sent)
            next

module _ (F : Formats) (timing : ConnectTiming) (config : ListConfig) where
  abbrev asked : List Text → Log
  asked features =
      (write_within timing.hello_timeout list_request, went_out)
      ∷ (read_within timing.hello_timeout, received (hello_ok features))
      ∷ hello_sent F timing config.server config.server_key config.token

module _ (F : Formats) (timing : ConnectTiming) (config : Config) where
  module _ (features : List Text) (id : Text) where
    abbrev requested : Log
    requested =
        (write_within timing.hello_timeout (open_request config.target id), went_out)
        ∷ (session_id, id)
        ∷ (read_within timing.hello_timeout, received (hello_ok features))
        ∷ hello_sent F timing config.server config.server_key config.token

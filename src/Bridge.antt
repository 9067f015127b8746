-- ===== src/Bridge.antt =====
-- src/bridge.rs: the proxy between the standard streams and the relay. `io::copy` is a sequence of
-- chunks that it has read and written, and an end; the two directions come in any order.
mod Laws
mod Tests
use rust_ssh.Prelude.{ℕ, List, [], ◌∷◌, ◌++◌, Bool, true, false, Option, none, some, Text}

-- What a direction does next: it copies a chunk, or its `io::copy` ends, with an error or without one.
pub data BridgeEvent : Type 0 where
  uploads downloads : List ℕ → BridgeEvent
  upload_ends download_ends : Option Text → BridgeEvent

-- The bytes sent, whether the relay was told their end, and the bytes put out, flushed or not.
pub record Bridge : Type 0 where
  pub sent : List ℕ
  pub shut_down : Bool
  pub output : List ℕ
  pub flushed : Bool

abbrev pub begun : Bridge
begun = record { sent = []; shut_down = false; output = []; flushed = false }

-- `download.await`, after the upload has ended: nothing is uploaded any more.
unfoldable pub download : Bridge → List BridgeEvent → Option (Option Text × Bridge)
download b [] = none
download b (downloads bytes ∷ events) = download (record b { output = b.output ++ bytes }) events
download b (download_ends result ∷ events) = some (result, record b { flushed = true })
download b (event ∷ events) = download b events

-- `select!` over both; `none` while it waits. The result is an error, or `none` for `Ok(())`.
unfoldable pub stdin_stdout_with_io : Bridge → List BridgeEvent → Option (Option Text × Bridge)
unfolding download
stdin_stdout_with_io b [] = none
stdin_stdout_with_io b (uploads bytes ∷ events) =
    stdin_stdout_with_io (record b { sent = b.sent ++ bytes }) events
stdin_stdout_with_io b (upload_ends none ∷ events) = download (record b { shut_down = true }) events
stdin_stdout_with_io b (upload_ends (some e) ∷ events) =
    some (some e, record b { shut_down = true })
stdin_stdout_with_io b (downloads bytes ∷ events) =
    stdin_stdout_with_io (record b { output = b.output ++ bytes }) events
stdin_stdout_with_io b (download_ends result ∷ events) = some (result, record b { flushed = true })

-- ===== src/Client.antt =====
-- The endpoints that connect to the relay: src/connect.rs and the sessions of src/agent.rs. What they
-- call is here: the relay connection, the local SSH server, and the copying of src/bridge.rs.
pub mod Connect
pub mod ConnectLaws
pub mod Session
pub mod SessionLaws
pub mod Delay
pub mod Startup
pub mod Control
pub mod ControlLaws
pub mod Supervisor
pub mod SupervisorLaws
mod Tests
use rust_ssh.Prelude.{ℕ, ◌+◌, List, [], ◌∷◌, Option, none, some, Text, Prog, ret, call, Event}
use rust_ssh.Protocol.{Message}
use rust_ssh.Protocol.Net.{
  Incoming, received, read_error, read_elapsed, Outgoing, went_out, write_error, write_elapsed,
  Outcome,
}

-- `Result<A>`, with the text of the error.
pub data Answer (A : Type 0) : Type 0 where
  ok : A → Answer A
  err : Text → Answer A

-- `noise::client_connect` and `TcpStream::connect` answer `none` or an error. `write` has no deadline.
pub data Call : Type 0 where
  client_connect : Text → List ℕ → Call
  write_within : ℕ → Message → Call
  read_within : ℕ → Call
  write : Message → Call
  connect_local : Text → Call
  session_id : Call
  bridge : Call

abbrev pub Reply : Call → Type 0
Reply (client_connect server key) = Option Text
Reply (write_within t m) = Outgoing
Reply (read_within t) = Incoming
Reply (write m) = Option Text
Reply (connect_local target) = Option Text
Reply session_id = Text
Reply bridge = Answer (Unit {0})

abbrev pub Client : Type 0 → Type 0
Client A = Prog Call Reply (Answer A)

module _ {A : Type 0} where
  -- `client_connect(…).await?` and what follows.
  unfoldable pub after_connect : Client A → Option Text → Client A
  after_connect next none = next
  after_connect next (some e) = ret (err e)

  -- `timeout(…, write_frame(…)).await.map_err(…)??` and what follows.
  unfoldable pub after_write : Text → Client A → Outgoing → Client A
  after_write late next went_out = next
  after_write late next (write_error e) = ret (err e)
  after_write late next write_elapsed = ret (err late)

abbrev pub Log : Type 0
Log = List (Event Call Reply)

-- The frames that were received and those that were sent or tried, the last one first.
abbrev pub reads : Log → List Message
reads [] = []
reads ((read_within t, received m) ∷ log) = m ∷ reads log
reads (e ∷ log) = reads log

abbrev pub sends : Log → List Message
sends [] = []
sends ((write_within t m, r) ∷ log) = m ∷ sends log
sends ((write m, r) ∷ log) = m ∷ sends log
sends (e ∷ log) = sends log

-- How often the stream was bridged, and the local server reached.
abbrev pub bridged : Log → ℕ
bridged [] = 0
bridged ((bridge, r) ∷ log) = 1 + bridged log
bridged (e ∷ log) = bridged log

abbrev pub reached : Log → ℕ
reached [] = 0
reached ((connect_local target, none) ∷ log) = 1 + reached log
reached (e ∷ log) = reached log

-- The time that the waits with a deadline may take.
abbrev pub waited : Log → ℕ
waited [] = 0
waited ((write_within t m, r) ∷ log) = t + waited log
waited ((read_within t, r) ∷ log) = t + waited log
waited (e ∷ log) = waited log

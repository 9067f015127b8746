-- ===== src/Server/Calls.antt =====
-- What the handlers of src/server.rs call: the socket of their connection, and the shared state.
use rust_ssh.Prelude.{ℕ, List, Option, Bool, Text, Prog, call, ret}
use rust_ssh.Protocol.{
  Message, HeartbeatTiming, hello_timeout, session_establish_timeout, default_heartbeat,
}
use rust_ssh.Protocol.Net.{Incoming, Outcome, fails}

-- Durations are milliseconds.
pub record ServerTiming : Type 0 where
  pub hello_timeout : ℕ
  pub attach_timeout : ℕ
  pub ready_timeout : ℕ
  pub request_timeout : ℕ
  pub open_timeout : ℕ
  pub heartbeat : HeartbeatTiming

abbrev pub default_timing : ServerTiming
default_timing = record {
  hello_timeout = rust_ssh.Protocol.hello_timeout;
  attach_timeout = 10000;
  ready_timeout = session_establish_timeout;
  request_timeout = 10000;
  open_timeout = session_establish_timeout;
  heartbeat = default_heartbeat;
}

-- `SessionHandoff`: the agent's stream, by the number of its connection, or a reason.
pub data SessionHandoff : Type 0 where
  handed : ℕ → SessionHandoff
  declined : Text → SessionHandoff

-- The wait of a controller for its session: an answer, the agent's queue or the answer's sender
-- gone, or the time over.
pub data Opened : Type 0 where
  answered : SessionHandoff → Opened
  queue_closed sender_dropped open_elapsed : Opened

-- A device (an `Arc<Device>`) and a sender of a handoff are known by numbers.
pub data Call : Type 0 where
  read_within : ℕ → Call
  write : Message → Call
  auth_snapshot : Call
  device_ids : Call
  find_device : Text → Call
  register_pending : ℕ → Text → Call
  take_pending : ℕ → Text → Call
  respond : ℕ → SessionHandoff → Call
  open_within : ℕ → ℕ → Text → Call
  serve_agent : Text → Bool → Call
  bidirectional : ℕ → Call

-- A written frame answers `none` or an error.
abbrev pub Reply : Call → Type 0
Reply (read_within t) = Incoming
Reply (write m) = Option Text
Reply auth_snapshot = Text × List (Text × Text)
Reply device_ids = List Text
Reply (find_device id) = Option ℕ
Reply (register_pending device id) = Bool
Reply (take_pending device id) = Option ℕ
Reply (respond sender handoff) = Unit {0}
Reply (open_within t device id) = Opened
Reply (serve_agent id heartbeat) = Outcome
Reply (bidirectional agent_stream) = Outcome

abbrev pub Handler : Type 0
Handler = Prog Call Reply Outcome

-- `write_frame(…).await?` and what follows.
unfoldable pub after_write : Handler → Option Text → Handler
after_write next Option.none = next
after_write next (Option.some e) = ret (fails e)

abbrev pub write_then : Message → Handler → Handler
unfolding after_write
write_then m next = call (write m) (after_write next)

-- ===== src/Protocol.antt =====
-- src/protocol.rs: the control messages and their frames. `serde_json` is a parameter of the frames.
pub mod Frame
pub mod Net
pub mod FrameLaws
mod Tests
use rust_ssh.Prelude.{ℕ, ◌*◌, List, Option, Text, codes}

abbrev pub max_frame_size : ℕ
max_frame_size = 64 * 1024

abbrev pub protocol_version : ℕ
protocol_version = 4

abbrev pub heartbeat_feature : Text
heartbeat_feature = codes "heartbeat"

-- Durations are milliseconds.
abbrev pub hello_timeout : ℕ
hello_timeout = 10000

abbrev pub session_establish_timeout : ℕ
session_establish_timeout = 15000

pub record HeartbeatTiming : Type 0 where
  pub ping_interval : ℕ
  pub dead_after : ℕ
  pub write_timeout : ℕ

abbrev pub default_heartbeat : HeartbeatTiming
default_heartbeat = record { ping_interval = 15000; dead_after = 45000; write_timeout = 10000 }

pub data Role : Type 0 where
  agent agent_session controller : Role

pub record DeviceInfo : Type 0 where
  pub device_id : Text

pub data Message : Type 0 where
  -- version, role, token, device id, features
  hello : ℕ → Role → Text → Option Text → List Text → Message
  hello_ok : List Text → Message
  session_attach : Text → Message
  session_accepted : Text → Message
  list_request : Message
  device_list : List DeviceInfo → Message
  -- target, session id
  open_request : Text → Text → Message
  open_session : Text → Message
  is_ready : Text → Message
  -- session id, reason
  refused : Text → Text → Message
  ping : Message
  pong : Message

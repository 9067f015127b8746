-- ===== src/Client/Connect.antt =====
-- src/connect.rs: listing the devices, and joining a session with one.
use rust_ssh.Prelude.{ℕ, ◌++◌, List, [], none, if◌then◌else◌, list_eq, Text, codes, ret, call}
use rust_ssh.Protocol.{
  Message, DeviceInfo, controller, hello, hello_ok, list_request, device_list, open_request,
  is_ready, refused, hello_timeout, session_establish_timeout, protocol_version,
}
use rust_ssh.Protocol.Net.{Incoming, received, read_error, read_elapsed, Formats}
use rust_ssh.Client.{
  client_connect, write_within, read_within, session_id, bridge, Client, ok, err, after_connect,
  after_write,
}

pub record Config : Type 0 where
  pub server : Text
  pub server_key : List ℕ
  pub token : Text
  pub target : Text

pub record ListConfig : Type 0 where
  pub server : Text
  pub server_key : List ℕ
  pub token : Text

pub record ConnectTiming : Type 0 where
  pub hello_timeout : ℕ
  pub response_timeout : ℕ

abbrev pub default_timing : ConnectTiming
default_timing = record {
  hello_timeout = rust_ssh.Protocol.hello_timeout;
  response_timeout = session_establish_timeout;
}

abbrev pub controller_hello : Text → Message
controller_hello token = hello protocol_version controller token none []

module _ (F : Formats) (timing : ConnectTiming) where
  module _ {A : Type 0} where
    -- What follows the Hello, if the relay accepts it.
    unfoldable pub greeted : Client A → Incoming → Client A
    greeted next (received (hello_ok features)) = next
    greeted next (received m) = ret (err (codes "relay did not accept hello: " ++ F.debug m))
    greeted next (read_error e) = ret (err e)
    greeted next read_elapsed = ret (err (codes "timed out waiting for relay hello response"))

    -- The connection and the Hello, with which both functions begin.
    unfoldable pub greet : Text → List ℕ → Text → Client A → Client A
    greet server key token next = call (client_connect server key) (
        after_connect (
          call (write_within timing.hello_timeout (controller_hello token)) (
            after_write (codes "timed out writing hello to relay")
              (call (read_within timing.hello_timeout) (greeted next)))))

  unfoldable pub device_answer : Incoming → Client (List DeviceInfo)
  device_answer (received (device_list devices)) = ret (ok devices)
  device_answer (received m) =
      ret (err (codes "unexpected relay device-list response: " ++ F.debug m))
  device_answer (read_error e) = ret (err e)
  device_answer read_elapsed = ret (err (codes "timed out waiting for relay device list"))

  unfoldable pub list_devices_with_timing : ListConfig → Client (List DeviceInfo)
  list_devices_with_timing config = greet config.server config.server_key config.token (
      call (write_within timing.hello_timeout list_request) (
        after_write (codes "timed out writing list request")
          (call (read_within timing.response_timeout) device_answer)))

  abbrev pub unexpected : Message → Client (Unit {0})
  unexpected m = ret (err (codes "unexpected relay response: " ++ F.debug m))

  unfoldable pub ready_frame : Text → Message → Client (Unit {0})
  ready_frame id (is_ready other) =
      if list_eq other id then call bridge ret else unexpected (is_ready other)
  ready_frame id (refused other reason) =
      if list_eq other id
      then ret (err (codes "relay refused SSH session: " ++ reason))
      else unexpected (refused other reason)
  ready_frame id m = unexpected m

  unfoldable pub ready_answer : Text → Incoming → Client (Unit {0})
  unfolding ready_frame
  ready_answer id (received m) = ready_frame id m
  ready_answer id (read_error e) = ret (err e)
  ready_answer id read_elapsed = ret (err (codes "timed out waiting for relay session response"))

  unfoldable pub open_target : Text → Text → Client (Unit {0})
  open_target target id = call (write_within timing.hello_timeout (open_request target id)) (
      after_write (codes "timed out writing open request")
        (call (read_within timing.response_timeout) (ready_answer id)))

  unfoldable pub run_with_timing : Config → Client (Unit {0})
  run_with_timing config =
      greet config.server config.server_key config.token
        (call session_id (open_target config.target))

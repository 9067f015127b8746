-- ===== src/Client/Session.antt =====
-- src/agent.rs, `run_session`: the second connection of an agent, for one session.
use rust_ssh.Prelude.{
  ℕ, ◌++◌, List, [], Option, none, some, if◌then◌else◌, list_eq, Text, codes, ret, call,
}
use rust_ssh.Protocol.{
  Message, agent_session, hello, hello_ok, session_attach, session_accepted, is_ready, refused,
  hello_timeout, session_establish_timeout, protocol_version,
}
use rust_ssh.Protocol.Net.{Incoming, received, read_error, read_elapsed, Formats}
use rust_ssh.Client.{
  client_connect, write_within, read_within, write, connect_local, bridge, Client, err,
  after_connect, after_write,
}

pub record Config : Type 0 where
  pub server : Text
  pub server_key : List ℕ
  pub token : Text
  pub device_id : Text
  pub target : Text

abbrev pub session_hello : Config → Message
session_hello config = hello protocol_version agent_session config.token (some config.device_id) []

module _ (F : Formats) (config : Config) (id : Text) where
  -- The local target cannot be reached: the relay is told.
  unfoldable pub told : Text → Option Text → Client (Unit {0})
  told reason none = ret (err reason)
  told reason (some e) = ret (err e)

  unfoldable pub local : Option Text → Client (Unit {0})
  unfolding told
  local none =
      call (write_within session_establish_timeout (is_ready id))
        (after_write (codes "timed out writing session ready") (call bridge ret))
  local (some e) =
      let reason = codes "cannot connect to local SSH target: " ++ e in
      call (write (refused id reason)) (told reason)

  abbrev pub unexpected : Message → Client (Unit {0})
  unexpected m = ret (err (codes "unexpected relay session response: " ++ F.debug m))

  unfoldable pub response_frame : Message → Client (Unit {0})
  unfolding local
  response_frame (session_accepted other) =
      if list_eq other id
      then call (connect_local config.target) local
      else unexpected (session_accepted other)
  response_frame (refused other reason) =
      if list_eq other id
      then ret (err (codes "relay refused SSH session: " ++ reason))
      else unexpected (refused other reason)
  response_frame m = unexpected m

  unfoldable pub response : Incoming → Client (Unit {0})
  unfolding response_frame
  response (received m) = response_frame m
  response (read_error e) = ret (err e)
  response read_elapsed = ret (err (codes "timed out waiting for relay session response"))

  unfoldable pub attach : Client (Unit {0})
  attach = call (write_within session_establish_timeout (session_attach id)) (
      after_write (codes "timed out writing session attach")
        (call (read_within session_establish_timeout) response))

  unfoldable pub greeted : Incoming → Client (Unit {0})
  unfolding attach
  greeted (received (hello_ok features)) = attach
  greeted (received m) = ret (err (codes "relay did not accept hello: " ++ F.debug m))
  greeted (read_error e) = ret (err e)
  greeted read_elapsed = ret (err (codes "timed out waiting for relay hello response"))

  unfoldable pub run_session : Client (Unit {0})
  run_session = call (client_connect config.server config.server_key) (
      after_connect (
        call (write_within session_establish_timeout (session_hello config)) (
          after_write (codes "timed out writing session hello to relay")
            (call (read_within hello_timeout) greeted))))

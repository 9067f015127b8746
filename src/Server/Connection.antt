-- ===== src/Server/Connection.antt =====
-- src/server.rs, `handle_connection`: Hello, authentication, and the handler of the role.
use rust_ssh.Prelude.{
  ℕ, ◌++◌, List, [], ◌∷◌, any, Bool, Option, none, some, if◌then◌else◌, list_eq, ◌==◌, not, Text,
  codes, ret, call,
}
use rust_ssh.Protocol.{
  Role, agent, agent_session, controller, hello, hello_ok, heartbeat_feature, protocol_version,
}
use rust_ssh.Protocol.Net.{Incoming, received, read_error, read_elapsed, fails, Formats}
use rust_ssh.Server.Auth.{AuthError, authenticate}
use rust_ssh.Server.Calls.{
  ServerTiming, read_within, auth_snapshot, serve_agent, Handler, write_then,
}
use rust_ssh.Server.Session.{handle_agent_session}
use rust_ssh.Server.Controller.{handle_controller}

-- `show_auth` gives the text of an authentication error.
module _ (F : Formats) (show_auth : AuthError → Text) (timing : ServerTiming) (own : ℕ) where
  unfoldable pub dispatch : Role → Option Text → Bool → Handler
  dispatch agent none heartbeat = ret (fails (codes "agent did not provide device id"))
  dispatch agent (some id) heartbeat = call (serve_agent id heartbeat) ret
  dispatch agent_session none heartbeat =
      ret (fails (codes "agent session did not provide device id"))
  dispatch agent_session (some id) heartbeat = handle_agent_session F timing own id
  dispatch controller id heartbeat = handle_controller F timing

  abbrev pub advertised : List Text → Bool
  advertised features = any (λ feature. list_eq feature heartbeat_feature) features

  unfoldable pub admitted : Role → Option Text → List Text → Option AuthError → Handler
  unfolding dispatch
  admitted role id features (some e) = ret (fails (show_auth e))
  admitted role id features none =
      let heartbeat = advertised features in
      write_then (hello_ok (if heartbeat then heartbeat_feature ∷ [] else []))
        (dispatch role id heartbeat)

  unfoldable pub snapshot :
      Role → Text → Option Text → List Text → Text × List (Text × Text) → Handler
  unfolding admitted
  snapshot role token id features (controller_token, device_tokens) =
      admitted role id features (authenticate role id token controller_token device_tokens)

  unfoldable pub greeted : Incoming → Handler
  unfolding snapshot
  greeted (received (hello version role token id features)) =
      if not (version == protocol_version)
      then ret (
          fails (
            codes "unsupported protocol version "
            ++ F.decimal version
            ++ codes "; expected "
            ++ F.decimal protocol_version))
      else call auth_snapshot (snapshot role token id features)
  greeted (received m) = ret (fails (codes "first control message must be hello"))
  greeted (read_error e) = ret (fails e)
  greeted read_elapsed = ret (fails (codes "timed out waiting for hello"))

  unfoldable pub handle_connection : Handler
  unfolding greeted
  handle_connection = call (read_within timing.hello_timeout) greeted

-- ===== src/Server/Session.antt =====
-- src/server.rs, `handle_agent_session`: an agent's second connection, for one session.
use rust_ssh.Prelude.{ℕ, ◌++◌, Option, none, some, if◌then◌else◌, list_eq, Text, codes, ret, call}
use rust_ssh.Protocol.{Message, session_attach, session_accepted, is_ready, refused}
use rust_ssh.Protocol.Net.{
  Incoming, received, read_error, read_elapsed, Outcome, done, fails, Formats,
}
use rust_ssh.Server.Calls.{
  ServerTiming, SessionHandoff, handed, declined, read_within, write, find_device, take_pending,
  respond, Handler, write_then,
}

-- The formats, the deadlines, the number of the connection, and the device named in its Hello.
module _ (F : Formats) (timing : ServerTiming) (own : ℕ) (device_id : Text) where
  abbrev pub respond_then : ℕ → SessionHandoff → Outcome → Handler
  respond_then sender handoff outcome = call (respond sender handoff) λ _. ret outcome

  abbrev pub unexpected : ℕ → Message → Handler
  unexpected sender m =
      let reason = codes "unexpected agent session response: " ++ F.debug m in
      respond_then sender (declined reason) (fails reason)

  unfoldable pub ready_frame : Text → ℕ → Message → Handler
  ready_frame session_id sender (is_ready id) =
      if list_eq id session_id
      then respond_then sender (handed own) done
      else unexpected sender (is_ready id)
  ready_frame session_id sender (refused id reason) =
      if list_eq id session_id
      then respond_then sender (declined reason) done
      else unexpected sender (refused id reason)
  ready_frame session_id sender m = unexpected sender m

  unfoldable pub ready_answer : Text → ℕ → Incoming → Handler
  unfolding ready_frame
  ready_answer session_id sender (received m) = ready_frame session_id sender m
  ready_answer session_id sender (read_error e) =
      respond_then sender (declined (codes "agent session ended before ready: " ++ e)) (fails e)
  ready_answer session_id sender read_elapsed =
      let reason = codes "agent session did not become ready in time" in
      respond_then sender (declined reason) (fails reason)

  unfoldable pub accepted : Text → ℕ → Option Text → Handler
  unfolding ready_answer
  accepted session_id sender none =
      call (read_within timing.ready_timeout) (ready_answer session_id sender)
  accepted session_id sender (some e) =
      respond_then sender (declined (codes "could not accept agent session: " ++ e)) (fails e)

  unfoldable pub claimed : Text → Option ℕ → Handler
  unfolding accepted
  claimed session_id none =
      write_then (refused session_id (codes "SSH session is no longer waiting")) (ret done)
  claimed session_id (some sender) =
      call (write (session_accepted session_id)) (accepted session_id sender)

  unfoldable pub attached_to : Text → Option ℕ → Handler
  unfolding claimed
  attached_to session_id none =
      write_then (refused session_id (codes "device is offline: " ++ device_id)) (ret done)
  attached_to session_id (some device) = call (take_pending device session_id) (claimed session_id)

  unfoldable pub attach : Incoming → Handler
  unfolding attached_to
  attach (received (session_attach session_id)) =
      call (find_device device_id) (attached_to session_id)
  attach (received m) =
      ret (fails (codes "agent session did not send an attach request: " ++ F.debug m))
  attach (read_error e) = ret (fails e)
  attach read_elapsed = ret (fails (codes "timed out waiting for session attach"))

  unfoldable pub handle_agent_session : Handler
  unfolding attach
  handle_agent_session = call (read_within timing.attach_timeout) attach

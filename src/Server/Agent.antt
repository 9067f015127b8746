-- ===== src/Server/Agent.antt =====
-- src/server.rs, the loop of `handle_agent` and the clean-up after it. What `select!` takes is an event;
-- the registration before the loop, `fail_pending` and `unregister` after it are in Server/Registry.
use rust_ssh.Prelude.{
  ℕ, ◌+◌, ◌++◌, List, [], ◌∷◌, Bool, true, false, not, ◌&&◌, Option, none, some, leb, if◌then◌else◌,
  Text, codes,
}
use rust_ssh.Protocol.{Message, HeartbeatTiming, ping, pong, open_session}
use rust_ssh.Protocol.Net.{
  TaskEnd, Turn, breaks, continues, task_result, Outcome, done, fails, Formats,
}

-- With a request or a Ping comes whether the writer task still takes messages; with the times, now.
pub data AgentEvent : Type 0 where
  shutdown : AgentEvent
  open_requested : Text → Bool → AgentEvent
  requests_closed : AgentEvent
  frame : ℕ → Message → Bool → AgentEvent
  frames_closed : AgentEvent
  reader_ended writer_ended : TaskEnd → AgentEvent
  dead_timer : ℕ → AgentEvent

-- `reader_awaits` and `writer_awaits` count how often the handle of a task gave its result.
pub record AgentLoop : Type 0 where
  pub last_agent_frame : ℕ
  pub reader_consumed : Bool
  pub writer_consumed : Bool
  pub queued : List Message
  pub reader_awaits : ℕ
  pub writer_awaits : ℕ

abbrev pub begun : ℕ → AgentLoop
begun now = record {
  last_agent_frame = now;
  reader_consumed = false;
  writer_consumed = false;
  queued = [];
  reader_awaits = 0;
  writer_awaits = 0;
}

abbrev pub reader_name : Text
reader_name = codes "agent control reader"

abbrev pub writer_name : Text
writer_name = codes "agent control writer"

-- `writer_tx.send(…).await`, and whether the writer is gone.
unfoldable pub send : Message → Bool → AgentLoop → Turn AgentLoop
send m true s = continues (record s { queued = m ∷ s.queued })
send m false s = breaks (fails (codes "agent control writer ended")) s

module _ (F : Formats) (show_duration : ℕ → Text) (timing : HeartbeatTiming)
    (heartbeat : Bool) where
  -- The `if` of a branch of `select!`, and for a timer that it is due.
  unfoldable pub is_enabled : AgentLoop → AgentEvent → Bool
  is_enabled s (reader_ended end) = not s.reader_consumed
  is_enabled s (writer_ended end) = not s.writer_consumed
  is_enabled s (dead_timer now) = heartbeat && leb (s.last_agent_frame + timing.dead_after) now
  is_enabled s _ = true

  unfoldable pub frame_turn : ℕ → Message → Bool → AgentLoop → Turn AgentLoop
  unfolding send
  frame_turn now ping taken s = send pong taken (record s { last_agent_frame = now })
  frame_turn now other taken s =
      breaks (fails (codes "unexpected agent control message: " ++ F.debug other)) s

  unfoldable pub turn : AgentLoop → AgentEvent → Turn AgentLoop
  unfolding frame_turn
  turn s shutdown = breaks (fails (codes "agent connection replaced by a newer client")) s
  turn s (open_requested session_id taken) = send (open_session session_id) taken s
  turn s requests_closed = breaks done s
  turn s (frame now m taken) = frame_turn now m taken s
  turn s frames_closed = breaks (fails (codes "agent control reader ended")) s
  turn s (reader_ended end) =
      breaks (task_result reader_name end)
        (record s { reader_consumed = true; reader_awaits = s.reader_awaits + 1 })
  turn s (writer_ended end) =
      breaks (task_result writer_name end)
        (record s { writer_consumed = true; writer_awaits = s.writer_awaits + 1 })
  turn s (dead_timer now) =
      breaks (fails (codes "agent heartbeat timed out after " ++ show_duration timing.dead_after)) s

  -- A task whose handle was not consumed is aborted, and awaited.
  unfoldable pub clean_up : AgentLoop → AgentLoop
  clean_up s =
      let reader =
        if s.reader_consumed then s else record s { reader_awaits = s.reader_awaits + 1 } in
      if reader.writer_consumed
      then reader
      else record reader { writer_awaits = reader.writer_awaits + 1 }

  -- The loop over the events; one of a disabled branch is passed over. `none` while the loop runs.
  unfoldable pub handle_agent : AgentLoop → List AgentEvent → Option (Outcome × AgentLoop)
  handle_agent s [] = none
  handle_agent s (e ∷ events) =
      let later = handle_agent s events in
      let taken : Option (Outcome × AgentLoop) = elim (turn s e) [
        | breaks o s' ↦ some (o, clean_up s')
        | continues s' ↦ handle_agent s' events
      ] in
      if is_enabled s e then taken else later

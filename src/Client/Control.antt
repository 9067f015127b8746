-- ===== src/Client/Control.antt =====
-- src/agent.rs, the loop of `run_control_stream`. What `select!` takes is an event, with the time.
use rust_ssh.Prelude.{
  ℕ, ◌+◌, ◌-◌, ◌++◌, List, [], ◌∷◌, Bool, true, false, not, ◌&&◌, Option, none, some, leb,
  if◌then◌else◌, Text, codes,
}
use rust_ssh.Protocol.{Message, HeartbeatTiming, pong, open_session}
use rust_ssh.Protocol.Net.{
  Outcome, fails, Formats, Outgoing, went_out, write_error, write_elapsed, TaskEnd, Turn, breaks,
  continues, task_result,
}

-- The write of the Ping is part of its timer's branch: how it ends, and the time then.
pub data ControlEvent : Type 0 where
  frame : ℕ → Message → ControlEvent
  frames_closed session_joined : ControlEvent
  reader_ended : TaskEnd → ControlEvent
  ping_timer : ℕ → Outgoing → ℕ → ControlEvent
  dead_timer : ℕ → ControlEvent

-- `sessions` is how many tasks the set holds; `spawned` are the sessions that were begun, the last
-- one first.
pub record Control : Type 0 where
  pub last_ping : ℕ
  pub last_frame : ℕ
  pub reader_consumed : Bool
  pub sessions : ℕ
  pub spawned : List Text
  pub reader_awaits : ℕ

module _ (F : Formats) (show_duration : ℕ → Text) (timing : HeartbeatTiming)
    (heartbeat : Bool) where
  -- The clock has run for an interval at least.
  abbrev pub begun : ℕ → ℕ → Control
  begun now sessions = record {
    last_ping = now - timing.ping_interval;
    last_frame = now;
    reader_consumed = false;
    sessions = sessions;
    spawned = [];
    reader_awaits = 0;
  }

  unfoldable pub is_enabled : Control → ControlEvent → Bool
  is_enabled s session_joined = not (leb s.sessions 0)
  is_enabled s (reader_ended end) = not s.reader_consumed
  is_enabled s (ping_timer now r later) = heartbeat && leb (s.last_ping + timing.ping_interval) now
  is_enabled s (dead_timer now) = heartbeat && leb (s.last_frame + timing.dead_after) now
  is_enabled s _ = true

  unfoldable pub frame_turn : ℕ → Message → Control → Turn Control
  frame_turn now (open_session session_id) s =
      continues
        (record s { last_frame = now; sessions = s.sessions + 1; spawned = session_id ∷ s.spawned })
  frame_turn now pong s = continues (record s { last_frame = now })
  frame_turn now other s = breaks (fails (codes "unexpected relay message: " ++ F.debug other)) s

  unfoldable pub ping_turn : Outgoing → ℕ → Control → Turn Control
  ping_turn went_out later s = continues (record s { last_ping = later })
  ping_turn (write_error e) later s = breaks (fails (codes "writing heartbeat ping: " ++ e)) s
  ping_turn write_elapsed later s =
      breaks (fails (codes "timed out writing heartbeat ping; control channel is dead")) s

  unfoldable pub turn : Control → ControlEvent → Turn Control
  unfolding frame_turn ping_turn
  turn s (frame now m) = frame_turn now m s
  turn s frames_closed = breaks (fails (codes "agent control reader ended")) s
  turn s session_joined = continues (record s { sessions = s.sessions - 1 })
  turn s (reader_ended end) =
      breaks (task_result (codes "agent control reader") end)
        (record s { reader_consumed = true; reader_awaits = s.reader_awaits + 1 })
  turn s (ping_timer now r later) = ping_turn r later s
  turn s (dead_timer now) =
      breaks
        (fails
          (codes "no heartbeat response from relay within " ++ show_duration timing.dead_after))
        s

  unfoldable pub clean_up : Control → Control
  clean_up s = if s.reader_consumed then s else record s { reader_awaits = s.reader_awaits + 1 }

  -- The loop over the events; one of a disabled branch is passed over. `none` while the loop runs.
  unfoldable pub run_control_stream : Control → List ControlEvent → Option (Outcome × Control)
  run_control_stream s [] = none
  run_control_stream s (e ∷ events) =
      let later = run_control_stream s events in
      let taken : Option (Outcome × Control) = elim (turn s e) [
        | breaks o s' ↦ some (o, clean_up s')
        | continues s' ↦ run_control_stream s' events
      ] in
      if is_enabled s e then taken else later

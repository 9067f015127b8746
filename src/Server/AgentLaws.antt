-- ===== src/Server/AgentLaws.antt =====
-- The handles of the tasks of `handle_agent` in src/server.rs are awaited once, and what it queues.
use rust_ssh.Prelude.{
  ℕ, ◌≡◌, refl, subst, List, [], ◌∷◌, Bool, true, false, Option, none, some, arith, inl, inr,
  Bool-cases, if◌then◌else◌, Text,
}
use rust_ssh.Protocol.{
  Message, HeartbeatTiming, session_attach, session_accepted, is_ready, refused, hello, hello_ok,
  list_request, device_list, open_request, open_session, ping, pong,
}
use rust_ssh.Protocol.Net.{Turn, breaks, continues, Outcome, Formats}
use rust_ssh.Server.Agent.{
  AgentEvent, shutdown, open_requested, requests_closed, frame, frames_closed, reader_ended,
  writer_ended, dead_timer, AgentLoop, begun, send, is_enabled, frame_turn, turn, clean_up,
  handle_agent,
}

-- A task's handle was awaited once, but before the loop ended only if it is marked as consumed.
abbrev pub IsMarked : AgentLoop → Type 0
IsMarked s =
    (s.reader_awaits ≡ (if s.reader_consumed then 1 else 0))
    × (s.writer_awaits ≡ (if s.writer_consumed then 1 else 0))

module _ (F : Formats) (show : ℕ → Text) (timing : HeartbeatTiming) (heartbeat : Bool) where
  abbrev Marks : Turn AgentLoop → Type 0
  Marks (breaks o s) = IsMarked s
  Marks (continues s) = IsMarked s

  send-Marks : (m : Message) (b : Bool) (s : AgentLoop) → IsMarked s → Marks (send m b s)
  unfolding send
  send-Marks m true s h = h
  send-Marks m false s h = h

  frame-Marks :
      (now : ℕ) (m : Message) (b : Bool) (s : AgentLoop)
      → IsMarked s
      → Marks (frame_turn F show timing heartbeat now m b s)
  unfolding frame_turn
  frame-Marks now (hello v r t d f) b s h = h
  frame-Marks now (hello_ok f) b s h = h
  frame-Marks now (session_attach j) b s h = h
  frame-Marks now (session_accepted j) b s h = h
  frame-Marks now list_request b s h = h
  frame-Marks now (device_list ds) b s h = h
  frame-Marks now (open_request t j) b s h = h
  frame-Marks now (open_session j) b s h = h
  frame-Marks now (is_ready j) b s h = h
  frame-Marks now (refused j e) b s h = h
  frame-Marks now ping b s h = send-Marks pong b (record s { last_agent_frame = now }) h
  frame-Marks now pong b s h = h

  turn-Marks :
      (s : AgentLoop) (e : AgentEvent)
      → is_enabled F show timing heartbeat s e ≡ true
      → IsMarked s
      → Marks (turn F show timing heartbeat s e)
  unfolding turn is_enabled frame_turn
  turn-Marks s shutdown k h = h
  turn-Marks s (open_requested id b) k h = send-Marks _ b s h
  turn-Marks s requests_closed k h = h
  turn-Marks s (frame now m b) k h = frame-Marks now m b s h
  turn-Marks s frames_closed k h = h
  turn-Marks s (reader_ended end) k h = (ground arith, h.1)
  turn-Marks s (writer_ended end) k h = (h.0, ground arith)
  turn-Marks s (dead_timer now) k h = h

  -- Every handle is awaited when the clean-up is over, and none twice.
  abbrev IsCollected : Option (Outcome × AgentLoop) → Type 0
  IsCollected none = Unit {0}
  IsCollected (some (o, s)) = (s.reader_awaits ≡ 1) × (s.writer_awaits ≡ 1)

  clean_up_collects :
      (o : Outcome) (s : AgentLoop)
      → IsMarked s
      → IsCollected (some (o, clean_up F show timing heartbeat s))
  unfolding clean_up
  clean_up_collects o s h = ground arith

  handle_agent_collects :
      (s : AgentLoop) (events : List AgentEvent)
      → IsMarked s
      → IsCollected (handle_agent F show timing heartbeat s events)
  unfolding handle_agent
  handle_agent_collects s [] h = tt
  handle_agent_collects s (e ∷ events) h =
      elim (Bool-cases (is_enabled F show timing heartbeat s e)) [
        | inl enabled ↦ rw enabled (
            taken (λ s' m. handle_agent_collects s' events m) (turn F show timing heartbeat s e)
              (turn-Marks s e enabled h))
        | inr disabled ↦ rw disabled (handle_agent_collects s events h)
      ]
    where
      taken :
          ((s' : AgentLoop)
            → IsMarked s'
            → IsCollected (handle_agent F show timing heartbeat s' events))
          → (t : Turn AgentLoop) → Marks t
          → IsCollected (elim t [
            | breaks o s' ↦ some (o, clean_up F show timing heartbeat s')
            | continues s' ↦ handle_agent F show timing heartbeat s' events
          ])
      taken on (breaks o s') m = clean_up_collects o s' m
      taken on (continues s') m = on s' m

  -- When `handle_agent` is through, the handles of its reader and of its writer task were each awaited
  -- exactly once, whatever ended its loop.
  pub handle_agent-awaits_once :
      (now : ℕ) (events : List AgentEvent) (o : Outcome) (s : AgentLoop)
      → handle_agent F show timing heartbeat (begun now) events ≡ some (o, s)
      → (s.reader_awaits ≡ 1) × (s.writer_awaits ≡ 1)
  handle_agent-awaits_once now events o s e =
      subst IsCollected e (handle_agent_collects (begun now) events (refl, refl))

-- ===== src/Client/ControlLaws.antt =====
-- What the control loop of src/agent.rs leaves when it ends.
use rust_ssh.Prelude.{
  ℕ, ◌≡◌, refl, subst, List, [], ◌∷◌, Bool, true, Option, none, some, arith, inl, inr, Bool-cases,
  if◌then◌else◌, Text,
}
use rust_ssh.Protocol.{
  Message, HeartbeatTiming, session_attach, session_accepted, is_ready, refused, hello, hello_ok,
  list_request, device_list, open_request, open_session, ping, pong,
}
use rust_ssh.Protocol.Net.{
  Turn, breaks, continues, Outcome, Formats, Outgoing, went_out, write_error, write_elapsed,
}
use rust_ssh.Client.Control.{
  ControlEvent, frame, frames_closed, session_joined, reader_ended, ping_timer, dead_timer, Control,
  begun, is_enabled, frame_turn, ping_turn, turn, clean_up, run_control_stream,
}

-- The handle of the reader was awaited if it is marked as consumed.
abbrev pub IsMarked : Control → Type 0
IsMarked s = s.reader_awaits ≡ (if s.reader_consumed then 1 else 0)

module _ (F : Formats) (show : ℕ → Text) (timing : HeartbeatTiming) (heartbeat : Bool) where
  abbrev Marks : Turn Control → Type 0
  Marks (breaks o s) = IsMarked s
  Marks (continues s) = IsMarked s

  frame-Marks :
      (now : ℕ) (m : Message) (s : Control)
      → IsMarked s
      → Marks (frame_turn F show timing heartbeat now m s)
  unfolding frame_turn
  frame-Marks now (hello v r t d f) s h = h
  frame-Marks now (hello_ok f) s h = h
  frame-Marks now (session_attach j) s h = h
  frame-Marks now (session_accepted j) s h = h
  frame-Marks now list_request s h = h
  frame-Marks now (device_list ds) s h = h
  frame-Marks now (open_request t j) s h = h
  frame-Marks now (open_session j) s h = h
  frame-Marks now (is_ready j) s h = h
  frame-Marks now (refused j e) s h = h
  frame-Marks now ping s h = h
  frame-Marks now pong s h = h

  ping-Marks :
      (r : Outgoing) (later : ℕ) (s : Control)
      → IsMarked s
      → Marks (ping_turn F show timing heartbeat r later s)
  unfolding ping_turn
  ping-Marks went_out later s h = h
  ping-Marks (write_error e) later s h = h
  ping-Marks write_elapsed later s h = h

  turn-Marks :
      (s : Control) (e : ControlEvent)
      → is_enabled F show timing heartbeat s e ≡ true
      → IsMarked s
      → Marks (turn F show timing heartbeat s e)
  unfolding turn is_enabled
  turn-Marks s (frame now m) k h = frame-Marks now m s h
  turn-Marks s frames_closed k h = h
  turn-Marks s session_joined k h = h
  turn-Marks s (reader_ended end) k h = ground arith
  turn-Marks s (ping_timer now r later) k h = ping-Marks r later s h
  turn-Marks s (dead_timer now) k h = h

  abbrev IsCollected : Option (Outcome × Control) → Type 0
  IsCollected none = Unit {0}
  IsCollected (some (o, s)) = s.reader_awaits ≡ 1

  clean_up_collects :
      (o : Outcome) (s : Control)
      → IsMarked s
      → IsCollected (some (o, clean_up F show timing heartbeat s))
  unfolding clean_up
  clean_up_collects o s h = ground arith

  run_collects :
      (s : Control) (events : List ControlEvent)
      → IsMarked s
      → IsCollected (run_control_stream F show timing heartbeat s events)
  unfolding run_control_stream
  run_collects s [] h = tt
  run_collects s (e ∷ events) h = elim (Bool-cases (is_enabled F show timing heartbeat s e)) [
    | inl enabled ↦ rw enabled (
        taken (λ s' m. run_collects s' events m) (turn F show timing heartbeat s e)
          (turn-Marks s e enabled h))
    | inr disabled ↦ rw disabled (run_collects s events h)
  ]
    where
      taken :
          ((s' : Control)
            → IsMarked s'
            → IsCollected (run_control_stream F show timing heartbeat s' events))
          → (t : Turn Control) → Marks t
          → IsCollected (elim t [
            | breaks o s' ↦ some (o, clean_up F show timing heartbeat s')
            | continues s' ↦ run_control_stream F show timing heartbeat s' events
          ])
      taken on (breaks o s') m = clean_up_collects o s' m
      taken on (continues s') m = on s' m

  -- When `run_control_stream` is through, the handle of its reader task was awaited exactly once,
  -- whatever ended its loop.
  pub run_control_stream-awaits_once :
      (now sessions : ℕ) (events : List ControlEvent) (o : Outcome) (s : Control)
      → run_control_stream F show timing heartbeat
          (begun F show timing heartbeat now sessions)
          events
        ≡ some (o, s)
      → s.reader_awaits ≡ 1
  run_control_stream-awaits_once now sessions events o s e =
      subst IsCollected e (run_collects (begun F show timing heartbeat now sessions) events refl)

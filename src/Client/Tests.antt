-- ===== src/Client/Tests.antt =====
-- The theorems on the clients at concrete configurations.
use rust_ssh.Prelude.{
  ◌*◌, ◌^◌, ◌≡◌, refl, min, map, List, [], ◌∷◌, Bool, true, false, replicate, Text, codes, Option,
  none, some,
}
use rust_ssh.Protocol.{open_session}
use rust_ssh.Protocol.Net.{Formats, fails, returned, went_out}
use rust_ssh.Client.Connect
use rust_ssh.Client.Connect.{ListConfig}
use rust_ssh.Client.Session
use rust_ssh.Client.Delay.{second, sleeps, failures, sleeps-failures}
use rust_ssh.Client.Startup.{validate_target}
use rust_ssh.Client.Supervisor.{Round, slept, stopped_asleep, run_until_stopped_with_timing}
use rust_ssh.Client.SupervisorLaws.{Obeys, rounds_asleep, run_until_stopped-Obeys}
use rust_ssh.Client.Control.{Control, ControlEvent, frame, ping_timer, dead_timer, reader_ended}

abbrev formats : Formats
formats = record { debug = λ m. codes "message"; decimal = λ n. codes "0" }

abbrev list_config : ListConfig
list_config = record {
  server = codes "127.0.0.1:1";
  server_key = replicate 32 1;
  token = codes "t";
}

abbrev config : Connect.Config
config = record {
  server = codes "127.0.0.1:1";
  server_key = replicate 32 1;
  token = codes "t";
  target = codes "d1";
}

abbrev agent_config : Session.Config
agent_config = record {
  server = codes "127.0.0.1:1";
  server_key = replicate 32 1;
  token = codes "t";
  device_id = codes "d1";
  target = codes "127.0.0.1:22";
}

abbrev rounds : List Bool
rounds = false ∷ false ∷ true ∷ false ∷ []

sleeps-failures_example : sleeps rounds ≡ map (λ k. min (2 ^ k) 30 * second) (failures 0 rounds)
sleeps-failures_example = sleeps-failures rounds

abbrev events : List ControlEvent
events =
    ping_timer 20000 went_out 20001
    ∷ frame 20002 (open_session (codes "s"))
    ∷ dead_timer 20003
    ∷ reader_ended (returned (fails (codes "gone")))
    ∷ []

abbrev after_events : Control
after_events = record {
  last_ping = 20001;
  last_frame = 20002;
  reader_consumed = true;
  sessions = 1;
  spawned = codes "s" ∷ [];
  reader_awaits = 1;
}

-- A round that fails, one that is connected and then lost, and the stop.
abbrev agent_rounds : List Round
agent_rounds =
    slept false (some (codes "refused"))
    ∷ slept true none
    ∷ stopped_asleep false (some (codes "refused"))
    ∷ []

abbrev parse_loopback : Text → Option Bool
parse_loopback target = some true

run_until_stopped-Obeys_example :
    Obeys agent_rounds (run_until_stopped_with_timing true parse_loopback agent_config agent_rounds)
    × ((run_until_stopped_with_timing true parse_loopback agent_config agent_rounds).sleeps
        ≡ sleeps (rounds_asleep agent_rounds))
unfolding validate_target
run_until_stopped-Obeys_example =
    run_until_stopped-Obeys parse_loopback agent_config agent_rounds refl

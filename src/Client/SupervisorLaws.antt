-- ===== src/Client/SupervisorLaws.antt =====
-- What the supervisor of src/agent.rs promises: it goes on until it is stopped, and then it ends.
use rust_ssh.Prelude.{
  ℕ, suc, ◌≡◌, refl, ap, List, [], ◌∷◌, Bool, true, false, Option, none, if◌then◌else◌, Text, ◌≤◌,
  any, list_eq, ◌+◌,
}
use rust_ssh.Protocol.{HeartbeatTiming, hello_ok, hello_timeout, heartbeat_feature}
use rust_ssh.Protocol.Net.{went_out, Formats}
use rust_ssh.Client.{client_connect, write_within, Answer, ok, Log, reads, sends, waited}
use rust_ssh.Client.Session.{Config}
use rust_ssh.Client.Startup.{validate_target}
use rust_ssh.Client.Delay.{initial_reconnect_delay, next_reconnect_delay, sleeps_from, sleeps}
use rust_ssh.Client.Supervisor.{
  Status, stopped, Round, stopped_running, slept, stopped_asleep, runs, returned, Run, supervise,
  run_until_stopped_with_timing, control_hello,
}

abbrev pub has_stop : List Round → Bool
has_stop [] = false
has_stop (slept was_connected outcome ∷ rounds) = has_stop rounds
has_stop (round ∷ rounds) = true

-- The rounds that go to sleep, by whether they were connected, up to the stop.
abbrev pub rounds_asleep : List Round → List Bool
rounds_asleep [] = []
rounds_asleep (stopped_running was_connected ∷ rounds) = []
rounds_asleep (slept was_connected outcome ∷ rounds) = was_connected ∷ rounds_asleep rounds
rounds_asleep (stopped_asleep was_connected outcome ∷ rounds) = was_connected ∷ []

abbrev pub stops : List Status → ℕ
stops [] = 0
stops (stopped ∷ statuses) = suc (stops statuses)
stops (status ∷ statuses) = stops statuses

abbrev pub last_is_stopped : List Status → Bool
last_is_stopped [] = false
last_is_stopped (stopped ∷ []) = true
last_is_stopped (status ∷ statuses) = last_is_stopped statuses

-- What a run is to the rounds it had.
pub record Obeys (rounds : List Round) (run : Run) : Type 0 where
  pub ended : run.ended ≡ (if has_stop rounds then returned else runs)
  pub shut : run.shutdowns ≡ (if has_stop rounds then 1 else 0)
  pub told : stops run.reports ≡ (if has_stop rounds then 1 else 0)
  pub told_last : last_is_stopped run.reports ≡ has_stop rounds

supervise-Obeys : (delay : ℕ) (rounds : List Round) → Obeys rounds (supervise true delay rounds)
unfolding supervise
supervise-Obeys delay [] = record { ended = refl; shut = refl; told = refl; told_last = refl }
supervise-Obeys delay (stopped_running true ∷ rounds) = record {
  ended = refl;
  shut = refl;
  told = refl;
  told_last = refl;
}
supervise-Obeys delay (stopped_running false ∷ rounds) = record {
  ended = refl;
  shut = refl;
  told = refl;
  told_last = refl;
}
supervise-Obeys delay (slept true outcome ∷ rounds) =
    let v = supervise-Obeys (next_reconnect_delay delay true) rounds in
    record { ended = v.ended; shut = v.shut; told = v.told; told_last = v.told_last }
supervise-Obeys delay (slept false outcome ∷ rounds) =
    let v = supervise-Obeys (next_reconnect_delay delay false) rounds in
    record { ended = v.ended; shut = v.shut; told = v.told; told_last = v.told_last }
supervise-Obeys delay (stopped_asleep true outcome ∷ rounds) = record {
  ended = refl;
  shut = refl;
  told = refl;
  told_last = refl;
}
supervise-Obeys delay (stopped_asleep false outcome ∷ rounds) = record {
  ended = refl;
  shut = refl;
  told = refl;
  told_last = refl;
}

supervise-sleeps :
    (listens : Bool) (delay : ℕ) (rounds : List Round)
    → (supervise listens delay rounds).sleeps ≡ sleeps_from delay (rounds_asleep rounds)
unfolding supervise sleeps_from
supervise-sleeps true delay [] = refl
supervise-sleeps true delay (stopped_running true ∷ rounds) = refl
supervise-sleeps true delay (slept true outcome ∷ rounds) =
    ap (λ x. initial_reconnect_delay ∷ x)
      (supervise-sleeps true (next_reconnect_delay delay true) rounds)
supervise-sleeps true delay (stopped_asleep true outcome ∷ rounds) = refl
supervise-sleeps true delay (stopped_running false ∷ rounds) = refl
supervise-sleeps true delay (slept false outcome ∷ rounds) =
    ap (λ x. delay ∷ x) (supervise-sleeps true (next_reconnect_delay delay false) rounds)
supervise-sleeps true delay (stopped_asleep false outcome ∷ rounds) = refl
supervise-sleeps false delay [] = refl
supervise-sleeps false delay (stopped_running true ∷ rounds) = refl
supervise-sleeps false delay (slept true outcome ∷ rounds) =
    ap (λ x. initial_reconnect_delay ∷ x)
      (supervise-sleeps false (next_reconnect_delay delay true) rounds)
supervise-sleeps false delay (stopped_asleep true outcome ∷ rounds) = refl
supervise-sleeps false delay (stopped_running false ∷ rounds) = refl
supervise-sleeps false delay (slept false outcome ∷ rounds) =
    ap (λ x. delay ∷ x) (supervise-sleeps false (next_reconnect_delay delay false) rounds)
supervise-sleeps false delay (stopped_asleep false outcome ∷ rounds) = refl

-- For a loopback target, with somebody listening to its reports, a run ends exactly when it is
-- stopped, whether that is while it is connected, while it connects or while it sleeps: it returns,
-- its sessions are shut down once, and Stopped is reported once, as the last report; and its sleeps
-- are those of the rounds that ended before.
pub run_until_stopped-Obeys :
    (parse_loopback : Text → Option Bool) (config : Config) (rounds : List Round)
    → validate_target parse_loopback config.target ≡ none
    → Obeys rounds (run_until_stopped_with_timing true parse_loopback config rounds)
      × ((run_until_stopped_with_timing true parse_loopback config rounds).sleeps
          ≡ sleeps (rounds_asleep rounds))
unfolding run_until_stopped_with_timing sleeps
run_until_stopped-Obeys parse_loopback config rounds e =
    rw (e, run_until_stopped_with_timing)
      (
        supervise-Obeys initial_reconnect_delay rounds,
        supervise-sleeps true initial_reconnect_delay rounds,
      )

-- The control connection speaks of heartbeats exactly if the relay's answer to the Hello does.
pub record IsNegotiated (F : Formats) (config : Config) (timing : HeartbeatTiming) (log : Log)
    (o : Answer Bool) : Type 0 where
  pub agrees :
      (heartbeat : Bool)
      → o ≡ ok heartbeat
      → ((features : List Text) × (reads log ≡ hello_ok features ∷ [])
          × (heartbeat ≡ any (λ f. list_eq f heartbeat_feature) features))
        × (sends log ≡ control_hello F config timing ∷ [])
  pub in_time : waited log ≤ timing.write_timeout + hello_timeout

module _ (F : Formats) (config : Config) (timing : HeartbeatTiming) where
  abbrev greeting : Log
  greeting =
      (write_within timing.write_timeout (control_hello F config timing), went_out)
      ∷ (client_connect config.server config.server_key, none)
      ∷ []

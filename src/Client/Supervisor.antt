-- ===== src/Client/Supervisor.antt =====
-- src/agent.rs, `run_until_stopped_with_timing` and `run_control`: the agent connects again and again
-- until it is stopped, and tells how it stands.
use rust_ssh.Prelude.{
  ℕ, List, [], ◌∷◌, ◌++◌, Bool, Option, none, some, if◌then◌else◌, list_eq, any, Text, codes, ret,
  call,
}
use rust_ssh.Protocol.{
  Message, agent, hello, hello_ok, hello_timeout, protocol_version, heartbeat_feature,
  HeartbeatTiming,
}
use rust_ssh.Protocol.Net.{Incoming, received, read_error, read_elapsed, Formats}
use rust_ssh.Client.{
  client_connect, write_within, read_within, Client, ok, err, after_connect, after_write,
}
use rust_ssh.Client.Session.{Config}
use rust_ssh.Client.Startup.{StartupError, validate_target}
use rust_ssh.Client.Delay.{initial_reconnect_delay, next_reconnect_delay}

pub data Status : Type 0 where
  connecting connected stopped : Status
  retrying : Text → Status
  failed : StartupError → Status

-- `run_control` up to `run_control_stream`: whether the relay speaks of heartbeats.
module _ (F : Formats) (config : Config) (timing : HeartbeatTiming) where
  abbrev pub control_hello : Message
  control_hello =
      hello protocol_version agent config.token (some config.device_id) (heartbeat_feature ∷ [])

  unfoldable pub greeted : Incoming → Client Bool
  greeted (received (hello_ok features)) =
      ret (ok (any (λ f. list_eq f heartbeat_feature) features))
  greeted (received m) = ret (err (codes "relay did not accept hello: " ++ F.debug m))
  greeted (read_error e) = ret (err e)
  greeted read_elapsed = ret (err (codes "timed out waiting for relay hello response"))

  unfoldable pub negotiate : Client Bool
  unfolding greeted
  negotiate = call (client_connect config.server config.server_key) (
      after_connect (
        call (write_within timing.write_timeout control_hello) (
          after_write (codes "timed out writing hello to relay")
            (call (read_within hello_timeout) greeted))))

-- A round of the supervisor's loop. Stopped while `run_control` runs, connected or not; or ended by
-- it, with an error or without one, and then asleep, to the end or until the stop.
pub data Round : Type 0 where
  stopped_running : Bool → Round
  slept stopped_asleep : Bool → Option Text → Round

-- What a run has done: the reports (if somebody listens), the sleeps it began, how often it shut its
-- sessions down, and its end, if it has one.
pub data Ended : Type 0 where
  runs returned : Ended
  refused_target : StartupError → Ended

pub record Run : Type 0 where
  pub reports : List Status
  pub sleeps : List ℕ
  pub shutdowns : ℕ
  pub ended : Ended

-- `report_status`, before what follows.
abbrev pub report_status : Bool → Status → Run → Run
report_status listens update run =
    if listens then record run { reports = update ∷ run.reports } else run

abbrev pub asleep : ℕ → Run → Run
asleep delay run = record run { sleeps = delay ∷ run.sleeps }

abbrev pub reason : Option Text → Text
reason none = codes "连接已断开，正在重试"
reason (some e) = e

module _ (listens : Bool) where
  -- `report_status(Stopped)`, `sessions.shutdown()` and `return Ok(())`.
  abbrev pub stop : Run
  stop =
      report_status listens stopped
        (record { reports = []; sleeps = []; shutdowns = 1; ended = returned })

  abbrev pub report_connected : Bool → Run → Run
  report_connected was_connected run =
      if was_connected then report_status listens connected run else run

  abbrev pub retry_delay : Bool → ℕ → ℕ
  retry_delay was_connected delay = if was_connected then initial_reconnect_delay else delay

  unfoldable pub supervise : ℕ → List Round → Run
  unfolding next_reconnect_delay
  supervise delay [] =
      report_status listens connecting
        (record { reports = []; sleeps = []; shutdowns = 0; ended = runs })
  supervise delay (stopped_running was_connected ∷ rounds) =
      report_status listens connecting (report_connected was_connected stop)
  supervise delay (slept was_connected outcome ∷ rounds) = report_status listens connecting (
      report_connected was_connected (
        report_status listens (retrying (reason outcome)) (
          asleep (retry_delay was_connected delay)
            (supervise (next_reconnect_delay delay was_connected) rounds))))
  supervise delay (stopped_asleep was_connected outcome ∷ rounds) =
      report_status listens connecting (
        report_connected was_connected (
          report_status listens (retrying (reason outcome))
            (asleep (retry_delay was_connected delay) stop)))

  unfoldable pub run_until_stopped_with_timing : (Text → Option Bool) → Config → List Round → Run
  unfolding supervise
  run_until_stopped_with_timing parse_loopback config rounds =
      elim (validate_target parse_loopback config.target) [
        | some e ↦
            report_status listens (failed e)
              (record { reports = []; sleeps = []; shutdowns = 0; ended = refused_target e })
        | none ↦ supervise initial_reconnect_delay rounds
      ]

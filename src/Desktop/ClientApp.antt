-- ===== src/Desktop/ClientApp.antt =====
-- src/desktop.rs, `ClientApp`: the window of the agent. A thread is the number of its start; what the
-- world answers (files, channels, threads) is an argument. Drawing is left out.
use rust_ssh.Prelude.{
  ℕ, suc, ◌&&◌, Bool, true, false, not, List, [], ◌∷◌, ◌++◌, Option, none, some, if◌then◌else◌,
  Text, codes,
}
use rust_ssh.Desktop.Checks.{Refusal, Checked, ok, error, ClientSettings, AgentConfig}

pub data ClientConnectionState : Type 0 where
  stopped connecting connected retrying error_state : ClientConnectionState

-- `agent::Status`, as the window gets it.
pub data AgentStatus : Type 0 where
  agent_connecting agent_connected agent_stopped : AgentStatus
  agent_retrying agent_failed : Text → AgentStatus

-- `signalled` are the threads that were told to stop, `joined` those that were awaited, the last one
-- first; `started` counts the threads.
pub record ClientApp : Type 0 where
  pub settings : ClientSettings
  pub status : Text
  pub connection_state : ClientConnectionState
  pub stop_tx : Option ℕ
  pub agent_thread : Option ℕ
  pub status_rx : Option ℕ
  pub allow_close : Bool
  pub started : ℕ
  pub signalled : List ℕ
  pub joined : List ℕ

unfoldable pub new : ClientSettings → ClientApp
new settings = record {
  settings = settings;
  status = codes "未运行";
  connection_state = stopped;
  stop_tx = none;
  agent_thread = none;
  status_rx = none;
  allow_close = false;
  started = 0;
  signalled = [];
  joined = [];
}

abbrev pub set_connection_state : ClientConnectionState → Text → ClientApp → ClientApp
set_connection_state state status app = record app { connection_state = state; status = status }

-- `save`, by the error of `save_settings`.
unfoldable pub save : Option Text → ClientApp → ClientApp
save none app = record app { status = codes "配置已保存" }
save (some e) app = record app { status = codes "保存失败：" ++ e }

-- `start` after the settings are saved: two channels and the thread.
unfoldable pub spawn : ClientApp → ClientApp
spawn app = set_connection_state connecting (codes "正在连接服务器…") (record app {
  stop_tx = some app.started;
  agent_thread = some app.started;
  status_rx = some app.started;
  started = suc app.started;
})

unfoldable pub start_saved : Option Text → ClientApp → ClientApp
unfolding spawn
start_saved none app = spawn app
start_saved (some e) app = record app { status = codes "保存失败：" ++ e }

unfoldable pub start_config :
    (Refusal → Text) → Option Text → Checked AgentConfig → ClientApp → ClientApp
unfolding start_saved
start_config show saved (error e) app = record app { status = codes "配置无效：" ++ show e }
start_config show saved (ok config) app = start_saved saved app

-- `config` is what `client_agent_config` makes of the settings, `saved` the error of `save_settings`.
unfoldable pub start : (Refusal → Text) → Checked AgentConfig → Option Text → ClientApp → ClientApp
unfolding start_config
start show config saved app = elim app.agent_thread [
  | some thread ↦ record app { status = codes "agent 已在运行或正在停止" }
  | none ↦ start_config show saved config app
]

unfoldable pub stop : ClientApp → ClientApp
stop app = elim app.stop_tx [
  | some thread ↦
      set_connection_state stopped (codes "正在断开…")
        (record app { stop_tx = none; signalled = thread ∷ app.signalled })
  | none ↦ set_connection_state stopped (codes "未运行") app
]

unfoldable pub apply_agent_status : AgentStatus → ClientApp → ClientApp
apply_agent_status agent_connecting app = set_connection_state connecting (codes "正在连接服务器…") app
apply_agent_status agent_connected app =
    set_connection_state connected (codes "已连接服务器，等待 SSH 连接") app
apply_agent_status (agent_retrying reason) app =
    set_connection_state retrying (codes "连接中断，正在重试：" ++ reason) app
apply_agent_status agent_stopped app = set_connection_state stopped (codes "已断开") app
apply_agent_status (agent_failed reason) app =
    set_connection_state error_state (codes "连接失败：" ++ reason) app

-- The loop over `try_recv`: the updates there are, and then whether the sender is gone.
unfoldable pub receive : List AgentStatus → Bool → ClientApp → ClientApp
unfolding apply_agent_status
receive [] disconnected app = if disconnected then record app { status_rx = none } else app
receive (update ∷ updates) disconnected app =
    receive updates disconnected (apply_agent_status update app)

unfoldable pub poll_updates : List AgentStatus → Bool → ClientApp → ClientApp
unfolding receive
poll_updates updates disconnected app = elim app.status_rx [
  | none ↦ app
  | some thread ↦ receive updates disconnected app
]

-- `is_finished` of the thread, if there is one.
unfoldable pub join_finished : Bool → ClientApp → ClientApp
join_finished finished app = elim app.agent_thread [
  | none ↦ app
  | some thread ↦
      if finished
      then record app { agent_thread = none; joined = thread ∷ app.joined; stop_tx = none }
      else app
]

unfoldable pub poll_agent : List AgentStatus → Bool → Bool → ClientApp → ClientApp
unfolding poll_updates join_finished
poll_agent updates disconnected finished app =
    join_finished finished (poll_updates updates disconnected app)

-- `cfg(windows)`: the tray's signals, what is asked of the window, and the commands sent to it.
pub data ViewportCommand : Type 0 where
  close minimized_off visible_on focus cancel_close visible_off : ViewportCommand

unfoldable pub poll_signals : Bool → Bool → ClientApp → ClientApp × List ViewportCommand
unfolding stop
poll_signals quit show app =
    if quit
    then (stop (record app { allow_close = true }), close ∷ [])
    else (if show then (app, minimized_off ∷ visible_on ∷ focus ∷ []) else (app, []))

unfoldable pub poll_close :
    Bool → Bool → ClientApp × List ViewportCommand → ClientApp × List ViewportCommand
poll_close close_requested tray (app, commands) =
    if close_requested && not app.allow_close && tray
    then (
      record app { status = codes "窗口已隐藏到托盘，client 仍在运行" },
      commands ++ cancel_close ∷ visible_off ∷ [],
    )
    else (app, commands)

unfoldable pub poll_tray : Bool → Bool → Bool → Bool → ClientApp → ClientApp × List ViewportCommand
unfolding poll_signals poll_close
poll_tray quit show close_requested tray app =
    poll_close close_requested tray (poll_signals quit show app)

-- `drop`: the agent is told to stop; its thread is awaited only if it has finished.
unfoldable pub drop_thread : Bool → Option ℕ → ClientApp → ClientApp
drop_thread finished none app = app
drop_thread finished (some thread) app =
    if finished
    then record app { agent_thread = none; joined = thread ∷ app.joined }
    else record app { agent_thread = none }

unfoldable pub tell_dropped : Option ℕ → ClientApp → ClientApp
tell_dropped none app = app
tell_dropped (some thread) app = record app { stop_tx = none; signalled = thread ∷ app.signalled }

unfoldable pub drop_app : Bool → ClientApp → ClientApp
unfolding drop_thread tell_dropped
drop_app finished app =
    let told = tell_dropped app.stop_tx app in drop_thread finished told.agent_thread told

-- What happens to a window, in any order. `update` shows the button that starts only without a
-- thread, but `start` asks itself.
pub data Step : ClientApp → ClientApp → Type 0 where
  edits :
      (app : ClientApp) (settings : ClientSettings) → Step app (record app { settings = settings })
  saves : (app : ClientApp) (saved : Option Text) → Step app (save saved app)
  starts :
      (app : ClientApp) (show : Refusal → Text) (config : Checked AgentConfig) (saved : Option Text)
      → Step app (start show config saved app)
  stops : (app : ClientApp) → Step app (stop app)
  polls :
      (app : ClientApp) (updates : List AgentStatus) (disconnected finished : Bool)
      → Step app (poll_agent updates disconnected finished app)
  polls_tray :
      (app : ClientApp) (quit show close_requested tray : Bool)
      → Step app ((poll_tray quit show close_requested tray app).0)

pub data IsReachable (settings : ClientSettings) : ClientApp → Type 0 where
  begins : IsReachable settings (new settings)
  goes_on :
      {app app' : ClientApp} → IsReachable settings app → Step app app' → IsReachable settings app'

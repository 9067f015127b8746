-- ===== src/Desktop/ConnectApp.antt =====
-- src/desktop.rs, `ConnectApp`: the window of the controller. A search for devices is the number of
-- its thread; times are milliseconds; what the world answers is an argument. Drawing is left out.
use rust_ssh.Prelude.{
  ◌≡◌, ℕ, suc, ◌-◌, ◌&&◌, ◌||◌, Bool, true, false, not, List, [], ◌∷◌, ◌++◌, Option, none, some,
  leb, if◌then◌else◌, list_eq, any, is_empty, length, Text, codes, trim, lookup, insert, remove,
}
use rust_ssh.Pairing
use rust_ssh.Desktop.Checks.{
  Refusal, Checked, ok, error, ◌>>=◌, from_pairing, required_value, validate_ssh_user,
  valid_host_alias,
}
use rust_ssh.Desktop.ClientApp.{ClientConnectionState, stopped, connecting, connected, error_state}

-- `host_aliases` maps the id of a device to its Host.
pub record ConnectSettings : Type 0 where
  pub pairing_code : Text
  pub user : Text
  pub host_aliases : List (Text × Text)

pub record HostAliasEditor : Type 0 where
  pub device_id : Text
  pub value : Text

-- `searches` counts the threads, `cancelled` are those that were told to give up.
pub record ConnectApp : Type 0 where
  pub settings : ConnectSettings
  pub devices : List Text
  pub selected_device : Option Text
  pub status : Text
  pub connection_state : ClientConnectionState
  pub refresh_rx : Option ℕ
  pub refresh_cancel : Option ℕ
  pub last_refresh : ℕ
  pub first_update : Bool
  pub host_editor : Option HostAliasEditor
  pub searches : ℕ
  pub answered : ℕ
  pub cancelled : List ℕ

unfoldable pub new : ConnectSettings → ℕ → ConnectApp
new settings now = record {
  settings = settings;
  devices = [];
  selected_device = none;
  status = codes "请粘贴配置码";
  connection_state = stopped;
  refresh_rx = none;
  refresh_cancel = none;
  last_refresh = now;
  first_update = true;
  host_editor = none;
  searches = 0;
  answered = 0;
  cancelled = [];
}

abbrev pub set_connection_state : ClientConnectionState → Text → ConnectApp → ConnectApp
set_connection_state state status app = record app { connection_state = state; status = status }

unfoldable pub search : ConnectApp → ConnectApp
search app = set_connection_state connecting (codes "正在查找在线设备…") (record app {
  refresh_cancel = some app.searches;
  refresh_rx = some app.searches;
  searches = suc app.searches;
})

-- What a search brings: devices, an error, nothing yet, or the end of its thread.
pub data Received : Type 0 where
  found : List Text → Received
  not_found : Text → Received
  empty disconnected : Received

module _ (C : Pairing.Codecs) (show : Refusal → Text) (decimal : ℕ → Text) where
  unfoldable pub refresh_saved : Option Text → ConnectApp → ConnectApp
  unfolding search
  refresh_saved none app = search app
  refresh_saved (some e) app = set_connection_state error_state (codes "保存配置失败：" ++ e) app

  unfoldable pub refresh_with : Option Text → Checked Pairing.Config → ConnectApp → ConnectApp
  unfolding refresh_saved
  refresh_with saved (error e) app = set_connection_state error_state (codes "配置码无效：" ++ show e) app
  refresh_with saved (ok pairing) app = refresh_saved saved app

  -- `saved` is the error of `save_settings`.
  unfoldable pub refresh : Option Text → ConnectApp → ConnectApp
  unfolding refresh_with
  refresh saved app = elim app.refresh_rx [
    | some k ↦ app
    | none ↦ refresh_with saved (from_pairing (Pairing.decode C app.settings.pairing_code)) app
  ]

  abbrev pub still_there : List Text → Option Text → Option Text
  still_there devices none = none
  still_there devices (some id) = if any (λ item. list_eq item id) devices then some id else none

  unfoldable pub receive : ℕ → Received → ConnectApp → ConnectApp
  receive now (found devices) app =
      set_connection_state connected (codes "已找到 " ++ decimal (length devices) ++ codes " 台在线设备")
        (record app {
          refresh_rx = none;
          refresh_cancel = none;
          devices = devices;
          selected_device = still_there devices app.selected_device;
          last_refresh = now;
          answered = suc app.answered;
        })
  receive now (not_found e) app =
      set_connection_state error_state (codes "查找失败：" ++ e) (record app {
        refresh_rx = none;
        refresh_cancel = none;
        last_refresh = now;
        answered = suc app.answered;
      })
  receive now empty app = app
  receive now disconnected app = set_connection_state error_state (codes "查找线程已退出") (record app {
    refresh_rx = none;
    refresh_cancel = none;
    last_refresh = now;
    answered = suc app.answered;
  })

  unfoldable pub poll_refresh : ℕ → Received → ConnectApp → ConnectApp
  unfolding receive
  poll_refresh now received app = elim app.refresh_rx [
    | none ↦ app
    | some k ↦ receive now received app
  ]

  -- `update`, before it draws.
  abbrev pub refresh_if : Bool → Option Text → ConnectApp → ConnectApp
  refresh_if wanted saved app = if wanted then refresh saved app else app

  abbrev pub is_none : Option ℕ → Bool
  is_none none = true
  is_none (some k) = false

  unfoldable pub refresh_due : ℕ → Option Text → ConnectApp → ConnectApp
  refresh_due now saved app =
      let filled = not (is_empty (trim app.settings.pairing_code)) in
      if app.first_update
      then refresh_if filled saved (record app { first_update = false })
      else refresh_if (is_none app.refresh_rx && leb 10000 (now - app.last_refresh) && filled) saved
          app

  unfoldable pub update : ℕ → Received → Option Text → ConnectApp → ConnectApp
  unfolding poll_refresh refresh_due
  update now received saved app = refresh_due now saved (poll_refresh now received app)

  unfoldable pub validate_connection : ConnectApp → Checked (Unit {0})
  validate_connection app = do
    pairing ← from_pairing (Pairing.decode C app.settings.pairing_code)
    user ← required_value app.settings.user
    validate_ssh_user user

abbrev pub valid_or : Text → Option Text → Text
valid_or device_id none = device_id
valid_or device_id (some alias) = if valid_host_alias alias then alias else device_id

unfoldable pub host_alias_for : ConnectApp → Text → Text
host_alias_for app device_id = valid_or device_id (lookup device_id app.settings.host_aliases)

-- Another device has the alias.
abbrev pub is_taken : Text → Text → List (Text × Text) → Bool
is_taken device_id alias aliases =
    any (λ entry. not (list_eq entry.0 device_id) && list_eq entry.1 alias) aliases

abbrev pub with_aliases : List (Text × Text) → ConnectApp → ConnectApp
with_aliases aliases app = record app { settings = record app.settings { host_aliases = aliases } }

-- `saved` is the error of `save_settings`.
abbrev pub after_save : Option Text → ConnectApp → ConnectApp
after_save none app = app
after_save (some e) app = record app { status = codes "保存 Host 昵称失败：" ++ e }

unfoldable pub save_alias : Option Text → Text → Text → ConnectApp → ConnectApp
save_alias saved device_id alias app =
    if is_empty alias || list_eq alias device_id
    then after_save saved (record (with_aliases (remove device_id app.settings.host_aliases) app) {
      status = codes "已恢复默认 Host 昵称";
    })
    else (if not (valid_host_alias alias)
        then record app { status = codes "Host 昵称只能使用字母、数字、点、下划线和短横线" }
        else (if is_taken device_id alias app.settings.host_aliases
            then record app { status = codes "这个 Host 昵称已经被其他设备使用" }
            else after_save saved
                (record (with_aliases (insert device_id alias app.settings.host_aliases) app) {
                  status = codes "Host 昵称已设置为 " ++ alias;
                })))

unfoldable pub save_host_alias : Option Text → Text → Text → ConnectApp → ConnectApp
unfolding save_alias
save_host_alias saved device_id value app = save_alias saved device_id (trim value) app

-- `show_host_editor`, after drawing, by the button that was clicked.
unfoldable pub finish_editor : Option Text → Bool → Bool → ConnectApp → ConnectApp
unfolding save_host_alias
finish_editor saved save cancel app = elim app.host_editor [
  | none ↦ app
  | some editor ↦
      if save
      then save_host_alias saved editor.device_id editor.value (record app { host_editor = none })
      else (if cancel then record app { host_editor = none } else app)
]

-- `drop`.
unfoldable pub drop_app : ConnectApp → ConnectApp
drop_app app = elim app.refresh_cancel [
  | none ↦ app
  | some k ↦ record app { refresh_cancel = none; cancelled = k ∷ app.cancelled }
]

-- What happens to a window, in any order. The text fields change the code and the user; a device is
-- selected and its alias edited from the list; `connect_selected` and `configure_selected` change
-- the status alone.
pub data Step (C : Pairing.Codecs) (show : Refusal → Text) (decimal : ℕ → Text)
    : ConnectApp → ConnectApp → Type 0 where
  edits :
      (app : ConnectApp) (pairing_code user : Text)
      → Step C show decimal app (record app {
        settings = record app.settings { pairing_code = pairing_code; user = user };
      })
  updates :
      (app : ConnectApp) (now : ℕ) (received : Received) (saved : Option Text)
      → Step C show decimal app (update C show decimal now received saved app)
  refreshes :
      (app : ConnectApp) (saved : Option Text)
      → Step C show decimal app (refresh C show decimal saved app)
  selects :
      (app : ConnectApp) (device : Text)
      → any (λ item. list_eq item device) app.devices ≡ true
      → Step C show decimal app (record app { selected_device = some device })
  opens_editor :
      (app : ConnectApp) (editor : Option HostAliasEditor)
      → Step C show decimal app (record app { host_editor = editor })
  closes_editor :
      (app : ConnectApp) (saved : Option Text) (save cancel : Bool)
      → Step C show decimal app (finish_editor saved save cancel app)
  reports :
      (app : ConnectApp) (status : Text) → Step C show decimal app (record app { status = status })

pub data IsReachable (C : Pairing.Codecs) (show : Refusal → Text) (decimal : ℕ → Text)
    (settings : ConnectSettings) (now : ℕ) : ConnectApp → Type 0 where
  begins : IsReachable C show decimal settings now (new settings now)
  goes_on :
      {app app' : ConnectApp}
      → IsReachable C show decimal settings now app
      → Step C show decimal app app'
      → IsReachable C show decimal settings now app'

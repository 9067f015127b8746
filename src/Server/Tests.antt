-- ===== src/Server/Tests.antt =====
-- Who the server lets in, at concrete tokens.
use rust_ssh.Prelude.{
  refl, Always, lookup, insert, remove, false, ℕ, ◌≡◌, ◌↔◌, true, List, [], ◌∷◌, none, some, Text,
  codes, arith,
}
use rust_ssh.Prelude.Utf8.{IsText}
use rust_ssh.Protocol.{agent, controller, ping, pong, default_heartbeat}
use rust_ssh.Protocol.Net.{Formats, fails, returned, task_result}
use rust_ssh.Prelude
use rust_ssh.DeviceId
use rust_ssh.Server.Tokens.{
  Entry, unlisted, no_file, a_file, TokenFiles, AuthSnapshot, loaded, load_auth_snapshot,
  auth_after, load_entry, load_loop, collect_tokens, insert_record, spawn_auth_reload,
}
use rust_ssh.Server.LoadLaws.{token_in, trimmed}
use rust_ssh.Server.TokensLaws.{load_auth_snapshot-authenticate}
use rust_ssh.Server.ReloadLaws.{IsLastValid, auth_after-IsLastValid}
use rust_ssh.Server.Auth.{AuthError, validate_token, authenticate}
use rust_ssh.Server.Calls.{default_timing}
use rust_ssh.Server.Connection.{handle_connection}
use rust_ssh.Server.ConnectionLaws.{IsGuarded, handle_connection-IsGuarded}
use rust_ssh.Server.Registry
use rust_ssh.Server.Registry.{
  World, empty_world, connect, unregister, removed_if, connects, registers, IsReachable, starts,
  goes,
}
use rust_ssh.Server.RegistryLaws.{AllBounded, IsReachable-AllBounded}
use rust_ssh.Server.OwnerLaws.{IsOwned, IsReachable-IsOwned}
use rust_ssh.Server.Agent.{
  AgentEvent, frame, dead_timer, reader_ended, AgentLoop, handle_agent, is_enabled, turn,
  frame_turn, send, clean_up,
}
use rust_ssh.Server.AgentLaws.{handle_agent-awaits_once}
use rust_ssh.Server.AuthLaws.{MayEnter, authenticate_iff}

abbrev a_token : Text
a_token = codes "0123456789abcdef0123456789abcdef"

a_token-IsText : IsText a_token
a_token-IsText = ground arith

abbrev tokens : List (Text × Text)
tokens = (codes "d1", a_token) ∷ []

-- A zero byte more is not the same.
abbrev short : List ℕ
short = 1 ∷ []

abbrev long : List ℕ
long = 1 ∷ 0 ∷ []

authenticate_iff_example :
    (authenticate agent (some (codes "d1")) a_token a_token tokens ≡ none)
    ↔ MayEnter agent (some (codes "d1")) a_token a_token tokens
authenticate_iff_example =
    authenticate_iff agent (some (codes "d1")) a_token a_token tokens a_token-IsText a_token-IsText
      (a_token-IsText, tt)

abbrev formats : Formats
formats = record { debug = λ m. codes "message"; decimal = λ n. codes "0" }

abbrev show_auth : AuthError → Text
show_auth e = codes "refused"

handle_connection-IsGuarded_example :
    Always (λ log o. IsGuarded log) [] (handle_connection formats show_auth default_timing 7)
handle_connection-IsGuarded_example = handle_connection-IsGuarded formats show_auth default_timing 7

-- An agent connects again before its first connection is gone, and a session waits for it.
abbrev reconnected : World
reconnected =
    (Registry.register_pending 1 (codes "s") 5
      (connect (codes "d1") (connect (codes "d1") empty_world))).1

reconnected-IsReachable : IsReachable reconnected
reconnected-IsReachable =
    goes (goes (goes starts (connects (codes "d1") _)) (connects (codes "d1") _))
      (registers 1 (codes "s") 5 _)

IsReachable-IsOwned_example : IsOwned reconnected
IsReachable-IsOwned_example = IsReachable-IsOwned reconnected reconnected-IsReachable

IsReachable-AllBounded_example : AllBounded reconnected
IsReachable-AllBounded_example = IsReachable-AllBounded reconnected reconnected-IsReachable

-- The first connection leaves after it was replaced, and the entry stays its successor's.
successor_stays :
    lookup
      (codes "d1")
      (unregister (codes "d1") 0 (connect (codes "d1") (connect (codes "d1") empty_world))).devices
    ≡ some 1
unfolding unregister removed_if connect insert remove lookup
successor_stays = refl

abbrev events : List AgentEvent
events = frame 20 ping true ∷ dead_timer 30 ∷ reader_ended (returned (fails (codes "gone"))) ∷ []

abbrev after_events : AgentLoop
after_events = record {
  last_agent_frame = 20;
  reader_consumed = true;
  writer_consumed = false;
  queued = pong ∷ [];
  reader_awaits = 1;
  writer_awaits = 1;
}

handle_agent-awaits_once_example :
    (after_events.reader_awaits ≡ 1) × (after_events.writer_awaits ≡ 1)
unfolding handle_agent is_enabled turn frame_turn send clean_up task_result
handle_agent-awaits_once_example =
    handle_agent-awaits_once formats (λ n. codes "0") default_heartbeat true 10 events
      (fails (codes "gone")) after_events refl

-- A directory with a file that is none, and the token of one device with a line feed.
abbrev entries : List Entry
entries =
    no_file
    ∷ a_file (record {
      path = codes "/d/d1.token";
      file_name = some (codes "d1.token");
      content = some (codes "0123456789abcdef0123456789abcdef\n");
    })
    ∷ []

abbrev files : TokenFiles
files = record { controller_token_file = some a_token; devices_dir = some entries }

abbrev broken_files : TokenFiles
broken_files = record { controller_token_file = some a_token; devices_dir = some (unlisted ∷ []) }

abbrev auth : AuthSnapshot
auth = record { controller_token = a_token; device_tokens = tokens }

files_load : load_auth_snapshot files ≡ loaded auth
unfolding load_auth_snapshot load_entry load_loop collect_tokens insert_record validate_token insert
    remove Prelude.trim Prelude.len Prelude.is_whitespace Prelude.strip_suffix Prelude.strip_prefix
    DeviceId.is_valid Prelude.is_ascii_alphanumeric
files_load = refl

reloads : auth_after files (broken_files ∷ []) ≡ loaded auth
unfolding auth_after spawn_auth_reload load_auth_snapshot load_entry load_loop collect_tokens
    insert_record validate_token insert remove Prelude.trim Prelude.len Prelude.is_whitespace
    Prelude.strip_suffix Prelude.strip_prefix DeviceId.is_valid Prelude.is_ascii_alphanumeric
reloads = refl

load_auth_snapshot-authenticate_example :
    (listed : List Entry) × (files.devices_dir ≡ some listed)
    × ((authenticate agent (some (codes "d1")) a_token a_token tokens ≡ none)
        ↔ (token_in (codes "d1") listed ≡ some a_token))
    × ((authenticate controller none a_token a_token tokens ≡ none)
        ↔ (trimmed files.controller_token_file ≡ some a_token))
load_auth_snapshot-authenticate_example =
    load_auth_snapshot-authenticate files auth (codes "d1") a_token files_load a_token-IsText
      a_token-IsText (a_token-IsText, tt)

auth_after-IsLastValid_example :
    (first : AuthSnapshot) × (load_auth_snapshot files ≡ loaded first)
    × IsLastValid (broken_files ∷ []) first auth
auth_after-IsLastValid_example = auth_after-IsLastValid files (broken_files ∷ []) auth reloads

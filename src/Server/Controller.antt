-- ===== src/Server/Controller.antt =====
-- src/server.rs, `handle_controller`: one request for the devices or for a session.
use rust_ssh.Prelude.{
  ℕ, ◌/◌, ◌++◌, List, [], ◌∷◌, map, Bool, true, false, Option, none, some, if◌then◌else◌, ltb, ◌==◌,
  Text, as_bytes, codes, ret, call,
}
use rust_ssh.Protocol.{DeviceInfo, list_request, open_request, device_list, is_ready, refused}
use rust_ssh.Protocol.Net.{Incoming, received, read_error, read_elapsed, done, fails, Formats}
use rust_ssh.Server.Calls.{
  ServerTiming, handed, declined, Opened, answered, queue_closed, sender_dropped, open_elapsed,
  read_within, device_ids, find_device, register_pending, take_pending, respond, open_within,
  bidirectional, Handler, write_then,
}

abbrev pub max_pending_sessions_per_device : ℕ
max_pending_sessions_per_device = 32

-- The order of `str`, by bytes.
unfoldable pub bytes_leb : List ℕ → List ℕ → Bool
bytes_leb [] ys = true
bytes_leb (x ∷ xs) [] = false
bytes_leb (x ∷ xs) (y ∷ ys) = let rest = bytes_leb xs ys in if x == y then rest else ltb x y

unfoldable pub insert_device : DeviceInfo → List DeviceInfo → List DeviceInfo
unfolding bytes_leb
insert_device d [] = d ∷ []
insert_device d (e ∷ ds) =
    let rest = insert_device d ds in
    if bytes_leb (as_bytes d.device_id) (as_bytes e.device_id) then d ∷ e ∷ ds else e ∷ rest

unfoldable pub sort_devices : List DeviceInfo → List DeviceInfo
unfolding insert_device
sort_devices [] = []
sort_devices (d ∷ ds) = insert_device d (sort_devices ds)

module _ (F : Formats) (timing : ServerTiming) where
  abbrev pub answer_failed : Text → Text → Handler
  answer_failed session_id reason = write_then (refused session_id reason) (ret done)

  abbrev pub agent_gone : Text
  agent_gone = codes "device agent disconnected before session started"

  abbrev pub agent_closed : Text
  agent_closed = codes "agent closed before accepting session"

  -- An error other than the deadline takes the session back, and answers a sender that it found.
  unfoldable pub give_up : Text → Text → Option ℕ → Handler
  give_up session_id reason none = answer_failed session_id reason
  give_up session_id reason (some sender) =
      call (respond sender (declined reason)) λ _. answer_failed session_id reason

  unfoldable pub open_result : ℕ → Text → Opened → Handler
  unfolding give_up
  open_result device session_id (answered (handed agent_stream)) =
      write_then (is_ready session_id) (call (bidirectional agent_stream) ret)
  open_result device session_id (answered (declined reason)) = answer_failed session_id reason
  open_result device session_id queue_closed =
      call (take_pending device session_id) (give_up session_id agent_gone)
  open_result device session_id sender_dropped =
      call (take_pending device session_id) (give_up session_id agent_closed)
  open_result device session_id open_elapsed = call (take_pending device session_id) λ _.
      answer_failed session_id (
        codes "agent did not respond within "
        ++ F.decimal (timing.open_timeout / 1000)
        ++ codes " seconds")

  unfoldable pub registered : ℕ → Text → Bool → Handler
  unfolding open_result
  registered device session_id false = answer_failed session_id (
      codes "device has too many pending SSH sessions (limit: "
      ++ F.decimal max_pending_sessions_per_device
      ++ codes ")")
  registered device session_id true =
      call (open_within timing.open_timeout device session_id) (open_result device session_id)

  unfoldable pub open_on : Text → Text → Option ℕ → Handler
  unfolding registered
  open_on target session_id none = answer_failed session_id (codes "device is offline: " ++ target)
  open_on target session_id (some device) =
      call (register_pending device session_id) (registered device session_id)

  abbrev pub list_devices : List Text → Handler
  unfolding sort_devices
  list_devices ids =
      write_then (device_list (sort_devices (map (λ (id : Text). record { device_id = id }) ids)))
        (ret done)

  unfoldable pub request : Incoming → Handler
  unfolding open_on list_devices
  request (received list_request) = call device_ids list_devices
  request (received (open_request target session_id)) =
      call (find_device target) (open_on target session_id)
  request (received m) = ret (fails (codes "controller did not send a valid request"))
  request (read_error e) = ret (fails e)
  request read_elapsed = ret (fails (codes "timed out waiting for controller request"))

  unfoldable pub handle_controller : Handler
  unfolding request
  handle_controller = call (read_within timing.request_timeout) request

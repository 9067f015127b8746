-- ===== src/Server/Registry.antt =====
-- The shared state of src/server.rs: the devices that are connected and the sessions that wait for
-- them. A device (`Arc<Device>`) is known by its number, the cell that it stands in; so `Arc::ptr_eq`
-- compares numbers. Each function holds the lock of what it changes for all of its run.
use rust_ssh.Prelude.{
  ℕ, ◌+◌, ◌≡◌, List, [], map, Bool, true, false, Option, none, some, ◌||◌, ◌==◌, leb, length,
  if◌then◌else◌, Text, lookup, insert, remove,
}
use rust_ssh.Server.Controller.{max_pending_sessions_per_device}

-- `shutdown_tx`: whether the sender is still there; `stop_device` takes and uses it.
pub record Device : Type 0 where
  pub pending : List (Text × ℕ)
  pub shutdown_tx : Bool

-- How far `handle_agent` of a device has come: not begun; about to stop the device that it replaced;
-- in its loop; past `fail_pending`; past `unregister`.
pub data Phase : Type 0 where
  unborn : Phase
  replacing : Text → Option ℕ → Phase
  serving : Text → Phase
  ended : Text → Phase
  left : Phase

pub record World : Type 0 where
  pub devices : List (Text × ℕ)
  pub cells : ℕ → Device
  pub phases : ℕ → Phase
  pub next : ℕ

abbrev pub put {ℓ} : {A : Type ℓ} → ℕ → A → (ℕ → A) → ℕ → A
put r a f k = if k == r then a else f k

abbrev pub new_device : Device
new_device = record { pending = []; shutdown_tx = true }

abbrev pub empty_world : World
empty_world = record { devices = []; cells = λ r. new_device; phases = λ r. unborn; next = 0 }

-- The first lines of `handle_agent`: a new device, and `devices.insert`, which gives the previous one.
unfoldable pub connect : Text → World → World
connect id w = record {
  devices = insert id w.next w.devices;
  cells = put w.next new_device w.cells;
  phases = put w.next (replacing id (lookup id w.devices)) w.phases;
  next = w.next + 1;
}

unfoldable pub stop_device : ℕ → World → World
stop_device r w = record w { cells = put r (record (w.cells r) { shutdown_tx = false }) w.cells }

unfoldable pub stop_previous : Option ℕ → World → World
unfolding stop_device
stop_previous none w = w
stop_previous (some r) w = stop_device r w

abbrev pub has_key : Option ℕ → Bool
has_key none = false
has_key (some v) = true

-- Whether the session now waits, and the device after.
unfoldable pub register_in : Text → ℕ → Device → Bool × Device
register_in session_id sender d =
    if leb max_pending_sessions_per_device (length d.pending)
      || has_key (lookup session_id d.pending)
    then (false, d)
    else (true, record d { pending = insert session_id sender d.pending })

unfoldable pub register_pending : ℕ → Text → ℕ → World → Bool × World
unfolding register_in
register_pending r session_id sender w =
    let (ok, d) = register_in session_id sender (w.cells r) in
    (ok, record w { cells = put r d w.cells })

unfoldable pub take_pending : ℕ → Text → World → Option ℕ × World
take_pending r session_id w = (
  lookup session_id (w.cells r).pending,
  record w {
    cells = put r (record (w.cells r) { pending = remove session_id (w.cells r).pending }) w.cells;
  },
)

-- The senders that get the error, and the world after.
unfoldable pub fail_pending : ℕ → World → List ℕ × World
fail_pending r w = (
  map (λ e. e.1) (w.cells r).pending,
  record w { cells = put r (record (w.cells r) { pending = [] }) w.cells },
)

unfoldable pub removed_if : Text → ℕ → Option ℕ → List (Text × ℕ) → List (Text × ℕ)
removed_if id r none devices = devices
removed_if id r (some current) devices = if current == r then remove id devices else devices

unfoldable pub unregister : Text → ℕ → World → World
unfolding removed_if
unregister id r w = record w { devices = removed_if id r (lookup id w.devices) w.devices }

abbrev pub with_phase : ℕ → Phase → World → World
with_phase r p w = record w { phases = put r p w.phases }

-- One step of some task: the handlers of the devices go from phase to phase, and the handlers of
-- controllers and agent sessions register and take sessions at any time, of any device.
pub data Step : World → World → Type 0 where
  connects : (id : Text) (w : World) → Step w (connect id w)
  stops :
      (r : ℕ) (id : Text) (previous : Option ℕ) (w : World)
      → w.phases r ≡ replacing id previous
      → Step w (with_phase r (serving id) (stop_previous previous w))
  ends :
      (r : ℕ) (id : Text) (w : World)
      → w.phases r ≡ serving id
      → Step w (with_phase r (ended id) (fail_pending r w).1)
  leaves :
      (r : ℕ) (id : Text) (w : World)
      → w.phases r ≡ ended id
      → Step w (with_phase r left (unregister id r w))
  registers :
      (r : ℕ) (session_id : Text) (sender : ℕ) (w : World)
      → Step w (register_pending r session_id sender w).1
  takes : (r : ℕ) (session_id : Text) (w : World) → Step w (take_pending r session_id w).1

-- What can come of a server that begins with no device.
pub data IsReachable : World → Type 0 where
  starts : IsReachable empty_world
  goes : {w v : World} → IsReachable w → Step w v → IsReachable v

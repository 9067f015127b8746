-- ===== src/Server/Permits.antt =====
-- src/server.rs: the loop of `run_with_timing` that accepts connections, and where the permits of its
-- semaphore go. A connection's task is known by its number, and so is the channel of a handoff.
use rust_ssh.Prelude.{ℕ, ◌+◌, ◌-◌, List, [], ◌∷◌, Bool, false, ◌==◌, if◌then◌else◌}

abbrev pub max_connections : ℕ
max_connections = 128

-- Where a permit is: with the task of a connection, or in the channel of a handoff, with a stream.
pub data Place : Type 0 where
  in_task in_channel : ℕ → Place

abbrev pub same_place : Place → Place → Bool
same_place (in_task m) (in_task n) = m == n
same_place (in_channel m) (in_channel n) = m == n
same_place p q = false

pub record Semaphore : Type 0 where
  pub available : ℕ
  pub held : List Place
  pub next : ℕ

abbrev pub new_semaphore : Semaphore
new_semaphore = record { available = max_connections; held = []; next = 0 }

-- `try_acquire_owned`, and the task that is spawned with the permit; without one the connection is
-- dropped.
unfoldable pub accept : Semaphore → Semaphore
accept s =
    if s.available == 0
    then s
    else record { available = s.available - 1; held = in_task s.next ∷ s.held; next = s.next + 1 }

-- The permits at a place, counted, and the others.
unfoldable pub gather : Place → List Place → ℕ × List Place
gather place [] = (0, [])
gather place (p ∷ held) =
    let (count, others) = gather place held in
    if same_place p place then (count + 1, others) else (count, p ∷ others)

-- What is at the place is dropped: a task that ends, or a channel whose receiver is gone.
unfoldable pub release : Place → Semaphore → Semaphore
unfolding gather
release place s =
    let (count, others) = gather place s.held in
    record s { available = s.available + count; held = others }

-- One permit at a place is moved with its stream.
unfoldable pub moved : Place → Place → List Place → List Place
moved from to [] = []
moved from to (p ∷ held) =
    let others = moved from to held in if same_place p from then to ∷ held else p ∷ others

unfoldable pub move_permit : Place → Place → Semaphore → Semaphore
unfolding moved
move_permit from to s = record s { held = moved from to s.held }

-- What can happen, in any order: `handle_agent_session` sends the permit of its task over the channel
-- of a handoff, and `handle_controller` receives it.
pub data Step : Semaphore → Semaphore → Type 0 where
  accepts : (s : Semaphore) → Step s (accept s)
  task_ends : (task : ℕ) (s : Semaphore) → Step s (release (in_task task) s)
  hands_over :
      (task sender : ℕ) (s : Semaphore) → Step s (move_permit (in_task task) (in_channel sender) s)
  receives :
      (sender task : ℕ) (s : Semaphore) → Step s (move_permit (in_channel sender) (in_task task) s)
  receiver_gone : (sender : ℕ) (s : Semaphore) → Step s (release (in_channel sender) s)

pub data IsReachable : Semaphore → Type 0 where
  starts : IsReachable new_semaphore
  goes : {s t : Semaphore} → IsReachable s → Step s t → IsReachable t

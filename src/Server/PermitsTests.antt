-- ===== src/Server/PermitsTests.antt =====
-- The theorem on the permits after a session was handed over and its controller ended.
use rust_ssh.Prelude.{◌≡◌, refl, []}
use rust_ssh.Server.Permits.{
  Semaphore, max_connections, new_semaphore, accept, release, moved, move_permit, gather, in_task,
  in_channel,
}

abbrev two_connections : Semaphore
two_connections = accept (accept new_semaphore)

abbrev handed_over : Semaphore
handed_over =
    move_permit (in_channel 7) (in_task 0) (move_permit (in_task 1) (in_channel 7) two_connections)

abbrev ended : Semaphore
ended = release (in_task 0) handed_over

-- Both permits are free again.
ended_lem : ended ≡ record { available = max_connections; held = []; next = 2 }
unfolding accept release moved move_permit gather
ended_lem = refl

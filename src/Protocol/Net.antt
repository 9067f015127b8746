-- ===== src/Protocol/Net.antt =====
-- What the waits of the endpoints answer, and the formats of their error texts.
use rust_ssh.Prelude.{ℕ, ◌++◌, Text, codes}
use rust_ssh.Protocol.{Message}

-- `timeout(…, read_frame(…)).await`.
pub data Incoming : Type 0 where
  received : Message → Incoming
  read_error : Text → Incoming
  read_elapsed : Incoming

-- `timeout(…, write_frame(…)).await`; without a timeout it does not elapse.
pub data Outgoing : Type 0 where
  went_out : Outgoing
  write_error : Text → Outgoing
  write_elapsed : Outgoing

-- `Result<()>`, with the text of the error.
pub data Outcome : Type 0 where
  done : Outcome
  fails : Text → Outcome

-- How a task that was spawned ends: its result, or a panic.
pub data TaskEnd : Type 0 where
  returned : Outcome → TaskEnd
  panicked : Text → TaskEnd

-- What a branch of a `select!` in a loop does.
pub data Turn (S : Type 0) : Type 0 where
  breaks : Outcome → S → Turn S
  continues : S → Turn S

-- What the handle's result makes of the loop, by the name of the task.
unfoldable pub task_result : Text → TaskEnd → Outcome
task_result name (returned done) = fails (name ++ codes " ended")
task_result name (returned (fails e)) = fails e
task_result name (panicked e) = fails (name ++ codes " task failed: " ++ e)

-- `{:?}` of a message, and a number in decimal.
pub record Formats : Type 0 where
  pub debug : Message → Text
  pub decimal : ℕ → Text

-- ===== src/Server/Logs.antt =====
-- What is read off the log of a handler's calls, the last call first.
use rust_ssh.Prelude.{
  ℕ, ◌+◌, List, [], ◌∷◌, none, some, true, ◌&&◌, ◌==◌, ◌≡◌, arith, if◌then◌else◌, list_eq,
  list_eq_refl, Text, Event, Always,
}
use rust_ssh.Protocol.{Message, list_request, open_request, session_attach, is_ready}
use rust_ssh.Protocol.Net.{Outcome, fails, received}
use rust_ssh.Server.Calls.{
  handed, answered, Call, read_within, write, register_pending, take_pending, respond, open_within,
  bidirectional, Reply, Handler, write_then, after_write,
}

abbrev pub Log : Type 0
Log = List (Event Call Reply)

-- The senders that were taken from the pending sessions.
abbrev pub taken : Log → List ℕ
taken [] = []
taken ((take_pending device id, some sender) ∷ log) = sender ∷ taken log
taken (e ∷ log) = taken log

-- The senders that were answered.
abbrev pub responded : Log → List ℕ
responded [] = []
responded ((respond sender handoff, r) ∷ log) = sender ∷ responded log
responded (e ∷ log) = responded log

-- The streams that were handed over.
abbrev pub handovers : Log → List ℕ
handovers [] = []
handovers ((respond sender (handed stream), r) ∷ log) = stream ∷ handovers log
handovers (e ∷ log) = handovers log

-- The sessions that were asked for by `SessionAttach`, and those that were reported `Ready`.
abbrev pub attaches : Log → List Text
attaches [] = []
attaches ((read_within t, received (session_attach id)) ∷ log) = id ∷ attaches log
attaches (e ∷ log) = attaches log

abbrev pub readies : Log → List Text
readies [] = []
readies ((read_within t, received (is_ready id)) ∷ log) = id ∷ readies log
readies (e ∷ log) = readies log

-- The time that the waits with a deadline may take.
abbrev pub waited : Log → ℕ
waited [] = 0
waited ((read_within t, r) ∷ log) = t + waited log
waited ((open_within t device id, r) ∷ log) = t + waited log
waited (e ∷ log) = waited log

-- The frames that were written.
abbrev pub written : Log → List Message
written [] = []
written ((write m, r) ∷ log) = m ∷ written log
written (e ∷ log) = written log

abbrev pub without : ℕ → Text → List (ℕ × Text) → List (ℕ × Text)
without device id [] = []
without device id ((d, i) ∷ ps) =
    let rest = without device id ps in if device == d && list_eq id i then rest else (d, i) ∷ rest

-- The sessions that were registered, and not since answered or taken back.
abbrev pub waiting : Log → List (ℕ × Text)
waiting [] = []
waiting ((register_pending device id, true) ∷ log) = (device, id) ∷ waiting log
waiting ((open_within t device id, answered handoff) ∷ log) = without device id (waiting log)
waiting ((take_pending device id, r) ∷ log) = without device id (waiting log)
waiting (e ∷ log) = waiting log

pub without_same : (device : ℕ) (id : Text) → without device id ((device, id) ∷ []) ≡ []
without_same device id = ground (arith, list_eq_refl id)

-- The requests for the devices or for a session.
abbrev pub requests : Log → ℕ
requests [] = 0
requests ((read_within t, received list_request) ∷ log) = 1 + requests log
requests ((read_within t, received (open_request target id)) ∷ log) = 1 + requests log
requests (e ∷ log) = requests log

-- The agent streams that were handed to a controller, and those that it was joined with.
abbrev pub offered : Log → List ℕ
offered [] = []
offered ((open_within t device id, answered (handed stream)) ∷ log) = stream ∷ offered log
offered (e ∷ log) = offered log

abbrev pub joined : Log → List ℕ
joined [] = []
joined ((bidirectional stream, r) ∷ log) = stream ∷ joined log
joined (e ∷ log) = joined log

-- A write that ends the handler if it fails.
pub write_then-Always :
    (P : Log → Outcome → Type 0) (log : Log) (m : Message) (next : Handler)
    → ((e : Text) → P ((write m, some e) ∷ log) (fails e))
    → Always P ((write m, none) ∷ log) next
    → Always P log (write_then m next)
unfolding after_write
write_then-Always P log m next failed sent none = sent
write_then-Always P log m next failed sent (some e) = failed e

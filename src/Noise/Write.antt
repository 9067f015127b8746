-- ===== src/Noise/Write.antt =====
-- src/noise.rs, the write side of `NoiseStream`: one encrypted frame at a time is pushed out before
-- the next is made.
use rust_ssh.Prelude.{
  ℕ, zero, suc, ◌+◌, ◌-◌, List, [], ◌∷◌, ◌++◌, Option, none, some, length, take, drop, ltb, ◌==◌,
  if◌then◌else◌, is_empty, min, to_be_bytes,
}
use rust_ssh.Noise.{
  Transport, Acceptance, busy, accepts, refuses, write_zero, invalid_write_length, noise_error,
  inner_error, Poll, pending, ready, failed, NoiseStream, PendingWrite, max_plaintext_chunk,
}

-- What the loop over a pending write leaves.
pub record Pushed : Type 0 where
  pub answer : Poll (Option ℕ)
  pub left : Option PendingWrite
  pub answers : List Acceptance
  pub out : List ℕ

-- `poll_write` of the inner stream on `wire[offset..]`. With no answer left it is not ready. An
-- answer beyond the buffer is refused before the offset moves.
unfoldable pub push : PendingWrite → List Acceptance → List ℕ → Pushed
push p [] out =
    if p.offset == length p.wire
    then record { answer = ready (some p.plaintext_len); left = none; answers = []; out = out }
    else record { answer = pending; left = some p; answers = []; out = out }
push p (busy ∷ r) out =
    if p.offset == length p.wire
    then record {
      answer = ready (some p.plaintext_len);
      left = none;
      answers = busy ∷ r;
      out = out;
    }
    else record { answer = pending; left = some p; answers = r; out = out }
push p (refuses ∷ r) out =
    if p.offset == length p.wire
    then record {
      answer = ready (some p.plaintext_len);
      left = none;
      answers = refuses ∷ r;
      out = out;
    }
    else record { answer = failed inner_error; left = some p; answers = r; out = out }
push p (accepts n ∷ r) out =
    let out' = out ++ take n (drop p.offset p.wire) in
    let rest = push (record p { offset = p.offset + n }) r out' in
    if p.offset == length p.wire
    then record {
      answer = ready (some p.plaintext_len);
      left = none;
      answers = accepts n ∷ r;
      out = out;
    }
    else (if n == 0
        then record { answer = failed write_zero; left = some p; answers = r; out = out }
        else (if ltb (length p.wire - p.offset) n
            then record {
              answer = failed invalid_write_length;
              left = some p;
              answers = r;
              out = out';
            }
            else rest))

-- The frame of a new write: the length of the ciphertext as four bytes, and the ciphertext.
unfoldable pub frame : List ℕ → List ℕ
frame c = to_be_bytes (length c) ++ c

module _ {S : Type 0} where
  abbrev pub with_push : NoiseStream S → Pushed → NoiseStream S
  with_push s p = record s { pending_write = p.left; acceptances = p.answers; sent = p.out }

  unfoldable pub poll_pending_write : NoiseStream S → Poll (Option ℕ) × NoiseStream S
  poll_pending_write s = elim s.pending_write [
    | none ↦ (ready none, s)
    | some p ↦ let q = push p s.acceptances s.sent in (q.answer, with_push s q)
  ]

  -- `Ready(Ok(None))` after a frame was put in place is `unreachable!` in the source.
  unfoldable pub after_new_write : Poll (Option ℕ) × NoiseStream S → Poll ℕ × NoiseStream S
  after_new_write (pending, s) = (pending, s)
  after_new_write (failed e, s) = (failed e, s)
  after_new_write (ready (some n), s) = (ready n, s)
  after_new_write (ready none, s) = (failed noise_error, s)

  unfoldable pub new_write : Transport S → List ℕ → NoiseStream S → Poll ℕ × NoiseStream S
  unfolding after_new_write poll_pending_write frame
  new_write T buffer s =
      let plaintext_len = min (length buffer) max_plaintext_chunk in
      elim (T.write_message s.transport (take plaintext_len buffer)) [
        | none ↦ (failed noise_error, s)
        | some (c, t) ↦ after_new_write (
            poll_pending_write (record s {
              transport = t;
              pending_write =
                  some (record { wire = frame c; offset = 0; plaintext_len = plaintext_len });
            }))
      ]

  -- A frame that is still pending is finished first, and its count is the answer.
  unfoldable pub poll_write_after :
      Transport S → List ℕ → Poll (Option ℕ) × NoiseStream S → Poll ℕ × NoiseStream S
  unfolding new_write
  poll_write_after T buffer (pending, s) = (pending, s)
  poll_write_after T buffer (failed e, s) = (failed e, s)
  poll_write_after T buffer (ready (some n), s) = (ready n, s)
  poll_write_after T buffer (ready none, s) =
      if is_empty buffer then (ready 0, s) else new_write T buffer s

  unfoldable pub poll_write : Transport S → List ℕ → NoiseStream S → Poll ℕ × NoiseStream S
  unfolding poll_write_after poll_pending_write
  poll_write T buffer s = poll_write_after T buffer (poll_pending_write s)

  -- `poll_flush` and `poll_shutdown` have one shape; `inner` is what the inner stream's answers. The
  -- source calls itself again after it finished a frame; `none` is that call without fuel.
  unfoldable pub finish_next :
      (NoiseStream S → Option (Poll (Unit {0}) × NoiseStream S))
      → Poll (Unit {0})
      → Poll (Option ℕ) × NoiseStream S
      → Option (Poll (Unit {0}) × NoiseStream S)
  finish_next again inner (pending, s) = some (pending, s)
  finish_next again inner (failed e, s) = some (failed e, s)
  finish_next again inner (ready (some n), s) = again s
  finish_next again inner (ready none, s) = some (inner, s)

  unfoldable pub poll_finish :
      ℕ → Poll (Unit {0}) → NoiseStream S → Option (Poll (Unit {0}) × NoiseStream S)
  unfolding poll_pending_write finish_next
  poll_finish zero inner s = none
  poll_finish (suc fuel) inner s = finish_next (poll_finish fuel inner) inner (poll_pending_write s)

  unfoldable pub poll_flush :
      Poll (Unit {0}) → NoiseStream S → Option (Poll (Unit {0}) × NoiseStream S)
  unfolding poll_finish
  poll_flush inner s = poll_finish 2 inner s

  unfoldable pub poll_shutdown :
      Poll (Unit {0}) → NoiseStream S → Option (Poll (Unit {0}) × NoiseStream S)
  unfolding poll_finish
  poll_shutdown inner s = poll_finish 2 inner s

-- ===== src/Noise/FlushView.antt =====
-- src/noise.rs, `poll_flush` and `poll_shutdown`: the call that they make of themselves comes once at
-- most, and what they answer accounts for the pending frame.
use rust_ssh.Prelude.{ℕ, suc, ◌≡◌, refl, subst, ◌++◌, Option, none, some, Option-cases, inl, inr}
use rust_ssh.Noise.{Poll, pending, ready, failed, NoiseStream, PendingWrite, invalid_write_length}
use rust_ssh.Noise.Write.{
  Pushed, push, with_push, finish_next, poll_finish, poll_flush, poll_shutdown,
}
use rust_ssh.Noise.WriteView.{
  owed, IsWithin, Pushes, push-Pushes, poll_pending_write_idle, poll_pending_write_busy,
}

module _ {S : Type 0} where
  -- What an answer `r` and the stream `s'` after it are to the stream before.
  pub record Settles (inner : Poll (Unit {0})) (s : NoiseStream S) (r : Poll (Unit {0}))
      (s' : NoiseStream S) : Type 0 where
    pub conserved :
        ¬ (r ≡ failed invalid_write_length)
        → s'.sent ++ owed s'.pending_write ≡ s.sent ++ owed s.pending_write
    pub done : (u : Unit {0}) → r ≡ ready u → (s'.pending_write ≡ none) × (inner ≡ ready u)

  finish_idle :
      (fuel : ℕ) (inner : Poll (Unit {0})) (s : NoiseStream S)
      → s.pending_write ≡ none
      → poll_finish (suc fuel) inner s ≡ some (inner, s)
  unfolding poll_finish finish_next
  finish_idle fuel inner s e = rw (poll_pending_write_idle s e) refl

  Finished : ℕ → Poll (Unit {0}) → NoiseStream S → Type 0
  Finished fuel inner s =
      (r : Poll (Unit {0})) × (s' : NoiseStream S) × (poll_finish fuel inner s ≡ some (r, s'))
      × Settles inner s r s'

  finish_idle-Finished :
      (inner : Poll (Unit {0})) (s : NoiseStream S) → s.pending_write ≡ none → Finished 2 inner s
  unfolding Finished
  finish_idle-Finished inner s e =
      (inner, s, finish_idle 1 inner s e, record { conserved = λ _. refl; done = λ u h. (e, h) })

  finish_busy-Finished :
      (inner : Poll (Unit {0})) (s : NoiseStream S) (p : PendingWrite)
      → s.pending_write ≡ some p
      → IsWithin s.pending_write
      → Finished 2 inner s
  unfolding Finished poll_finish finish_next
  finish_busy-Finished inner s p e within =
      rw (poll_pending_write_busy s p e) (settle q.answer refl)
    where
      q : Pushed
      q = push p s.acceptances s.sent

      v : Pushes p s.sent q
      v = push-Pushes p s.acceptances s.sent (subst IsWithin e within)

      settle :
          (a : Poll (Option ℕ))
          → q.answer ≡ a
          → (r : Poll (Unit {0})) × (s' : NoiseStream S) × (finish_next
                (poll_finish 1 inner)
                inner
                (a, with_push s q)
              ≡ some (r, s'))
            × Settles inner s r s'
      settle pending h = (
        pending,
        with_push s q,
        refl,
        record { conserved = λ _. rw e (v.conserved (λ b. cc)); done = λ u b. cc },
      )
      settle (failed x) h = (
        failed x,
        with_push s q,
        refl,
        record { conserved = λ ok. rw e (v.conserved (λ b. ok (cc))); done = λ u b. cc },
      )
      settle (ready none) h = (
        inner,
        with_push s q,
        refl,
        record {
          conserved = λ _. rw e (v.conserved (λ b. cc));
          done = λ u b. ((v.finished none h).0, b);
        },
      )
      settle (ready (some n)) h = (
        inner,
        with_push s q,
        finish_idle 0 inner (with_push s q) (v.finished (some n) h).0,
        record {
          conserved = λ _. rw e (v.conserved (λ b. cc));
          done = λ u b. ((v.finished (some n) h).0, b);
        },
      )

  -- On a stream whose pending frame is within its bytes, `poll_flush` and `poll_shutdown` come to an
  -- answer, the same if the inner stream answers the same: no byte is lost or sent twice but when the
  -- inner stream claimed more than it was given, and they are ready only when the pending frame is
  -- out and the inner stream is ready.
  pub poll_flush-Settles :
      (inner : Poll (Unit {0})) (s : NoiseStream S)
      → IsWithin s.pending_write
      → (r : Poll (Unit {0})) × (s' : NoiseStream S) × (poll_flush inner s ≡ some (r, s'))
        × (poll_shutdown inner s ≡ some (r, s'))
        × Settles inner s r s'
  unfolding poll_flush poll_shutdown Finished
  poll_flush-Settles inner s within = let (r, s', e, v) = finished in (r, s', e, e, v)
    where
      finished : Finished 2 inner s
      finished = elim (Option-cases s.pending_write) [
        | inl e ↦ finish_idle-Finished inner s e
        | inr (p, e) ↦ finish_busy-Finished inner s p e within
      ]

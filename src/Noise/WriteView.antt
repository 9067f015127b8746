-- ===== src/Noise/WriteView.antt =====
-- The write side of src/noise.rs: however the inner stream takes the bytes, they are the frames of
-- the chunks that `poll_write` took, in order, each once.
use rust_ssh.Prelude.{
  ℕ, ◌+◌, ◌-◌, ◌≤◌, ◌≡◌, refl, ap, sym, ◌∙◌, subst, inl, inr, List, [], ◌∷◌, ◌++◌, Option, none,
  some, length, take, drop, ltb, ◌==◌, if◌then◌else◌, is_empty, min, arith, false, append_assoc,
  append-nil, take-append-drop, drop-drop, drop-all, Bool-cases, Option-cases, All,
}
use rust_ssh.Noise.ReadView.{view}
use rust_ssh.Noise.Read.{arrived}
use rust_ssh.Noise.{
  new, Arrival, Transport, Acceptance, busy, accepts, refuses, write_zero, invalid_write_length,
  noise_error, inner_error, Poll, pending, ready, failed, NoiseStream, PendingWrite,
  max_plaintext_chunk,
}
use rust_ssh.Noise.Decode.{ends, clean, after, decoded}
use rust_ssh.Noise.Seal.{seal, seal-append, concat, IsChannel, decoded-seal}
use rust_ssh.Noise.Write.{
  Pushed, push, with_push, poll_pending_write, frame, after_new_write, new_write, poll_write_after,
  poll_write,
}

-- What is left of a pending frame.
abbrev pub owed : Option PendingWrite → List ℕ
owed none = []
owed (some p) = drop p.offset p.wire

abbrev pub IsWithin : Option PendingWrite → Type 0
IsWithin none = Unit {0}
IsWithin (some p) = p.offset ≤ length p.wire

-- What a run of the loop over the frame `p`, with `out` sent, leaves.
pub record Pushes (p : PendingWrite) (out : List ℕ) (q : Pushed) : Type 0 where
  pub conserved :
      ¬ (q.answer ≡ failed invalid_write_length)
      → q.out ++ owed q.left ≡ out ++ drop p.offset p.wire
  pub within : IsWithin q.left
  pub finished : (n : Option ℕ) → q.answer ≡ ready n → (q.left ≡ none) × (n ≡ some p.plaintext_len)

push_done :
    (p : PendingWrite) (rs : List Acceptance) (out : List ℕ)
    → p.offset ≡ length p.wire
    → Pushes p out
        (record { answer = ready (some p.plaintext_len); left = none; answers = rs; out = out })
push_done p rs out h = record {
  conserved = λ _. ap (λ x. out ++ x) (sym (drop-all p.offset p.wire (omega arith)));
  within = tt;
  finished = λ n e. (refl, cc);
}

push_stays :
    (p : PendingWrite) (rs : List Acceptance) (out : List ℕ) (a : Poll (Option ℕ))
    → p.offset ≤ length p.wire
    → ((n : Option ℕ) → ¬ (a ≡ ready n))
    → Pushes p out (record { answer = a; left = some p; answers = rs; out = out })
push_stays p rs out a h unready = record {
  conserved = λ _. refl;
  within = h;
  finished = λ n e. absurd (unready n e);
}

push_on :
    (p : PendingWrite) (n : ℕ) (out : List ℕ) (q : Pushed)
    → Pushes (record p { offset = p.offset + n }) (out ++ take n (drop p.offset p.wire)) q
    → Pushes p out q
push_on p n out q v = record {
  conserved = λ ok.
      v.conserved ok
      ∙ append_assoc out (take n (drop p.offset p.wire)) (drop (p.offset + n) p.wire)
      ∙ ap (λ x. out ++ x)
          (ap (λ x. take n (drop p.offset p.wire) ++ x) (sym (drop-drop p.offset n p.wire))
            ∙ take-append-drop n (drop p.offset p.wire));
  within = v.within;
  finished = v.finished;
}

pub push-Pushes :
    (p : PendingWrite) (r : List Acceptance) (out : List ℕ)
    → p.offset ≤ length p.wire
    → Pushes p out (push p r out)
unfolding push
push-Pushes p [] out h = elim (Bool-cases (p.offset == length p.wire)) [
  | inl e ↦ rw e (push_done p [] out (ground arith))
  | inr e ↦ rw e (push_stays p [] out pending h (λ n q. cc))
]
push-Pushes p (busy ∷ r) out h = elim (Bool-cases (p.offset == length p.wire)) [
  | inl e ↦ rw e (push_done p (busy ∷ r) out (ground arith))
  | inr e ↦ rw e (push_stays p r out pending h (λ n q. cc))
]
push-Pushes p (refuses ∷ r) out h = elim (Bool-cases (p.offset == length p.wire)) [
  | inl e ↦ rw e (push_done p (refuses ∷ r) out (ground arith))
  | inr e ↦ rw e (push_stays p r out (failed inner_error) h (λ n q. cc))
]
push-Pushes p (accepts n ∷ r) out h = elim (Bool-cases (p.offset == length p.wire)) [
  | inl e ↦ rw e (push_done p (accepts n ∷ r) out (ground arith))
  | inr e ↦ rw e (elim (Bool-cases (n == 0)) [
    | inl z ↦ rw z (push_stays p r out (failed write_zero) h (λ n q. cc))
    | inr nz ↦ rw nz (elim (Bool-cases (ltb (length p.wire - p.offset) n)) [
      | inl bad ↦
          rw bad (record { conserved = λ k. absurd (k refl); within = h; finished = λ m q. cc })
      | inr fits ↦ rw fits (
          push_on p n out _ (
            push-Pushes (record p { offset = p.offset + n }) r
              (out ++ take n (drop p.offset p.wire)) (ground arith)))
    ])
  ])
]

module _ {S : Type 0} (s : NoiseStream S) where
  pub poll_pending_write_idle : s.pending_write ≡ none → poll_pending_write s ≡ (ready none, s)
  unfolding poll_pending_write
  poll_pending_write_idle e = ground arith

  pub poll_pending_write_busy :
      (p : PendingWrite)
      → s.pending_write ≡ some p
      → let q = push p s.acceptances s.sent in poll_pending_write s ≡ (q.answer, with_push s q)
  unfolding poll_pending_write
  poll_pending_write_busy p e = ground arith

module _ {S : Type 0} (T : Transport S) where
  -- The bytes sent and owed are the frames of the chunks `ps`, sealed from `t` on.
  pub record IsSending (t : S) (ps : List (List ℕ)) (s : NoiseStream S) : Type 0 where
    pub sealed : seal T t ps ≡ some (s.sent ++ owed s.pending_write, s.transport)
    pub within : IsWithin s.pending_write

  -- What pushing on leaves: the same chunks, unless the inner stream broke its contract, and no
  -- frame once the answer is ready.
  record Flushes (t : S) (ps : List (List ℕ)) (r : Poll (Option ℕ)) (s : NoiseStream S)
      : Type 0 where
    keeps : ¬ (r ≡ failed invalid_write_length) → IsSending t ps s
    clear : (n : Option ℕ) → r ≡ ready n → s.pending_write ≡ none

  poll_pending_write-Flushes :
      (t : S) (ps : List (List ℕ)) (s : NoiseStream S)
      → IsSending t ps s
      → Flushes t ps (poll_pending_write s).0 (poll_pending_write s).1
  unfolding poll_pending_write
  poll_pending_write-Flushes t ps s v = go s.pending_write refl
    where
      go :
          (o : Option PendingWrite)
          → s.pending_write ≡ o
          → Flushes t ps (poll_pending_write s).0 (poll_pending_write s).1
      go none e = rw (e, poll_pending_write) (record { keeps = λ _. v; clear = λ n q. e })
      go (some p) e =
          let q = push-Pushes p s.acceptances s.sent (subst IsWithin e v.within) in
          rw (e, poll_pending_write)
            (record {
              keeps = λ ok. record {
                sealed =
                    v.sealed
                    ∙ ap (λ o. some (s.sent ++ owed o, s.transport)) e
                    ∙ ap (λ x. some (x, s.transport)) (sym (q.conserved ok));
                within = q.within;
              };
              clear = λ n r. (q.finished n r).0;
            })

  abbrev pub chunk : List ℕ → List ℕ
  chunk buffer = take (min (length buffer) max_plaintext_chunk) buffer

  -- What `poll_write` takes in: nothing while a frame is pending or if there is nothing to write.
  abbrev pub taken : List ℕ → Option PendingWrite → List (List ℕ)
  taken buffer (some p) = []
  taken buffer none = if is_empty buffer then [] else chunk buffer ∷ []

  -- What a call of `poll_write` on `buffer` leaves of a stream that had the frame `o` pending.
  pub record Took (t : S) (ps : List (List ℕ)) (buffer : List ℕ) (o : Option PendingWrite)
      (r : Poll ℕ) (s : NoiseStream S) : Type 0 where
    pub keeps :
        ¬ (r ≡ failed invalid_write_length)
        → ¬ (r ≡ failed noise_error)
        → IsSending t (ps ++ taken buffer o) s
    pub clear : (n : ℕ) → r ≡ ready n → s.pending_write ≡ none
    pub count : (n : ℕ) → r ≡ ready n → o ≡ none → n ≡ min (length buffer) max_plaintext_chunk

  -- A frame just made is pushed like any other.
  after_new_write-Took :
      (t : S) (ps : List (List ℕ)) (buffer : List ℕ) (p : PendingWrite) (s : NoiseStream S)
      → p.plaintext_len ≡ min (length buffer) max_plaintext_chunk
      → p.offset ≤ length p.wire
      → seal T t (ps ++ taken buffer none) ≡ some (s.sent ++ drop p.offset p.wire, s.transport)
      → let q = push p s.acceptances s.sent in
        let (r, s') = after_new_write (q.answer, with_push s q) in Took t ps buffer none r s'
  unfolding after_new_write
  after_new_write-Took t ps buffer p s len h e = go q.answer refl
    where
      q : Pushed
      q = push p s.acceptances s.sent

      v : Pushes p s.sent q
      v = push-Pushes p s.acceptances s.sent h

      sending :
          ¬ (q.answer ≡ failed invalid_write_length)
          → IsSending t (ps ++ taken buffer none) (with_push s q)
      sending ok = record {
        sealed = e ∙ ap (λ x. some (x, s.transport)) (sym (v.conserved ok));
        within = v.within;
      }

      go :
          (a : Poll (Option ℕ))
          → q.answer ≡ a
          → let (r, s') = after_new_write (a, with_push s q) in Took t ps buffer none r s'
      go pending k = record {
        keeps = λ _ _. sending (λ b. cc);
        clear = λ n b. cc;
        count = λ n b. cc;
      }
      go (failed x) k = record {
        keeps = λ ok _. sending (λ b. ok (cc));
        clear = λ n b. cc;
        count = λ n b. cc;
      }
      go (ready none) k = record {
        keeps = λ _ no. absurd (no refl);
        clear = λ n b. cc;
        count = λ n b. cc;
      }
      go (ready (some n)) k = record {
        keeps = λ _ _. sending (λ b. cc);
        clear = λ m b. (v.finished (some n) k).0;
        count = λ m b _. cc ((v.finished (some n) k).1, len);
      }

  new_write-Took :
      (t : S) (ps : List (List ℕ)) (buffer : List ℕ) (s : NoiseStream S)
      → s.pending_write ≡ none
      → is_empty buffer ≡ false
      → IsSending t ps s
      → Took t ps buffer none (new_write T buffer s).0 (new_write T buffer s).1
  unfolding new_write
  new_write-Took t ps buffer s e some_bytes v =
      elim (Option-cases (T.write_message s.transport (chunk buffer))) [
        | inl k ↦
            rw (k, new_write)
              (record { keeps = λ _ no. absurd (no refl); clear = λ n b. cc; count = λ n b. cc })
        | inr ((c, t'), k) ↦
            rw (k, new_write)
              (after_new_write-Took t ps buffer (made c)
                (record s { transport = t'; pending_write = some (made c) }) refl (omega arith)
                (sealed c t' k))
      ]
    where
      made : List ℕ → PendingWrite
      made c = record {
        wire = frame c;
        offset = 0;
        plaintext_len = min (length buffer) max_plaintext_chunk;
      }

      sealed :
          (c : List ℕ) (t' : S)
          → T.write_message s.transport (chunk buffer) ≡ some (c, t')
          → seal T t (ps ++ taken buffer none) ≡ some (s.sent ++ frame c, t')
      sealed c t' k = rw some_bytes (
          seal-append T t ps (chunk buffer) c s.sent s.transport t'
            (v.sealed
              ∙ ap (λ o. some (s.sent ++ owed o, s.transport)) e
              ∙ ap (λ x. some (x, s.transport)) (append-nil s.sent))
            k)

  -- Each call of `poll_write` takes in at most one chunk, of the size that it answers, and what was
  -- sent with what is still owed stays the frames of the chunks taken in so far, in their order.
  -- When it answers `ready` nothing is owed. (An inner stream that claims more bytes than it was
  -- given, and a chunk that does not encrypt, are answered by an error, and are excepted.)
  pub poll_write-Took :
      (t : S) (ps : List (List ℕ)) (buffer : List ℕ) (s : NoiseStream S)
      → IsSending t ps s
      → Took t ps buffer s.pending_write (poll_write T buffer s).0 (poll_write T buffer s).1
  unfolding poll_write
  poll_write-Took t ps buffer s v = go s.pending_write refl
    where
      finish :
          (p : PendingWrite) (a : Poll (Option ℕ)) (s' : NoiseStream S)
          → Flushes t ps a s'
          → ¬ (a ≡ ready none)
          → let (r, s'') = poll_write_after T buffer (a, s') in Took t ps buffer (some p) r s''
      finish p pending s' f some_count =
          unfold poll_write_after in
          record {
            keeps = λ _ _. rw (append-nil ps) (f.keeps (λ b. cc));
            clear = λ n b. cc;
            count = λ n b. cc;
          }
      finish p (failed x) s' f some_count =
          unfold poll_write_after in
          record {
            keeps = λ ok _. rw (append-nil ps) (f.keeps (λ b. ok (cc)));
            clear = λ n b. cc;
            count = λ n b. cc;
          }
      finish p (ready none) s' f some_count = absurd (some_count refl)
      finish p (ready (some n)) s' f some_count =
          unfold poll_write_after in
          record {
            keeps = λ _ _. rw (append-nil ps) (f.keeps (λ b. cc));
            clear = λ m b. f.clear (some n) refl;
            count = λ m b c. cc;
          }

      go :
          (o : Option PendingWrite)
          → s.pending_write ≡ o
          → Took t ps buffer o (poll_write T buffer s).0 (poll_write T buffer s).1
      go none e = rw (poll_pending_write_idle s e) (elim (Bool-cases (is_empty buffer)) [
        | inl z ↦
            unfold poll_write_after in
            rw z (record {
              keeps = λ _ _. rw z (rw (append-nil ps) v);
              clear = λ n b. e;
              count = λ n b _. ground arith;
            })
        | inr some_bytes ↦
            unfold poll_write_after in rw some_bytes (new_write-Took t ps buffer s e some_bytes v)
      ])
      go (some p) e =
          let q = push p s.acceptances s.sent in
          let same = poll_pending_write_busy s p e in
          rw same (
            finish p q.answer (with_push s q)
              (subst (λ (x : Poll (Option ℕ) × NoiseStream S). Flushes t ps x.0 x.1) same
                (poll_pending_write-Flushes t ps s v))
              (λ b.
                cc
                  ((push-Pushes p s.acceptances s.sent (subst IsWithin e v.within)).finished none
                    b).1))

  -- A peer in step that has been handed all the bytes sent, however cut into chunks and delayed, and
  -- then the end of the stream, has exactly the chunks that the writer took in before it, and a clean
  -- end.
  pub sent-view :
      (InStep : S → S → Type 0)
      → IsChannel T InStep
      → (t u : S) (ps : List (List ℕ)) (s : NoiseStream S) → InStep t u
      → All (λ p. length p ≤ max_plaintext_chunk) ps
      → IsSending t ps s
      → s.pending_write ≡ none
      → (ins : List Arrival) (outs : List Acceptance) → arrived ins ≡ s.sent
      → view T (new ins outs u) ≡ after (concat ps) (ends clean)
  unfolding new
  sent-view InStep channel t u ps s step fits v idle ins outs e =
      ap (decoded T u) e
      ∙ decoded-seal T InStep channel t u ps s.sent s.transport step fits (
          v.sealed
          ∙ ap (λ o. some (s.sent ++ owed o, s.transport)) idle
          ∙ ap (λ x. some (x, s.transport)) (append-nil s.sent))

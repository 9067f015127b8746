-- ===== src/Noise/Tests.antt =====
-- Runs of src/noise.rs with a cipher that appends sixteen zeros, and the theorems at them.
use rust_ssh.Prelude.{
  ℕ, to_be_bytes, from_be_bytes, false, ◌+◌, ◌-◌, ◌≤◌, ◌≡◌, refl, ap, ◌∙◌, List, [], ◌∷◌, ◌++◌,
  Option, none, some, length, take, replicate, ltb, if◌then◌else◌, arith, length-append,
  length-replicate, take-append_eq, All,
}
use rust_ssh.Noise.{
  new, Transport, Arrival, nothing_yet, arrives, busy, accepts, Poll, ready, NoiseStream,
  max_plaintext_chunk,
}
use rust_ssh.Noise.Read.{
  fill, header_part, size_part, body_part, decrypt_part, next_frame, serve, read_loop, poll_read,
}
use rust_ssh.Noise.Decode.{ends, clean, after, decoded}
use rust_ssh.Noise.Write.{frame, poll_write, poll_flush, poll_shutdown}
use rust_ssh.Noise.FlushView.{Settles, poll_flush-Settles}
use rust_ssh.Noise.Seal.{seal, concat, IsChannel, decoded-seal}
use rust_ssh.Noise.ReadView.{IsReadable, view, Accounts, poll_read-Accounts}
use rust_ssh.Noise.WriteView.{IsSending, Took, poll_write-Took, sent-view}

abbrev open_padded : ℕ → List ℕ → Option (List ℕ × ℕ)
open_padded k c = if ltb (length c) 16 then none else some (take (length c - 16) c, k + 1)

-- Its state counts messages.
abbrev padding : Transport ℕ
padding = record {
  write_message = λ k p. some (p ++ replicate 16 0, k + 1);
  read_message = open_padded;
}

open_padded-sealed : (k : ℕ) (p : List ℕ) → open_padded k (p ++ replicate 16 0) ≡ some (p, k + 1)
open_padded-sealed k p =
    let size : length (p ++ replicate 16 0) ≡ length p + 16 =
      length-append p (replicate 16 0) ∙ ap (λ n. length p + n) (length-replicate {A = ℕ} 16 0) in
    let test : ltb (length p + 16) 16 ≡ false = ground arith in
    let cut : length p + 16 - 16 ≡ length p = omega arith in
    rw (size, test, cut, take-append_eq (length p) p (replicate 16 0) refl)

padding-IsChannel : IsChannel padding (λ t u. t ≡ u)
padding-IsChannel = record {
  seals = λ t u p same fits. (
    p ++ replicate 16 0,
    t + 1,
    u + 1,
    refl,
    length-append p (replicate 16 0) ∙ ap (λ n. length p + n) (length-replicate {A = ℕ} 16 0),
    open_padded-sealed u p,
    ap (λ n. n + 1) same,
  );
}

-- The byte 7 in one frame, which comes in three pieces with a pause.
abbrev pieces : List Arrival
pieces =
    arrives (0 ∷ 0 ∷ [])
    ∷ nothing_yet
    ∷ arrives (0 ∷ 17 ∷ 7 ∷ 0 ∷ 0 ∷ [])
    ∷ arrives (replicate 14 0)
    ∷ []

abbrev reader : NoiseStream ℕ
unfolding new
reader = new pieces [] 0

abbrev answer : Option (Poll (List ℕ) × NoiseStream ℕ) → Option (Poll (List ℕ))
answer none = none
answer (some (r, s)) = some r

abbrev poll_twice : Option (Poll (List ℕ) × NoiseStream ℕ) → Option (Poll (List ℕ))
poll_twice none = none
poll_twice (some (r, s)) = answer (poll_read padding 10 s)

-- The first poll waits inside the header, the second one has the byte.
read_in_pieces : poll_twice (poll_read padding 10 reader) ≡ some (ready (7 ∷ []))
unfolding poll_read read_loop serve next_frame header_part size_part body_part decrypt_part fill
    reader from_be_bytes
read_in_pieces = refl

reader-IsReadable : IsReadable reader
unfolding reader
reader-IsReadable = record {
  header_size = refl;
  header_within = omega arith;
  body_within = omega arith;
  offset_within = omega arith;
  body_sized = λ h. absurd (omega arith);
}

poll_read-Accounts_example :
    (r : Poll (List ℕ)) × (s' : NoiseStream ℕ) × (poll_read padding 10 reader ≡ some (r, s'))
    × IsReadable s'
    × Accounts padding r (view padding reader) (view padding s')
poll_read-Accounts_example = poll_read-Accounts padding 10 reader (omega arith) reader-IsReadable

-- A stream to write on, whose inner stream takes the frame in two pieces.
abbrev writer : NoiseStream ℕ
unfolding new
writer = new [] (accepts 3 ∷ busy ∷ accepts 18 ∷ []) 0

writer-IsSending : IsSending padding 0 [] writer
unfolding seal writer
writer-IsSending = record { sealed = refl; within = tt }

poll_write-Took_example :
    Took padding 0 []
      (7 ∷ [])
      none
      (poll_write padding (7 ∷ []) writer).0
      (poll_write padding (7 ∷ []) writer).1
unfolding writer
poll_write-Took_example = poll_write-Took padding 0 [] (7 ∷ []) writer writer-IsSending

-- The writer after two chunks went out.
abbrev two_frames : List ℕ
unfolding frame
two_frames = frame (7 ∷ replicate 16 0) ++ frame (8 ∷ 9 ∷ replicate 16 0)

abbrev two_chunks : List (List ℕ)
two_chunks = (7 ∷ []) ∷ (8 ∷ 9 ∷ []) ∷ []

abbrev done : NoiseStream ℕ
done = record writer { sent = two_frames; transport = 2 }

done-IsSending : IsSending padding 0 two_chunks done
unfolding seal frame to_be_bytes writer two_frames
done-IsSending = record { sealed = refl; within = tt }

two_chunks_fit : All (λ (p : List ℕ). length p ≤ max_plaintext_chunk) two_chunks
two_chunks_fit = (omega arith, (omega arith, tt))

sent-view_example :
    view padding (new (arrives two_frames ∷ []) [] 0) ≡ after (concat two_chunks) (ends clean)
unfolding writer two_frames to_be_bytes
sent-view_example =
    sent-view padding (λ t u. t ≡ u) padding-IsChannel 0 0 two_chunks done refl two_chunks_fit
      done-IsSending refl (arrives two_frames ∷ []) [] refl

decoded-seal_example : decoded padding 0 two_frames ≡ after (concat two_chunks) (ends clean)
unfolding writer two_frames to_be_bytes
decoded-seal_example =
    decoded-seal padding (λ t u. t ≡ u) padding-IsChannel 0 0 two_chunks two_frames 2 refl
      two_chunks_fit done-IsSending.sealed

-- A writer with a frame of two bytes pending.
abbrev flusher : NoiseStream ℕ
unfolding writer
flusher = record writer {
  pending_write = some (record { wire = 1 ∷ 2 ∷ []; offset = 0; plaintext_len = 1 });
}

poll_flush-Settles_example :
    (r : Poll (Unit {0})) × (s' : NoiseStream ℕ) × (poll_flush (ready tt) flusher ≡ some (r, s'))
    × (poll_shutdown (ready tt) flusher ≡ some (r, s'))
    × Settles (ready tt) flusher r s'
unfolding flusher
poll_flush-Settles_example = poll_flush-Settles (ready tt) flusher (omega arith)

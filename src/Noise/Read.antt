-- ===== src/Noise/Read.antt =====
-- src/noise.rs, `poll_read` of `NoiseStream`: serve decrypted bytes, else fill the header, size the
-- body, fill it, decrypt, and go round again.
use rust_ssh.Prelude.{
  ℕ, zero, suc, ◌+◌, ◌-◌, ◌||◌, List, [], ◌∷◌, ◌++◌, Option, none, some, length, take, drop,
  replicate, is_empty, ltb, leb, ◌==◌, if◌then◌else◌, from_be_bytes, min,
}
use rust_ssh.Noise.{
  Transport, Arrival, nothing_yet, arrives, breaks, header_eof, body_eof, noise_error, inner_error,
  bad_frame_length, Poll, pending, ready, failed, NoiseStream, max_ciphertext_frame,
}

-- How the loop that fills a buffer ends.
pub data FillEnd : Type 0 where
  full waiting at_eof broken : FillEnd

pub record Filled : Type 0 where
  pub outcome : FillEnd
  pub buf : List ℕ
  pub count : ℕ
  pub left : List Arrival

-- Bytes written into `buf` from index `at` on.
unfoldable pub put_at : ℕ → List ℕ → List ℕ → List ℕ
put_at i bs buf = take i buf ++ (bs ++ drop (i + length bs) buf)

-- `while filled < buf.len() { poll_read(&mut buf[filled..]) … }`. A chunk longer than the room left
-- is cut, and its rest stays with the inner stream. The end of the stream is lasting.
unfoldable pub fill : List ℕ → ℕ → List Arrival → Filled
unfolding put_at
fill buf n [] = record {
  outcome = if ltb n (length buf) then at_eof else full;
  buf = buf;
  count = n;
  left = [];
}
fill buf n (nothing_yet ∷ r) =
    if ltb n (length buf)
    then record { outcome = waiting; buf = buf; count = n; left = r }
    else record { outcome = full; buf = buf; count = n; left = nothing_yet ∷ r }
fill buf n (breaks ∷ r) =
    if ltb n (length buf)
    then record { outcome = broken; buf = buf; count = n; left = r }
    else record { outcome = full; buf = buf; count = n; left = breaks ∷ r }
fill buf n (arrives bs ∷ r) =
    let room = length buf - n in
    let rest = fill (put_at n bs buf) (n + length bs) r in
    if ltb n (length buf)
    then (if is_empty bs
        then record { outcome = at_eof; buf = buf; count = n; left = arrives bs ∷ r }
        else (if leb (length bs) room then rest else record {
          outcome = full;
          buf = put_at n (take room bs) buf;
          count = n + room;
          left = arrives (drop room bs) ∷ r;
        }))
    else record { outcome = full; buf = buf; count = n; left = arrives bs ∷ r }

-- One part of a round either returns from `poll_read` or goes on.
pub data Round (S : Type 0) : Type 0 where
  stop : Poll (List ℕ) → NoiseStream S → Round S
  go : NoiseStream S → Round S

infixl 5 ◌>>=◌
abbrev pub ◌>>=◌ : {S : Type 0} → Round S → (NoiseStream S → Round S) → Round S
stop r s >>= f = stop r s
go s >>= f = f s

module _ {S : Type 0} where
  abbrev pub with_header : NoiseStream S → Filled → NoiseStream S
  with_header s f = record s {
    arrivals = f.left;
    read_header = f.buf;
    read_header_filled = f.count;
  }

  abbrev pub with_body : NoiseStream S → Filled → NoiseStream S
  with_body s f = record s { arrivals = f.left; read_body = f.buf; read_body_filled = f.count }

  unfoldable pub header_end : FillEnd → NoiseStream S → Round S
  header_end full s = go s
  header_end waiting s = stop pending s
  header_end broken s = stop (failed inner_error) s
  header_end at_eof s =
      if s.read_header_filled == 0 then stop (ready []) s else stop (failed header_eof) s

  unfoldable pub header_part : NoiseStream S → Round S
  unfolding header_end
  header_part s =
      let f = fill s.read_header s.read_header_filled s.arrivals in
      header_end f.outcome (with_header s f)

  -- The body is sized once for each frame; on a later poll it is already there.
  unfoldable pub size_part : NoiseStream S → Round S
  size_part s =
      let n = from_be_bytes s.read_header in
      if is_empty s.read_body
      then (if n == 0 || ltb max_ciphertext_frame n
          then stop (failed (bad_frame_length n)) s
          else go (record s { read_body = replicate n 0; read_body_filled = 0 }))
      else go s

  unfoldable pub body_end : FillEnd → NoiseStream S → Round S
  body_end full s = go s
  body_end waiting s = stop pending s
  body_end broken s = stop (failed inner_error) s
  body_end at_eof s = stop (failed body_eof) s

  unfoldable pub body_part : NoiseStream S → Round S
  unfolding body_end
  body_part s =
      let f = fill s.read_body s.read_body_filled s.arrivals in body_end f.outcome (with_body s f)

  -- `mem::take(&mut self.read_body)` and the reset of the counters come before the decryption.
  unfoldable pub reset_frame : NoiseStream S → NoiseStream S
  reset_frame s = record s { read_body = []; read_header_filled = 0; read_body_filled = 0 }

  unfoldable pub decrypt_part : Transport S → NoiseStream S → Round S
  unfolding reset_frame
  decrypt_part T s = elim (T.read_message s.transport s.read_body) [
    | none ↦ stop (failed noise_error) (reset_frame s)
    | some (p, t) ↦ go (record (reset_frame s) { transport = t; plaintext = p })
  ]

  unfoldable pub next_frame : Transport S → NoiseStream S → Round S
  next_frame T s =
      header_part (record s { plaintext = []; plaintext_offset = 0 })
      >>= size_part
      >>= body_part
      >>= decrypt_part T

  -- Hand out what is decrypted, at most `room` bytes of it.
  unfoldable pub serve : ℕ → NoiseStream S → List ℕ × NoiseStream S
  serve room s =
      let available = drop s.plaintext_offset s.plaintext in
      let count = min (length available) room in
      let offset = s.plaintext_offset + count in
      (
        take count available,
        if offset == length s.plaintext
            then record s { plaintext = []; plaintext_offset = 0 }
            else record s { plaintext_offset = offset },
      )

  -- The `loop`; `none` means that the fuel ran out.
  unfoldable pub read_loop :
      ℕ → Transport S → ℕ → NoiseStream S → Option (Poll (List ℕ) × NoiseStream S)
  unfolding serve
  read_loop zero T room s = none
  read_loop (suc fuel) T room s =
      let (out, served) = serve room s in
      let more : Option (Poll (List ℕ) × NoiseStream S) = elim (next_frame T s) [
        | stop r s' ↦ some (r, s')
        | go s' ↦ read_loop fuel T room s'
      ] in
      if ltb s.plaintext_offset (length s.plaintext) then some (ready out, served) else more

abbrev pub arrived : List Arrival → List ℕ
arrived [] = []
arrived (nothing_yet ∷ r) = arrived r
arrived (breaks ∷ r) = arrived r
arrived (arrives [] ∷ r) = []
arrived (arrives (b ∷ bs) ∷ r) = b ∷ (bs ++ arrived r)

-- The ciphertext that is buffered or still to come.
abbrev pub unread : {S : Type 0} → NoiseStream S → List ℕ
unread s =
    take s.read_header_filled s.read_header
    ++ (take s.read_body_filled s.read_body ++ arrived s.arrivals)

-- Each round that goes on uses up a frame, so this fuel is enough.
unfoldable pub poll_read :
    {S : Type 0} → Transport S → ℕ → NoiseStream S → Option (Poll (List ℕ) × NoiseStream S)
poll_read T room s =
    if room == 0 then some (ready [], s) else read_loop (length (unread s) + 1) T room s

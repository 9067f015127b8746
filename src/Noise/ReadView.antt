-- ===== src/Noise/ReadView.antt =====
-- `poll_read` of src/noise.rs against the reference decoder: whatever the chunks are, each poll
-- hands out the next bytes of what the stream means, and gives up where and why the decoder does.
use rust_ssh.Prelude.{
  ℕ, zero, suc, ◌+◌, ◌≤◌, ◌<◌, ◌≡◌, refl, ap, sym, subst, ◌∙◌, ◌||◌, List, [], ◌∷◌, ◌++◌, none,
  some, length, take, drop, ltb, ◌==◌, from_be_bytes, arith, append-nil, take-all, drop-all,
  drop-drop, Option, ◌-◌, length-append, length-replicate, replicate, take-append-drop, length-take,
  length-drop, Bool-cases, Option-cases, true, false, inl, inr, is_empty, min,
}
use rust_ssh.Noise.{
  Transport, header_eof, body_eof, noise_error, inner_error, bad_frame_length, write_zero,
  invalid_write_length, Poll, pending, ready, failed, NoiseStream, max_ciphertext_frame,
}
use rust_ssh.Noise.Read.{
  Filled, FillEnd, full, waiting, at_eof, broken, fill, arrived, unread, Round, stop, go, ◌>>=◌,
  header_end, body_end, with_header, with_body, header_part, size_part, body_part, decrypt_part,
  reset_frame, next_frame, serve, read_loop, poll_read,
}
use rust_ssh.Noise.Decode.{
  clean, in_header, in_body, bad_length, bad_tag, Decoded, ends, after, after-append, decoded,
  decode_frame, decode_frame_bad, decode_frame_cut, decode_frame_tag, decode_frame_open,
  decoded-nil, decoded_short, decoded_head,
}
use rust_ssh.Noise.Buffers.{Fills, fill-Fills, fill_full}
use native.Mathlib.Decide.{dec_lt}

-- What holds of the read side between polls.
pub record IsReadable {S : Type 0} (s : NoiseStream S) : Type 0 where
  pub header_size : length s.read_header ≡ 4
  pub header_within : s.read_header_filled ≤ 4
  pub body_within : s.read_body_filled ≤ length s.read_body
  pub offset_within : s.plaintext_offset ≤ length s.plaintext
  pub body_sized :
      0 < length s.read_body
      → (s.read_header_filled ≡ 4)
        × (length s.read_body ≡ from_be_bytes s.read_header)
        × (length s.read_body ≤ max_ciphertext_frame)

module _ {S : Type 0} (T : Transport S) where
  -- The meaning of all that the stream has not handed out yet.
  abbrev pub view : NoiseStream S → Decoded
  view s = after (drop s.plaintext_offset s.plaintext) (decoded T s.transport (unread s))

  -- What an answer of `poll_read` says of the meaning before, `d`, and after, `d'`.
  abbrev pub Accounts : Poll (List ℕ) → Decoded → Decoded → Type 0
  Accounts pending d d' = d ≡ d'
  Accounts (ready []) d d' = d ≡ ends clean
  Accounts (ready (b ∷ bs)) d d' = d ≡ after (b ∷ bs) d'
  Accounts (failed header_eof) d d' = d ≡ ends in_header
  Accounts (failed body_eof) d d' = d ≡ ends in_body
  Accounts (failed (bad_frame_length n)) d d' = d ≡ ends bad_length
  Accounts (failed noise_error) d d' = d ≡ ends bad_tag
  Accounts (failed inner_error) d d' = d ≡ d'
  Accounts (failed write_zero) d d' = ⊥
  Accounts (failed invalid_write_length) d d' = ⊥

  -- A part of a round keeps the meaning, and leaves the stream as the next part wants it.
  abbrev Keeps : Decoded → (NoiseStream S → Type 0) → Round S → Type 0
  Keeps d P (stop r s) = IsReadable s × Accounts r d (view s)
  Keeps d P (go s) = IsReadable s × (d ≡ view s) × P s

  Keeps->>= :
      (d : Decoded) (P Q : NoiseStream S → Type 0) (r : Round S) (f : NoiseStream S → Round S)
      → Keeps d P r
      → ((s : NoiseStream S) → IsReadable s → d ≡ view s → P s → Keeps d Q (f s))
      → Keeps d Q (r >>= f)
  Keeps->>= d P Q (stop r s) f k h = k
  Keeps->>= d P Q (go s) f k h = h s k.0 k.1 k.2

  abbrev Drained : NoiseStream S → Type 0
  Drained s = (s.plaintext ≡ []) × (s.plaintext_offset ≡ 0)

  -- No part before the decryption uses up a byte: `w` is what was unread at first.
  abbrev HasHeader : List ℕ → NoiseStream S → Type 0
  HasHeader w s = Drained s × (s.read_header_filled ≡ 4) × (unread s ≡ w)

  abbrev HasSize : List ℕ → NoiseStream S → Type 0
  HasSize w s = Drained s × (0 < length s.read_body) × (unread s ≡ w)

  abbrev HasBody : List ℕ → NoiseStream S → Type 0
  HasBody w s =
      Drained s
      × (0 < length s.read_body)
      × (s.read_body_filled ≡ length s.read_body)
      × (unread s ≡ w)

  abbrev HasLess : List ℕ → NoiseStream S → Type 0
  HasLess w s = length (unread s) < length w

  view-Drained : (s : NoiseStream S) → Drained s → view s ≡ decoded T s.transport (unread s)
  view-Drained s (e, z) = rw (e, z)

  -- Before the header is whole there is no body.
  no_body_yet :
      (s : NoiseStream S)
      → IsReadable s
      → s.read_header_filled < 4
      → take s.read_body_filled s.read_body ≡ []
  no_body_yet s v short =
      let z : s.read_body_filled ≡ 0 = ground arith in ap (λ k. take k s.read_body) z

  -- The stream ends in or before a header.
  header_eof-Keeps :
      (s : NoiseStream S)
      → IsReadable s
      → Drained s
      → arrived s.arrivals ≡ []
      → s.read_header_filled < 4
      → Keeps (view s) (HasHeader (unread s)) (header_end at_eof s)
  unfolding header_end
  header_eof-Keeps s v dr e short = elim (Bool-cases (s.read_header_filled == 0)) [
    | inl z ↦
        let no_header : s.read_header_filled ≡ 0 = ground arith in
        rw z (
          v,
          view-Drained s dr
              ∙ ap (decoded T s.transport) (only_header ∙ ap (λ k. take k s.read_header) no_header)
              ∙ decoded-nil T s.transport,
        )
    | inr p ↦ rw p (
      v,
      view-Drained s dr
          ∙ decoded_short T s.transport (unread s) (ground (arith, some_header))
              (ground (arith, some_header)),
    )
  ]
    where
      only_header : unread s ≡ take s.read_header_filled s.read_header
      only_header =
          rw (no_body_yet s v short, e) (append-nil (take s.read_header_filled s.read_header))

      some_header : length (unread s) ≡ s.read_header_filled
      some_header =
          ap length only_header ∙ length-take s.read_header_filled s.read_header (ground arith)

  header_end-Keeps :
      (o : FillEnd) (s : NoiseStream S)
      → IsReadable s
      → Drained s
      → (o ≡ full → s.read_header_filled ≡ 4)
      → (o ≡ at_eof → (arrived s.arrivals ≡ []) × (s.read_header_filled < 4))
      → Keeps (view s) (HasHeader (unread s)) (header_end o s)
  unfolding header_end
  header_end-Keeps full s v dr f e = (v, refl, (dr, f refl, refl))
  header_end-Keeps waiting s v dr f e = (v, refl)
  header_end-Keeps broken s v dr f e = (v, refl)
  header_end-Keeps at_eof s v dr f e = header_eof-Keeps s v dr (e refl).0 (e refl).1

  header_part-Keeps :
      (s : NoiseStream S)
      → IsReadable s
      → Drained s
      → Keeps (view s) (HasHeader (unread s)) (header_part s)
  unfolding header_part
  header_part-Keeps s v dr =
      subst
        (λ w.
          Keeps (after (drop s.plaintext_offset s.plaintext) (decoded T s.transport w))
            (HasHeader w) (header_end f.outcome (with_header s f)))
        same
        (header_end-Keeps f.outcome (with_header s f) kept dr (λ e. g.on_full e ∙ v.header_size)
          (λ e. ((g.on_eof e).0, omega (arith, (g.on_eof e).1, v.header_size))))
    where
      f : Filled
      f = fill s.read_header s.read_header_filled s.arrivals

      g : Fills s.read_header s.read_header_filled s.arrivals f
      g =
          fill-Fills s.read_header s.read_header_filled s.arrivals
            (omega (arith, v.header_size, v.header_within))

      same : unread (with_header s f) ≡ unread s
      same = elim (dec_lt s.read_header_filled 4) [
        | yes short ↦ rw (no_body_yet s v short) g.conserved
        | no whole ↦
            ap (λ (x : Filled). unread (with_header s x))
              (fill_full s.read_header s.read_header_filled s.arrivals (ground arith))
      ]

      kept : IsReadable (with_header s f)
      kept = elim (dec_lt s.read_header_filled 4) [
        | yes short ↦ record {
          header_size = g.size ∙ v.header_size;
          header_within = omega (arith, g.within, v.header_size);
          body_within = v.body_within;
          offset_within = v.offset_within;
          body_sized = λ p. absurd (omega (arith, (v.body_sized p).0));
        }
        | no whole ↦
            subst (λ x. IsReadable (with_header s x))
              (sym (fill_full s.read_header s.read_header_filled s.arrivals (ground arith))) v
      ]

  -- With a whole header the buffered bytes are a frame's.
  unread_head :
      (s : NoiseStream S)
      → IsReadable s
      → s.read_header_filled ≡ 4
      → unread s ≡ s.read_header ++ (take s.read_body_filled s.read_body ++ arrived s.arrivals)
  unread_head s v e =
      ap (λ h. h ++ (take s.read_body_filled s.read_body ++ arrived s.arrivals))
        (take-all s.read_header_filled s.read_header (omega (arith, v.header_size)))

  view_head :
      (s : NoiseStream S)
      → IsReadable s
      → Drained s
      → s.read_header_filled ≡ 4
      → view s
        ≡ decode_frame T
            (decoded T)
            s.transport
            (from_be_bytes s.read_header)
            (take s.read_body_filled s.read_body ++ arrived s.arrivals)
  view_head s v dr e =
      view-Drained s dr
      ∙ ap (decoded T s.transport) (unread_head s v e)
      ∙ decoded_head T s.transport s.read_header
          (take s.read_body_filled s.read_body ++ arrived s.arrivals) v.header_size

  size_part-Keeps :
      (s : NoiseStream S) (w : List ℕ)
      → IsReadable s
      → HasHeader w s
      → Keeps (view s) (HasSize w) (size_part s)
  unfolding size_part
  size_part-Keeps s w v e = elim (Bool-cases (is_empty s.read_body)) [
    | inr p ↦ rw p (v, refl, (e.0, ground arith, e.2))
    | inl z ↦ rw z (elim (Bool-cases (n == 0 || ltb max_ciphertext_frame n)) [
      | inl bad ↦
          rw bad (v, view_head s v e.0 e.1 ∙ decode_frame_bad T (decoded T) s.transport n part bad)
      | inr good ↦ rw good (
        sized z good,
        ap (λ u. after (drop s.plaintext_offset s.plaintext) (decoded T s.transport u)) (same z),
        (e.0, omega (arith, positive good, length-replicate {A = ℕ} n 0), sym (same z) ∙ e.2),
      )
    ])
  ]
    where
      n : ℕ
      n = from_be_bytes s.read_header

      part : List ℕ
      part = take s.read_body_filled s.read_body ++ arrived s.arrivals

      positive : (n == 0 || ltb max_ciphertext_frame n) ≡ false → 0 < n
      positive good = ground arith

      sized :
          is_empty s.read_body ≡ true
          → (n == 0 || ltb max_ciphertext_frame n) ≡ false
          → IsReadable (record s { read_body = replicate n 0; read_body_filled = 0 })
      sized z good = record {
        header_size = v.header_size;
        header_within = v.header_within;
        body_within = omega arith;
        offset_within = v.offset_within;
        body_sized = λ p.
            (e.1, length-replicate {A = ℕ} n 0, rw (length-replicate {A = ℕ} n 0) (ground arith));
      }

      same :
          is_empty s.read_body ≡ true
          → unread s ≡ unread (record s { read_body = replicate n 0; read_body_filled = 0 })
      same z =
          let none_filled : s.read_body_filled ≡ 0 = ground arith in
          ap
            (λ k.
              take s.read_header_filled s.read_header ++ (take k s.read_body ++ arrived s.arrivals))
            none_filled

  -- The size of a body that was made passed the check.
  size_fits :
      (s : NoiseStream S)
      → IsReadable s
      → 0 < length s.read_body
      → (from_be_bytes s.read_header == 0 || ltb max_ciphertext_frame (from_be_bytes s.read_header))
        ≡ false
  size_fits s v some_body = ground arith

  body_end-Keeps :
      (o : FillEnd) (s : NoiseStream S)
      → IsReadable s
      → Drained s
      → 0 < length s.read_body
      → (o ≡ full → s.read_body_filled ≡ length s.read_body)
      → (o ≡ at_eof → (arrived s.arrivals ≡ []) × (s.read_body_filled < length s.read_body))
      → Keeps (view s) (HasBody (unread s)) (body_end o s)
  unfolding body_end
  body_end-Keeps full s v dr p f e = (v, refl, (dr, p, f refl, refl))
  body_end-Keeps waiting s v dr p f e = (v, refl)
  body_end-Keeps broken s v dr p f e = (v, refl)
  body_end-Keeps at_eof s v dr p f e = (
    v,
    view_head s v dr (v.body_sized p).0
        ∙ decode_frame_cut T (decoded T) s.transport (from_be_bytes s.read_header) part
            (size_fits s v p) cut,
  )
    where
      part : List ℕ
      part = take s.read_body_filled s.read_body ++ arrived s.arrivals

      cut : ltb (length part) (from_be_bytes s.read_header) ≡ true
      cut = ground (
        arith,
        length-append (take s.read_body_filled s.read_body) (arrived s.arrivals),
        length-take s.read_body_filled s.read_body v.body_within,
        (e refl).0,
        (e refl).1,
        v.body_sized p,
      )

  body_part-Keeps :
      (s : NoiseStream S) (w : List ℕ)
      → IsReadable s
      → HasSize w s
      → Keeps (view s) (HasBody w) (body_part s)
  unfolding body_part
  body_part-Keeps s w v (dr, p, same) =
      subst
        (λ u.
          Keeps (after (drop s.plaintext_offset s.plaintext) (decoded T s.transport (unread s)))
            (HasBody u) (body_end f.outcome (with_body s f)))
        same
        (subst
          (λ u.
            Keeps (after (drop s.plaintext_offset s.plaintext) (decoded T s.transport u))
              (HasBody u) (body_end f.outcome (with_body s f)))
          (ap (λ x. take s.read_header_filled s.read_header ++ x) g.conserved)
          (body_end-Keeps f.outcome (with_body s f) kept dr (omega (arith, g.size))
            (λ e. g.on_full e ∙ sym g.size)
            (λ e. ((g.on_eof e).0, omega (arith, (g.on_eof e).1, g.size)))))
    where
      f : Filled
      f = fill s.read_body s.read_body_filled s.arrivals

      g : Fills s.read_body s.read_body_filled s.arrivals f
      g = fill-Fills s.read_body s.read_body_filled s.arrivals v.body_within

      kept : IsReadable (with_body s f)
      kept = record {
        header_size = v.header_size;
        header_within = v.header_within;
        body_within = omega (arith, g.within, g.size);
        offset_within = v.offset_within;
        body_sized = λ q. let (a, b, c) = v.body_sized p in (a, g.size ∙ b, omega (arith, g.size));
      }

  decrypt_part-Keeps :
      (s : NoiseStream S) (w : List ℕ)
      → IsReadable s
      → HasBody w s
      → Keeps (view s) (HasLess w) (decrypt_part T s)
  unfolding decrypt_part
  decrypt_part-Keeps s w v (dr, p, whole, same) =
      elim (Option-cases (T.read_message s.transport s.read_body)) [
        | inl e ↦
            rw (e, decrypt_part)
              (
                closed,
                head
                    ∙ decode_frame_tag T (decoded T) s.transport n s.read_body (arrived s.arrivals)
                        size good e,
              )
        | inr ((m, t), e) ↦
            rw (e, decrypt_part)
              (
                opened m t,
                head
                    ∙ decode_frame_open T (decoded T) s.transport n s.read_body (arrived s.arrivals)
                        size good e
                    ∙ rw dr.1,
                shorter,
              )
      ]
    where
      n : ℕ
      n = from_be_bytes s.read_header

      good : (n == 0 || ltb max_ciphertext_frame n) ≡ false
      good = size_fits s v p

      size : length s.read_body ≡ n
      size = (v.body_sized p).1

      head : view s ≡ decode_frame T (decoded T) s.transport n (s.read_body ++ arrived s.arrivals)
      head =
          view_head s v dr (v.body_sized p).0
          ∙ ap (λ b. decode_frame T (decoded T) s.transport n (b ++ arrived s.arrivals))
              (take-all s.read_body_filled s.read_body (omega arith))

      shorter : length (arrived s.arrivals) < length w
      shorter = omega (
        arith,
        ap length (sym same ∙ unread_head s v (v.body_sized p).0),
        length-append s.read_header (take s.read_body_filled s.read_body ++ arrived s.arrivals),
        length-append (take s.read_body_filled s.read_body) (arrived s.arrivals),
        v.header_size,
      )

      closed : IsReadable (reset_frame s)
      closed = ground arith

      opened :
          (m : List ℕ) (t : S)
          → IsReadable (record (reset_frame s) { transport = t; plaintext = m })
      opened m t = ground arith

  next_frame-Keeps :
      (s : NoiseStream S)
      → IsReadable s
      → s.plaintext_offset ≡ length s.plaintext
      → Keeps (view s) (HasLess (unread s)) (next_frame T s)
  unfolding next_frame
  next_frame-Keeps s v e =
      subst (λ d. Keeps d (HasLess w) (next_frame T s)) same
        (Keeps->>= d (HasBody w) (HasLess w) (header_part s' >>= size_part >>= body_part)
          (decrypt_part T)
          (Keeps->>= d (HasSize w) (HasBody w) (header_part s' >>= size_part) body_part
            (Keeps->>= d (HasHeader w) (HasSize w) (header_part s') size_part
              (header_part-Keeps s' v' (refl, refl))
              (λ t r q k.
                subst (λ x. Keeps x (HasSize w) (size_part t)) (sym q) (size_part-Keeps t w r k)))
            (λ t r q k.
              subst (λ x. Keeps x (HasBody w) (body_part t)) (sym q) (body_part-Keeps t w r k)))
          (λ t r q k.
            subst (λ x. Keeps x (HasLess w) (decrypt_part T t)) (sym q)
              (decrypt_part-Keeps t w r k)))
    where
      s' : NoiseStream S
      s' = record s { plaintext = []; plaintext_offset = 0 }

      w : List ℕ
      w = unread s

      v' : IsReadable s'
      v' = ground arith

      d : Decoded
      d = view s'

      same : view s' ≡ view s
      same =
          ap (λ p. after p (decoded T s.transport (unread s)))
            (sym (drop-all s.plaintext_offset s.plaintext (omega arith)))

  Accounts-ready :
      (out : List ℕ) (d d' : Decoded)
      → 0 < length out
      → d ≡ after out d'
      → Accounts (ready out) d d'
  Accounts-ready [] d d' h e = absurd (omega arith)
  Accounts-ready (b ∷ bs) d d' h e = e

  serve-Accounts :
      (room : ℕ) (s : NoiseStream S)
      → 0 < room
      → IsReadable s
      → s.plaintext_offset < length s.plaintext
      → IsReadable (serve room s).1
        × Accounts (ready (serve room s).0) (view s) (view (serve room s).1)
  unfolding serve
  serve-Accounts room s pos v left = elim (Bool-cases (offset == length s.plaintext)) [
    | inl whole ↦ rw whole (
      ground arith,
      Accounts-ready _ _ _ (omega (arith, taken))
          (ap (λ p. after p rest) (sym (take-all count available (ground (arith, some_left))))),
    )
    | inr more ↦ rw more (
      ground (arith, some_left),
      Accounts-ready _ _ _ (omega (arith, taken))
          (ap (λ p. after p rest) split ∙ sym (after-append (take count available) _ rest)),
    )
  ]
    where
      available : List ℕ
      available = drop s.plaintext_offset s.plaintext

      count : ℕ
      count = min (length available) room

      offset : ℕ
      offset = s.plaintext_offset + count

      rest : Decoded
      rest = decoded T s.transport (unread s)

      some_left : length available ≡ length s.plaintext - s.plaintext_offset
      some_left = length-drop s.plaintext_offset s.plaintext

      taken : 0 < length (take count available)
      taken = omega (arith, length-take count available (omega arith), some_left)

      split : available ≡ take count available ++ drop offset s.plaintext
      split =
          sym (take-append-drop count available)
          ∙ ap (λ r. take count available ++ r) (drop-drop s.plaintext_offset count s.plaintext)

  -- An answer that accounts for `d`; with enough fuel there is one.
  abbrev Good : Decoded → Option (Poll (List ℕ) × NoiseStream S) → Type 0
  Good d none = ⊥
  Good d (some (r, s)) = IsReadable s × Accounts r d (view s)

  round-Good :
      (d : Decoded) (w : List ℕ) (next : NoiseStream S → Option (Poll (List ℕ) × NoiseStream S))
      (x : Round S)
      → ((u : NoiseStream S) → IsReadable u → HasLess w u → Good (view u) (next u))
      → Keeps d (HasLess w) x
      → Good d (elim x [ stop r u ↦ some (r, u) | go u ↦ next u ])
  round-Good d w next (stop r u) ih k = k
  round-Good d w next (go u) ih (v, e, less) = subst (λ x. Good x (next u)) (sym e) (ih u v less)

  read_loop-Good :
      (fuel room : ℕ) (s : NoiseStream S)
      → 0 < room
      → IsReadable s
      → length (unread s) < fuel
      → Good (view s) (read_loop fuel T room s)
  unfolding read_loop
  read_loop-Good zero room s pos v enough = elim enough [ ]
  read_loop-Good (suc fuel) room s pos v enough =
      elim (Bool-cases (ltb s.plaintext_offset (length s.plaintext))) [
        | inl left ↦ rw left (serve-Accounts room s pos v (ground arith))
        | inr drained ↦ rw drained (
            round-Good (view s) (unread s) (read_loop fuel T room) (next_frame T s)
              (λ u w less. read_loop-Good fuel room u pos w (omega arith))
              (next_frame-Keeps s v (ground arith)))
      ]

  -- `poll_read` always answers, and every answer accounts for the meaning of the stream: the bytes
  -- that it hands out are the next ones, it ends the stream only where the meaning ends between two
  -- frames, and each error but the inner stream's is the one at which the meaning ends. The stream
  -- stays readable.
  pub poll_read-Accounts :
      (room : ℕ) (s : NoiseStream S)
      → 0 < room
      → IsReadable s
      → (r : Poll (List ℕ)) × (s' : NoiseStream S) × (poll_read T room s ≡ some (r, s'))
        × IsReadable s'
        × Accounts r (view s) (view s')
  unfolding poll_read
  poll_read-Accounts room s pos v = answer (poll_read T room s) refl good
    where
      good : Good (view s) (poll_read T room s)
      good = elim (Bool-cases (room == 0)) [
        | inl z ↦ absurd (ground arith)
        | inr p ↦ rw p (read_loop-Good (length (unread s) + 1) room s pos v (omega arith))
      ]

      answer :
          (o : Option (Poll (List ℕ) × NoiseStream S))
          → poll_read T room s ≡ o
          → Good (view s) o
          → (r : Poll (List ℕ)) × (s' : NoiseStream S) × (poll_read T room s ≡ some (r, s'))
            × IsReadable s'
            × Accounts r (view s) (view s')
      answer none e g = absurd g
      answer (some (r, s')) e g = (r, s', e, g.0, g.1)

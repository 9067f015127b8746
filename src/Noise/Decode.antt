-- ===== src/Noise/Decode.antt =====
-- What the bytes of an encrypted stream mean, read in one piece: the reference for `poll_read` of
-- src/noise.rs, which gets them in chunks.
use rust_ssh.Prelude.{
  ℕ, zero, suc, ◌≤◌, ◌<◌, ◌≡◌, refl, ap, ◌∙◌, ◌||◌, List, [], ◌∷◌, ◌++◌, none, some, length, take,
  drop, ltb, ◌==◌, if◌then◌else◌, from_be_bytes, arith, append_assoc, length-append, length-drop,
  inl, inr, true, false, take-append_eq, drop-append_eq, Option-cases,
}
use rust_ssh.Noise.{Transport, max_ciphertext_frame}

-- How a stream ends: between frames, or by what makes the reader give up.
pub data End : Type 0 where
  clean in_header in_body bad_length bad_tag : End

pub record Decoded : Type 0 where
  pub plain : List ℕ
  pub ending : End

abbrev pub ends : End → Decoded
ends e = record { plain = []; ending = e }

abbrev pub after : List ℕ → Decoded → Decoded
after p d = record { plain = p ++ d.plain; ending = d.ending }

pub after-append : (p q : List ℕ) (d : Decoded) → after p (after q d) ≡ after (p ++ q) d
after-append p q d = rw append_assoc

module _ {S : Type 0} (T : Transport S) where
  -- One frame: its announced size, what follows the header, and how to read on.
  unfoldable pub decode_frame : (S → List ℕ → Decoded) → S → ℕ → List ℕ → Decoded
  decode_frame next u n body =
      let opened : Decoded = elim (T.read_message u (take n body)) [
        | none ↦ ends bad_tag
        | some (p, t) ↦ after p (next t (drop n body))
      ] in
      if n == 0 || ltb max_ciphertext_frame n
      then ends bad_length
      else (if ltb (length body) n then ends in_body else opened)

  module _ (next : S → List ℕ → Decoded) (u : S) (n : ℕ) where
    pub decode_frame_bad :
        (body : List ℕ)
        → (n == 0 || ltb max_ciphertext_frame n) ≡ true
        → decode_frame next u n body ≡ ends bad_length
    unfolding decode_frame
    decode_frame_bad body bad = rw bad

    pub decode_frame_cut :
        (body : List ℕ)
        → (n == 0 || ltb max_ciphertext_frame n) ≡ false
        → ltb (length body) n ≡ true
        → decode_frame next u n body ≡ ends in_body
    unfolding decode_frame
    decode_frame_cut body good cut = rw (good, cut)

    module _ (c rest : List ℕ) (size : length c ≡ n) where
      long_enough : ltb (length (c ++ rest)) n ≡ false
      long_enough = ground (arith, length-append c rest)

      pub decode_frame_tag :
          (n == 0 || ltb max_ciphertext_frame n) ≡ false
          → T.read_message u c ≡ none
          → decode_frame next u n (c ++ rest) ≡ ends bad_tag
      unfolding decode_frame
      decode_frame_tag good e = rw (good, long_enough, take-append_eq n c rest size, e)

      pub decode_frame_open :
          {p : List ℕ} {t : S}
          → (n == 0 || ltb max_ciphertext_frame n) ≡ false
          → T.read_message u c ≡ some (p, t)
          → decode_frame next u n (c ++ rest) ≡ after p (next t rest)
      unfolding decode_frame
      decode_frame_open {p} {t} good e =
          rw (good, long_enough, take-append_eq n c rest size, e)
            (ap (λ r. after p (next t r)) (drop-append_eq n c rest size))

  pub decode : ℕ → S → List ℕ → Decoded
  decode zero u w = ends clean
  decode (suc fuel) u w =
      if length w == 0
      then ends clean
      else (if ltb (length w) 4
          then ends in_header
          else decode_frame (decode fuel) u (from_be_bytes (take 4 w)) (drop 4 w))

  -- `next` is called on fewer bytes only.
  decode_frame_ext :
      (f g : S → List ℕ → Decoded) (u : S) (n : ℕ) (body : List ℕ)
      → ((t : S) → f t (drop n body) ≡ g t (drop n body))
      → decode_frame f u n body ≡ decode_frame g u n body
  unfolding decode_frame
  decode_frame_ext f g u n body h = elim (Option-cases (T.read_message u (take n body))) [
    | inl e ↦ rw e
    | inr ((p, t), e) ↦ rw e (rw (h t))
  ]

  -- More fuel than bytes changes nothing.
  decode_fuel :
      (f g : ℕ) (u : S) (w : List ℕ) → length w < f → length w < g → decode f u w ≡ decode g u w
  unfolding decode
  decode_fuel zero g u w h k = elim h [ ]
  decode_fuel (suc f) zero u w h k = elim k [ ]
  decode_fuel (suc f) (suc g) u [] h k = refl
  decode_fuel (suc f) (suc g) u (b ∷ w) h k = rw (
      decode_frame_ext (decode f) (decode g) u n body
        λ t. decode_fuel f g t (drop n body) (omega (arith, shorter)) (omega (arith, shorter)))
    where
      body : List ℕ
      body = drop 4 (b ∷ w)

      n : ℕ
      n = from_be_bytes (take 4 (b ∷ w))

      shorter : length (drop n body) ≤ length w
      shorter = omega (arith, length-drop n body, length-drop 4 (b ∷ w))

  unfoldable pub decoded : S → List ℕ → Decoded
  decoded u w = decode (suc (length w)) u w

  pub decoded-nil : (u : S) → decoded u [] ≡ ends clean
  unfolding decoded decode
  decoded-nil u = refl

  pub decoded_short :
      (u : S) (w : List ℕ) → 0 < length w → length w < 4 → decoded u w ≡ ends in_header
  unfolding decoded decode
  decoded_short u w h k = ground arith

  decode_one :
      (f : ℕ) (u : S) (w : List ℕ)
      → 4 ≤ length w
      → decode (suc f) u w ≡ decode_frame (decode f) u (from_be_bytes (take 4 w)) (drop 4 w)
  unfolding decode
  decode_one f u w h = ground arith

  -- One frame at the head of the stream, by its four bytes `h` and what follows.
  pub decoded_head :
      (u : S) (h x : List ℕ)
      → length h ≡ 4
      → decoded u (h ++ x) ≡ decode_frame decoded u (from_be_bytes h) x
  unfolding decoded
  decoded_head u h x four =
      decode_one (length (h ++ x)) u (h ++ x) (omega (arith, length-append h x))
      ∙ rw (take-append_eq 4 h x four, drop-append_eq 4 h x four)
          (decode_frame_ext (decode (length (h ++ x))) decoded u (from_be_bytes h) x λ t.
            decode_fuel (length (h ++ x)) (suc (length (rest t))) t (rest t)
              (omega (arith, length-drop (from_be_bytes h) x, length-append h x)) (omega arith))
    where
      rest : S → List ℕ
      rest t = drop (from_be_bytes h) x

-- ===== src/Protocol/FrameLaws.antt =====
-- Frames of src/protocol.rs: the round trip, and the bounds on what is read and written.
use rust_ssh.Prelude.{
  ℕ, ◌≤◌, ◌<◌, ◌≡◌, refl, ap, sym, ◌∙◌, List, [], ◌∷◌, ◌++◌, Option, none, some, length, take, drop,
  arith, from_be_bytes, to_be_bytes, from_be_bytes-to_be_bytes, length-to_be_bytes, take-append_eq,
  drop-append_eq, length-append, append_assoc, length-take, take-append-drop,
}
use rust_ssh.Protocol.{max_frame_size}
use rust_ssh.Protocol.Frame.{
  Json, frame, written, decode_payload, read_frame, frame_payload, write_frame,
}

-- Decoding gives back what was encoded.
abbrev pub IsJson : {M : Type 0} → Json M → Type 0
IsJson {M} json = (m : M) (bs : List ℕ) → json.to_vec m ≡ some bs → json.from_slice bs ≡ some m

module _ {M : Type 0} (json : Json M) where
  -- A frame at the head of the stream.
  read_frame_head :
      (h payload rest : List ℕ)
      → length h ≡ 4
      → from_be_bytes h ≡ length payload
      → 0 < length payload
      → length payload ≤ max_frame_size
      → read_frame json (h ++ (payload ++ rest)) ≡ decode_payload json payload rest
  unfolding read_frame
  read_frame_head h payload rest four n pos fits =
      rw
        (
          take-append_eq 4 h (payload ++ rest) four,
          drop-append_eq 4 h (payload ++ rest) four,
          n,
          take-append_eq (length payload) payload rest refl,
          drop-append_eq (length payload) payload rest refl,
        )
        (ground (arith, length-append h (payload ++ rest), length-append payload rest))

  decode_payload-some :
      (p rest : List ℕ) (m : M)
      → json.from_slice p ≡ some m
      → decode_payload json p rest ≡ frame m rest
  unfolding decode_payload
  decode_payload-some p rest m e = ground arith

  decode_payload-eq_frame :
      (p r rest : List ℕ) (m : M)
      → decode_payload json p r ≡ frame m rest
      → (json.from_slice p ≡ some m) × (r ≡ rest)
  unfolding decode_payload
  decode_payload-eq_frame p r rest m e = ground arith

  write_frame_parts :
      (m : M) (bs : List ℕ)
      → write_frame json m ≡ written bs
      → (payload : List ℕ) × (json.to_vec m ≡ some payload)
        × (bs ≡ to_be_bytes (length payload) ++ payload)
        × (0 < length payload)
        × (length payload ≤ max_frame_size)
  unfolding write_frame
  write_frame_parts m bs e = go (json.to_vec m) refl e
    where
      go :
          (o : Option (List ℕ))
          → json.to_vec m ≡ o
          → frame_payload json o ≡ written bs
          → (payload : List ℕ) × (json.to_vec m ≡ some payload)
            × (bs ≡ to_be_bytes (length payload) ++ payload)
            × (0 < length payload)
            × (length payload ≤ max_frame_size)
      go none k l = cc
      go (some []) k l = cc
      go (some (b ∷ p)) k l = (b ∷ p, k, ground arith, omega arith, ground arith)

  -- What `write_frame` wrote, `read_frame` reads back, and it leaves what follows.
  pub read_frame-write_frame :
      IsJson json
      → (m : M) (bs rest : List ℕ) → write_frame json m ≡ written bs
      → read_frame json (bs ++ rest) ≡ frame m rest
  read_frame-write_frame good m bs rest e =
      let (p, enc, same, pos, fits) = write_frame_parts m bs e in
      ap (λ x. read_frame json (x ++ rest)) same
      ∙ ap (read_frame json) (append_assoc (to_be_bytes (length p)) p rest)
      ∙ read_frame_head (to_be_bytes (length p)) p rest (length-to_be_bytes (length p))
          (from_be_bytes-to_be_bytes (length p) (omega arith)) pos fits
      ∙ decode_payload-some p rest m (good m p enc)

  -- A frame that is read has a payload of 1 to 65536 bytes at the head of the stream, announced by
  -- its four bytes, and leaves exactly what follows.
  pub read_frame_bounds :
      (bs rest : List ℕ) (m : M)
      → read_frame json bs ≡ frame m rest
      → (h : List ℕ) × (payload : List ℕ) × (bs ≡ h ++ (payload ++ rest))
        × (length h ≡ 4)
        × (from_be_bytes h ≡ length payload)
        × (1 ≤ length payload)
        × (length payload ≤ max_frame_size)
        × (json.from_slice payload ≡ some m)
  unfolding read_frame
  read_frame_bounds bs rest m e =
      let (long, sized, whole, decoded) = passed in
      let (parsed, same) = decode_payload-eq_frame (take n body) (drop n body) rest m decoded in
      let size : length (take n body) ≡ n = length-take n body whole in
      (
        take 4 bs,
        take n body,
        sym (take-append-drop 4 bs)
            ∙ ap (λ x. take 4 bs ++ x)
                (sym (take-append-drop n body) ∙ ap (λ x. take n body ++ x) same),
        length-take 4 bs long,
        sym size,
        omega (arith, size, sized.0),
        omega (arith, size, sized.1),
        parsed,
      )
    where
      n : ℕ
      n = from_be_bytes (take 4 bs)

      body : List ℕ
      body = drop 4 bs

      passed :
          (4 ≤ length bs)
          × ((1 ≤ n) × (n ≤ max_frame_size))
          × (n ≤ length body)
          × (decode_payload json (take n body) (drop n body) ≡ frame m rest)
      passed = ground arith

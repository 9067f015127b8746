-- ===== src/Protocol/Frame.antt =====
-- src/protocol.rs, `read_frame` and `write_frame`: a length of four bytes and a JSON payload.
use rust_ssh.Prelude.{
  ℕ, ◌||◌, List, ◌++◌, Option, none, some, length, take, drop, ltb, ◌==◌, if◌then◌else◌,
  from_be_bytes, to_be_bytes, is_empty,
}
use rust_ssh.Protocol.{max_frame_size}

-- `serde_json`: what a message is encoded to, and what bytes are decoded to.
pub record Json (M : Type 0) : Type 0 where
  pub to_vec : M → Option (List ℕ)
  pub from_slice : List ℕ → Option M

pub data FrameError : Type 0 where
  reading_length reading_payload decoding encoding too_large : FrameError
  invalid_length : ℕ → FrameError

-- A frame read, with the bytes after it.
pub data Framed (M : Type 0) : Type 0 where
  frame : M → List ℕ → Framed M
  frame_error : FrameError → Framed M

pub data Written : Type 0 where
  written : List ℕ → Written
  not_written : FrameError → Written

module _ {M : Type 0} (json : Json M) where
  unfoldable pub decode_payload : List ℕ → List ℕ → Framed M
  decode_payload payload rest = elim (json.from_slice payload) [
    | none ↦ frame_error decoding
    | some m ↦ frame m rest
  ]

  -- On a stream that brings `bytes` and then ends.
  unfoldable pub read_frame : List ℕ → Framed M
  unfolding decode_payload
  read_frame bytes =
      let n = from_be_bytes (take 4 bytes) in
      let body = drop 4 bytes in
      if ltb (length bytes) 4
      then frame_error reading_length
      else (if n == 0 || ltb max_frame_size n
          then frame_error (invalid_length n)
          else (if ltb (length body) n
              then frame_error reading_payload
              else decode_payload (take n body) (drop n body)))

  -- The bytes that are written, or why none are.
  unfoldable pub frame_payload : Option (List ℕ) → Written
  frame_payload none = not_written encoding
  frame_payload (some payload) =
      if is_empty payload || ltb max_frame_size (length payload)
      then not_written too_large
      else written (to_be_bytes (length payload) ++ payload)

  unfoldable pub write_frame : M → Written
  unfolding frame_payload
  write_frame m = frame_payload (json.to_vec m)

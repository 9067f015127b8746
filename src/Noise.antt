-- ===== src/Noise.antt =====
-- src/noise.rs: the encrypted stream `NoiseStream` and what it stands on. The `snow` transport is a
-- parameter; the inner socket is a script of what its polls will answer.
pub mod Read
pub mod Decode
pub mod Buffers
pub mod ReadView
pub mod Write
pub mod WriteView
pub mod FlushView
pub mod Seal
pub mod Handshake
pub mod HandshakeLaws
mod Tests
use rust_ssh.Prelude.{ℕ, ◌+◌, ◌*◌, ◌≤◌, ◌≡◌, List, [], Option, none, some, length, replicate}

abbrev pub noise_tag_size : ℕ
noise_tag_size = 16

abbrev pub max_plaintext_chunk : ℕ
max_plaintext_chunk = 32768

abbrev pub max_ciphertext_frame : ℕ
max_ciphertext_frame = max_plaintext_chunk + noise_tag_size

-- `snow::TransportState`: `none` is an error of the library, which leaves the state as it was.
pub record Transport (S : Type 0) : Type 0 where
  pub write_message : S → List ℕ → Option (List ℕ × S)
  pub read_message : S → List ℕ → Option (List ℕ × S)

-- What one poll of the inner stream for reading answers: `Pending` (no byte), the bytes that have
-- come in (none: the end of the stream), or an I/O error.
pub data Arrival : Type 0 where
  nothing_yet : Arrival
  arrives : List ℕ → Arrival
  breaks : Arrival

-- What one poll of the inner stream for writing answers: `Pending`, `Ok(n)`, or an I/O error.
pub data Acceptance : Type 0 where
  busy : Acceptance
  accepts : ℕ → Acceptance
  refuses : Acceptance

pub data IoError : Type 0 where
  write_zero invalid_write_length header_eof body_eof noise_error inner_error : IoError
  bad_frame_length : ℕ → IoError

pub data Poll {ℓ} (A : Type ℓ) : Type ℓ where
  pending : Poll A
  ready : A → Poll A
  failed : IoError → Poll A

pub record PendingWrite : Type 0 where
  pub wire : List ℕ
  pub offset : ℕ
  pub plaintext_len : ℕ

pub record NoiseStream (S : Type 0) : Type 0 where
  -- `inner`: the answers to come, and the bytes that it has taken so far.
  pub arrivals : List Arrival
  pub acceptances : List Acceptance
  pub sent : List ℕ
  pub transport : S
  pub read_header : List ℕ
  pub read_header_filled : ℕ
  pub read_body : List ℕ
  pub read_body_filled : ℕ
  pub plaintext : List ℕ
  pub plaintext_offset : ℕ
  pub pending_write : Option PendingWrite

unfoldable pub new : {S : Type 0} → List Arrival → List Acceptance → S → NoiseStream S
new ins outs transport = record {
  arrivals = ins;
  acceptances = outs;
  sent = [];
  transport = transport;
  read_header = replicate 4 0;
  read_header_filled = 0;
  read_body = [];
  read_body_filled = 0;
  plaintext = [];
  plaintext_offset = 0;
  pending_write = none;
}

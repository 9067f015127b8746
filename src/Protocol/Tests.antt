-- ===== src/Protocol/Tests.antt =====
-- The theorems on frames at an encoding of messages by one byte.
use rust_ssh.Prelude.{
  ℕ, zero, suc, arith, ◌≤◌, ◌≡◌, refl, List, [], ◌∷◌, ◌++◌, Option, none, some, length,
  from_be_bytes, to_be_bytes,
}
use rust_ssh.Protocol.{Message, ping, pong, max_frame_size}
use rust_ssh.Protocol.Frame.{Json, frame, read_frame, write_frame}
use rust_ssh.Protocol.FrameLaws.{IsJson, read_frame-write_frame, read_frame_bounds}

abbrev one_byte : Message → Option (List ℕ)
one_byte ping = some (1 ∷ [])
one_byte pong = some (2 ∷ [])
one_byte _ = none

abbrev from_one_byte : List ℕ → Option Message
from_one_byte (suc zero ∷ []) = some ping
from_one_byte (suc (suc zero) ∷ []) = some pong
from_one_byte _ = none

abbrev byte_json : Json Message
byte_json = record { to_vec = one_byte; from_slice = from_one_byte }

byte_json-IsJson : IsJson byte_json
byte_json-IsJson m bs e = go m e
  where
    go : (m : Message) → one_byte m ≡ some bs → from_one_byte bs ≡ some m
    go m e = ground arith

read_frame-write_frame_example :
    read_frame byte_json ((0 ∷ 0 ∷ 0 ∷ 1 ∷ 2 ∷ []) ++ (9 ∷ [])) ≡ frame pong (9 ∷ [])
unfolding write_frame to_be_bytes
read_frame-write_frame_example =
    read_frame-write_frame byte_json byte_json-IsJson pong (0 ∷ 0 ∷ 0 ∷ 1 ∷ 2 ∷ []) (9 ∷ []) refl

read_frame_bounds_example :
    (h : List ℕ) × (payload : List ℕ) × (0 ∷ 0 ∷ 0 ∷ 1 ∷ 2 ∷ 9 ∷ [] ≡ h ++ (payload ++ (9 ∷ [])))
    × (length h ≡ 4)
    × (from_be_bytes h ≡ length payload)
    × (1 ≤ length payload)
    × (length payload ≤ max_frame_size)
    × (byte_json.from_slice payload ≡ some pong)
unfolding read_frame from_be_bytes
read_frame_bounds_example =
    read_frame_bounds byte_json (0 ∷ 0 ∷ 0 ∷ 1 ∷ 2 ∷ 9 ∷ []) (9 ∷ []) pong refl

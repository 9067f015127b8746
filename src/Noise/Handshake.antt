-- ===== src/Noise/Handshake.antt =====
-- src/noise.rs, the handshakes. The snow handshake, its keys and the socket are calls, whose replies are
-- left open; so is `identity.private_key()`, inside `build_responder`.
use rust_ssh.Prelude.{
  ℕ, List, Bool, true, false, not, ◌||◌, ◌==◌, Option, none, some, length, is_empty, ltb,
  if◌then◌else◌, list_eq, Prog, ret, call,
}

abbrev pub max_handshake_message : ℕ
max_handshake_message = 65535

abbrev pub static_key_size : ℕ
static_key_size = 32

pub data HandshakeError : Type 0 where
  bad_pinned_key no_key_pair no_handshake snow_write snow_read no_remote_key wrong_remote_key
        no_transport reading writing invalid_message_length :
      HandshakeError
  invalid_frame_length : ℕ → HandshakeError

-- `write_message` and `read_message` are the handshake's; the others read and write the socket.
pub data Call : Type 0 where
  generate_keypair build_initiator build_responder write_message get_remote_static
        into_transport_mode read_u32 flush :
      Call
  read_message write_all : List ℕ → Call
  write_u32 read_exact : ℕ → Call

abbrev pub Reply : Call → Type 0
Reply write_message = Option (List ℕ)
Reply get_remote_static = Option (List ℕ)
Reply read_u32 = Option ℕ
Reply (read_exact n) = Option (List ℕ)
Reply _ = Bool

-- The stream with its transport, or why there is none.
pub data Handshake : Type 0 where
  secured : Handshake
  failed : HandshakeError → Handshake

abbrev pub Shaking : Type 0
Shaking = Prog Call Reply Handshake

-- `….map_err(…)?` on a call that succeeds or not, and on one with a result.
unfoldable pub or_fail : HandshakeError → Shaking → Bool → Shaking
or_fail e next true = next
or_fail e next false = ret (failed e)

unfoldable pub with_result : {A : Type 0} → HandshakeError → (A → Shaking) → Option A → Shaking
with_result e next (some a) = next a
with_result e next none = ret (failed e)

unfoldable pub frame_body : (List ℕ → Shaking) → ℕ → Shaking
frame_body next n =
    if n == 0 || ltb max_handshake_message n
    then ret (failed (invalid_frame_length n))
    else call (read_exact n) (with_result reading next)

unfoldable pub read_noise_message : (List ℕ → Shaking) → Shaking
unfolding frame_body
read_noise_message next = call read_u32 (with_result reading (frame_body next))

unfoldable pub write_noise_message : List ℕ → Shaking → Shaking
write_noise_message message next =
    if is_empty message || ltb max_handshake_message (length message)
    then ret (failed invalid_message_length)
    else call (write_u32 (length message)) (
        or_fail writing
          (call (write_all message) (or_fail writing (call flush (or_fail writing next)))))

-- A handshake message of ours, and one of the other side.
unfoldable pub send_message : Shaking → Shaking
send_message next = call write_message (with_result snow_write λ m. write_noise_message m next)

unfoldable pub receive_message : Shaking → Shaking
receive_message next = read_noise_message λ m. call (read_message m) (or_fail snow_read next)

abbrev pub finish : Shaking
finish = call into_transport_mode (or_fail no_transport (ret secured))

unfoldable pub check_remote : List ℕ → List ℕ → Shaking
check_remote expected remote =
    if not (list_eq remote expected) then ret (failed wrong_remote_key) else send_message finish

unfoldable pub client_handshake : List ℕ → Shaking
client_handshake expected =
    if not (length expected == static_key_size)
    then ret (failed bad_pinned_key)
    else call generate_keypair (
        or_fail no_key_pair (
          call build_initiator (
            or_fail no_handshake (
              send_message (
                receive_message
                  (call get_remote_static (with_result no_remote_key (check_remote expected))))))))

unfoldable pub server_handshake : Shaking
server_handshake =
    call build_responder
      (or_fail no_handshake (receive_message (send_message (receive_message finish))))

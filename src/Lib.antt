-- ===== src/Lib.antt =====
-- rust-ssh: a relay that lets SSH clients reach machines behind a firewall. An agent
-- (src/agent.rs) keeps an encrypted control connection to the relay server (src/server.rs); a
-- controller (src/connect.rs) asks the server for a session with a device, the server tells the
-- agent, the agent opens a second connection, and the server joins the two streams. All
-- connections are Noise streams (src/noise.rs) that carry frames of JSON messages
-- (src/protocol.rs).
--
-- Prelude: the numbers, lists, bytes and texts that the parts share. A Rust string is the list of
-- its character codes (Text), its bytes are as_bytes; a HashMap is an association list (Maps).
-- Code that waits for the world is a program of calls (Programs): a tree with a branch for each
-- reply, and Always P says that P holds of the log of the calls and of the result, whatever the
-- replies are.
--
-- Noise models src/noise.rs. NoiseStream has the fields of the source, but `inner` is a script:
-- what the polls of the inner stream will answer, and the bytes it has taken. Read is poll_read,
-- cut into the parts of one round of its loop; Decode is the reference that reads a whole byte
-- string at once; Buffers and ReadView compare the two. Write is poll_pending_write, poll_write,
-- poll_flush and poll_shutdown; Seal is the wire of a list of chunks; WriteView compares. The
-- snow transport is the parameter Transport, and IsChannel is what is assumed of it. The fuel of
-- poll_read is one more than the ciphertext left, since a round that goes on uses up a frame; a
-- `none` would be missing fuel. poll_flush calls itself once, after it finished a frame, so its
-- fuel is 2. The registration of wakers is not modelled.
--
-- Protocol models src/protocol.rs. A frame is read from the bytes that a stream brings before it
-- ends; serde_json is the parameter Json. Net has the replies of the waits of all endpoints, and
-- the formats of error texts (Formats, a parameter).
--
-- DeviceId models src/device_id.rs; the key pair and hex::encode are parameters.
--
-- Server models src/server.rs. Auth has the token checks and authenticate. Calls has what the
-- handlers call; Connection (handle_connection), Session (handle_agent_session) and Controller
-- (handle_controller) are programs of these calls, and Logs reads their logs. Agent is the loop
-- of handle_agent over the events that its select! takes, with the clean-up of its tasks. Permits
-- is the semaphore of the accept loop: where each permit is, while it travels with its stream.
-- Registry is the shared state, the map of devices and the sessions that wait for them: each step
-- holds the lock of what it changes, and Step lets the steps of all handlers come in any order,
-- of any device. There an Arc is a number, and the phases of handle_agent are kept beside its
-- device. Each file XLaws proves what X promises; OwnerLaws is about Registry too.
--
-- Client models what connects to the relay: Connect is src/connect.rs, Session is run_session of
-- src/agent.rs, Control the loop of run_control_stream, Delay the delays of its supervisor, in
-- nanoseconds, and Startup the checks of src/agent.rs and src/main.rs before a client starts.
-- Elsewhere durations are milliseconds.
--
-- Pairing models src/bootstrap.rs and decode_public_key of src/identity.rs; Create is
-- create_code, RoundTrip has what is assumed of the encodings (IsFaithful), and Sample an
-- instance for the tests; Handshake and HandshakeLaws of Noise have the handshakes of
-- src/noise.rs.
--
-- Identity models src/identity.rs: Files has the calls of the file system and reads from a log of
-- them what a run has created; a file that is open is known by its path. The files of add_device
-- (Server/Devices), of create_code and of the commands are the same calls. EnrolLaws of Server
-- joins add_device with the loading of the tokens, with Pairing and with authenticate.
--
-- Cli models src/main.rs after clap has parsed the arguments, and Proxy the mode of src/bin/rust-
-- ssh-connect.rs that OpenSSH starts. Errors are not told apart there: a command ends well or
-- not.
--
-- Installer models src/bin/rust-ssh-installer-helper.rs. The loop over the processes of a
-- snapshot and the wait of five seconds are bounded by fuel and by a number of rounds; a run that
-- has used them up answers 9999 in place of an exit code. Since a round sleeps 100 milliseconds,
-- 51 rounds reach the deadline if the clock moves with the sleeps.
--
-- Bridge models the proxy of src/bridge.rs: what its two directions copy comes as events in any
-- order.
--
-- Desktop models src/desktop.rs. Checks has the validators and client_agent_config, Quote the
-- quoting for shells and AppleScript, SshConfig the texts of the managed block of ~/.ssh/config,
-- ClientApp and ConnectApp the state of the two windows with one function for each method; the
-- order of clicks and of what threads bring is left open by Step. Threads are numbers;
-- cfg(windows) is an argument. PrivateFile is write_private_file as a program of file-system
-- calls. Settings is the loading, the saving and the migration of the settings and
-- install_ssh_host, as programs in which write_private_file and update_managed_ssh_config are one
-- call each. AliasLaws is about the aliases that ConnectApp keeps, ChecksLaws joins Checks with
-- Pairing and Client.Startup.
--
-- In Server, Tokens has the loading of the token files and their reload: the directory is a list
-- of entries with what reading each answers; LoadLaws is about its loop, SortLaws about the order
-- and the map of the records, ReloadLaws about the ticks, TokensLaws about what follows for
-- authenticate. In Client, Supervisor has run_control up to its loop and
-- run_until_stopped_with_timing over the rounds that it lives through.
--
-- Not modelled: the two tasks that handle_agent spawns, the timeouts of client_connect and of the
-- handshake in the accept loop, migrate_setup_code_file of src/desktop.rs, and what the windows
-- draw.
pub mod Prelude
pub mod Noise
pub mod DeviceId
pub mod Protocol
pub mod Server
pub mod Client
pub mod Pairing
pub mod Identity
pub mod Desktop
pub mod Bridge
pub mod Cli
pub mod Installer

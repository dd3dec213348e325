-- ===== src/Lib.antt =====
-- Verification of the core of telnet-tls-server, a Telnet and SSH front end for a MUD server.
--
-- The program accepts raw bytes from a transport (src/secure_server.c, src/ssh_transport.c), turns
-- them into lines (src/telnet_protocol.c), negotiates Telnet options (src/telnet_negotiation.c),
-- checks each connection and each login against a shared policy (src/security_policy.c), keeps the
-- accounts (src/player_store.c), and filters what is shown on a terminal (src/terminal_text.c).
--
-- - Common holds the shared names: Boolean tests, lists over the native numbers, C strings. A
--   `const char *` is the list of its bytes before the terminator; where the code tests for NULL on a
--   path that is modelled, the argument is an `Option`.
-- - Negotiation is src/telnet_negotiation.c: a `Side` is a `telnet_q_side`, `telnet_q_request` and
--   `telnet_q_receive` return the new state with the messages given to `send_fn`. Negotiation.Slots
--   says what an operation does to each slot; Negotiation.Link joins two ends by two ordered channels
--   and Negotiation.Link.Converge treats their negotiation.
-- - Security is src/security_policy.c. Security.Keys has `copy_key` and `normalize_account`;
--   Security.Window the rolling event windows; Security.Table the fixed tables and their search, with
--   a map as the abstract view; Security.Policy the operations, each one step under the mutex, with
--   the lockout, the limits and the memory bounds in its child modules. Times are `uint64_t`
--   milliseconds given by the caller; a sum that may wrap is taken modulo 2^64.
-- - Text is src/terminal_text.c. Text.Utf8 has the decoder and the validator, Text.Sanitize the two
--   filters. A loop that consumes at least a byte a round runs on as many rounds as there are input
--   bytes, which suffices.
-- - Players is src/player_store.c. Players.Names has the rules for names and passwords, Players.Record
--   the text of a record with its reader, Players.Disk the files with the two ways to write a record,
--   temporary files and their removal included, Players.Store the operations. The directory is a
--   function from paths to entries; a file that `fdopen`, reading or `fclose` fails on is an entry of
--   its own. The answers of system calls and of libsodium are the fields of `Host`, and each operation
--   that asks takes the next ones.
-- - Telnet is the session of src/telnet_protocol.c. Telnet.Rate has the fixed windows of its ceilings,
--   Telnet.Session the state with the writing functions, Telnet.Line the line input and the control
--   commands, Telnet.Framing the parser of `telnet_session_feed_at`. Telnet.Login is the account
--   dialogue and the commands, on the store and the policy that the session points to. Telnet.Options
--   is `receive_telnet_option` with the metadata it renews, Telnet.Payloads the handlers of NAWS,
--   TERMINAL-TYPE, CHARSET and NEW-ENVIRON, Telnet.Gmcp and Telnet.Mssp those protocols, Telnet.Output
--   what an application writes, and Telnet.Handlers puts these together, with the creation and the start
--   of a session. The calls of the writer and of the audit log are lists kept in the state. The hooks of
--   the application are the record `Application`.
-- - Audit is the text of the records of src/audit_log.c.
-- - Examples applies the theorems at concrete inputs and runs the model.
--
-- Not modelled: the files of the audit log, the SSH transport (src/ssh_transport.c) and the
-- listener (src/secure_server.c); of the player store the checks of its directory; sockets, threads,
-- TLS and SSH libraries, the harness application, the client under tools, memory allocation and
-- clearing, and the pointer arguments that no caller passes as NULL.
pub mod Audit
pub mod Common
pub mod Negotiation
pub mod Players
pub mod Security
pub mod Text
pub mod Telnet
pub mod Examples

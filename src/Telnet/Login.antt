-- ===== src/Telnet/Login.antt =====
-- The account dialogue of src/telnet_protocol.c: what answers a completed line in each login
-- state. The hooks of the application are parameters, `Outside`.
pub mod Steps
pub mod Admission
pub mod Entry
pub mod Gate
pub mod Buffer
pub mod Progress
use telnet_tls_server.Common.{
  ℕ, ltb, leb, ◌==◌, if◌then◌else◌, Bool, true, false, not, ◌||◌, List, [], ◌∷◌, ◌++◌, Option, none,
  some, Bytes, codes, length,
}
use telnet_tls_server.Negotiation.{local, TelnetQ, Message, telnet_q_request}
use telnet_tls_server.Text.Sanitize.{terminal_text_sanitize}
use telnet_tls_server.Security.Policy.{
  SecurityPolicy, Outcome, security_policy_allow_auth_attempt,
  security_policy_allow_account_creation, security_policy_note_auth_failure,
  security_policy_note_auth_success,
}
use telnet_tls_server.Players.Names.{
  player_password_min, player_store_name_valid, player_store_password_allowed,
  ascii_equal_ignore_case,
}
use telnet_tls_server.Players.Disk.{Host, Created, created, already_there, not_created}
use telnet_tls_server.Players.Store.{
  Verified, player_store_exists, player_store_create, player_store_prepare_password,
  player_store_password_matches, player_store_verify_password,
}
use telnet_tls_server.Telnet.Rate.{rate_consume}
use telnet_tls_server.Telnet.Session.{
  LoginState, login_name, login_password, login_new_password, login_confirm_password, login_in_game,
  Session, audit, write_text, write_prompt_text, write_telnet_option_raw, request_close,
}
use telnet_tls_server.Telnet.Line.{Dialogue}

-- The hooks of the application that the login calls, with what they do to the session through
-- `application_output`; `none` where the hook is NULL. `open` answers whether it gave a session
-- and `line` whether it returned 0. `replay_core` is `replay_pre_auth_gmcp_core`.
pub record Outside : Type 0 where
  pub open_hook : Option (Session → Session × Bool)
  pub line_hook : Option (Bytes → Session → Session × Bool)
  pub replay_core : Session → Session

abbrev pub commands_per_window : ℕ
commands_per_window = 25

abbrev pub commands_window_ms : ℕ
commands_window_ms = 5000

-- `q_send_callback` on each message.
unfoldable pub send_messages : List Message → Session → Session
unfolding write_telnet_option_raw
send_messages [] s = s
send_messages ((command, option) ∷ messages) s =
    send_messages messages (write_telnet_option_raw command option s)

unfoldable pub request_option : TelnetQ × List Message → Session → Session
unfolding send_messages
request_option (options, messages) s = send_messages messages (record s { options = options })

-- The ECHO option is 1.
unfoldable pub password_echo_off : Session → Session
unfolding request_option
password_echo_off s =
    request_option (telnet_q_request s.options local 1 true) (record s { echo_desired = true })

unfoldable pub password_echo_on : Session → Session
unfolding request_option
password_echo_on s =
    request_option (telnet_q_request s.options local 1 false) (record s { echo_desired = false })

unfoldable pub warn_insecure_password_once : Session → Session
warn_insecure_password_once s =
    if s.terminal.secure_transport || s.insecure_warning_shown
    then s
    else write_text
        (codes
          "\r\n[Notice: plain Telnet is not encrypted; use the TLS endpoint when available.]\r\n")
        (record s { insecure_warning_shown = true })

unfoldable pub write_untrusted_text : Bytes → Session → Session
unfolding terminal_text_sanitize
write_untrusted_text text s = write_text (terminal_text_sanitize (some text) 256) s

shown_name : Bytes → Bytes
shown_name [] = codes "-"
shown_name (b ∷ bs) = b ∷ bs

player_detail : Bytes → Bytes
unfolding shown_name
player_detail name =
    let detail = codes "player=" ++ shown_name name in
    if leb 96 (length detail) then codes "player=truncated" else detail

unfoldable pub audit_player_event : Bytes → Session → Session
unfolding player_detail
audit_player_event event s = audit event (some (player_detail s.player_name)) s

-- Behind the `open` hook.
unfoldable pub opened : Outside → Session × Bool → Session
opened out (s, true) = out.replay_core (record s { has_application = true })
opened out (s, false) =
    request_close (some (codes "application_open_rejected")) none
      (record s { has_application = false })

unfoldable pub welcome : Session → Session
welcome s = write_prompt_text (codes "> ") (
    write_text
      (codes
        ". You are now in game.\r\nType PING to test the session, HELP for commands, or QUIT to disconnect.\r\n")
      (write_untrusted_text s.player_name (write_text (codes "\r\nWelcome, ") s)))

unfoldable pub start_application : Outside → Option (Session → Session × Bool) → Session → Session
start_application out (some hook) s = opened out (hook s)
start_application out none s = welcome s

unfoldable pub enter_game : Outside → Session → Session
enter_game out s =
    start_application out out.open_hook
      (audit_player_event (codes "login_success") (record s { login = login_in_game }))

-- The rest of `process_player_name`, by what `player_store_exists` returned.
unfoldable pub known_name : Option Bool → Session → Session
known_name none s = write_prompt_text (codes "Player name: ") (
    write_text (codes "\r\nThat player record could not be read safely.\r\n")
      (record (audit_player_event (codes "player_record_rejected") s) { player_name = [] }))
known_name (some true) s =
    write_prompt_text (codes "Password: ")
      (warn_insecure_password_once (password_echo_off (record s { login = login_password })))
known_name (some false) s = write_prompt_text (codes "Create a password (8-128 characters): ") (
    write_text (codes "New player. ")
      (warn_insecure_password_once (password_echo_off (record s { login = login_new_password }))))

unfoldable pub process_player_name : Host → Session → Session
process_player_name host s =
    if not (player_store_name_valid s.line)
    then write_prompt_text (codes "Player name: ") (
        write_text
          (codes
            "\r\nNew player names must be 3-15 characters and use only letters, numbers, '_' or '-'.\r\n")
          s)
    else known_name (player_store_exists host s.store s.line) (record s { player_name = s.line })

-- `sodium_memzero` of the line, and `line_length = 0`.
abbrev pub cleared : Session → Session
cleared s = record s { line = [] }

-- The password was right: behind `security_policy_note_auth_success`.
unfoldable pub logged_in : Outside → Bool → Session → Session
logged_in out rehashed s = enter_game out (
    password_echo_on
      (if rehashed then audit_player_event (codes "password_hash_upgraded") s else s))

-- The password was wrong: by the answer of the second `security_policy_allow_auth_attempt`.
unfoldable pub wrong_password : Bool → Session → Session
wrong_password true s =
    write_prompt_text (codes "Password: ") (write_text (codes "\r\nIncorrect password.\r\n") s)
wrong_password false s =
    request_close (some (codes "login_lockout"))
      (some
        (codes "\r\nIncorrect password.\r\nToo many failed passwords. Try again in 5 minutes.\r\n"))
      s

abbrev pub attempt : ℕ → Session → Outcome
attempt now s =
    security_policy_allow_auth_attempt s.security (some s.remote_id) (some s.player_name) now

-- Behind `player_store_verify_password`.
unfoldable pub verified_login : Outside → ℕ → Bool → Option Bool → Session → Session
verified_login out now rehashed (some true) s = logged_in out rehashed (record s {
  security =
      security_policy_note_auth_success s.security (some s.remote_id) (some s.player_name) now;
})
verified_login out now rehashed other s =
    let noted = audit_player_event (codes "login_failure") (record s {
      security =
          security_policy_note_auth_failure s.security (some s.remote_id) (some s.player_name) now;
    }) in
    let again = attempt now noted in
    wrong_password again.allowed (record noted { security = again.policy })

unfoldable pub attempted_login : Host → Outside → ℕ → Bool → Session → Session
attempted_login host out now false s = write_prompt_text (codes "Password: ") (
    write_text (codes "\r\nLogin is temporarily locked. Try again later.\r\n")
      (audit_player_event (codes "login_throttled") (cleared s)))
attempted_login host out now true s =
    let checked = player_store_verify_password host s.store s.player_name s.line in
    verified_login out now checked.rehashed checked.result
      (record (cleared s) { store = checked.store })

unfoldable pub process_existing_password : Host → Outside → ℕ → Session → Session
process_existing_password host out now s =
    let first = attempt now s in
    attempted_login host out now first.allowed (record s { security = first.policy })

-- Behind `player_store_prepare_password`.
unfoldable pub prepared_password : Option Bytes → Session → Session
prepared_password none s = write_prompt_text (codes "Player name: ") (
    write_text (codes "\r\nUnable to prepare the password securely.\r\n")
      (record (password_echo_on (record (cleared s) { pending_password = [] })) {
        login = login_name;
        player_name = [];
      }))
prepared_password (some token) s = write_prompt_text (codes "Confirm password: ") (
    write_text (codes "\r\n")
      (record (cleared s) { pending_password = token; login = login_confirm_password }))

-- Behind `player_store_password_allowed`.
unfoldable pub judged_password : Host → Option Bool → Session → Session
judged_password host (some true) s =
    let (store, token) = player_store_prepare_password host s.store s.line in
    prepared_password token (record s { store = store })
judged_password host other s = write_prompt_text (codes "Create password: ") (
    write_text (codes "\r\nChoose a less common password.\r\n")
      (audit_player_event (codes "weak_password_rejected") (cleared s)))

unfoldable pub process_new_password : Host → Session → Session
process_new_password host s =
    if ltb (length s.line) player_password_min
    then write_prompt_text (codes "Create password: ")
        (write_text (codes "\r\nPassword must contain at least 8 characters.\r\n") (cleared s))
    else judged_password host (player_store_password_allowed s.player_name s.line) s

-- Behind `player_store_create`; the pending password is cleared already.
unfoldable pub created_account : Outside → ℕ → Created → Session → Session
created_account out now created s =
    let noted = audit_player_event (codes "account_created") s in
    enter_game out (
      password_echo_on (record noted {
        security =
            security_policy_note_auth_success noted.security (some noted.remote_id)
              (some noted.player_name) now;
      }))
created_account out now other s = write_prompt_text (codes "Player name: ") (
    write_text (codes "\r\nThe player account could not be created. It may already exist.\r\n")
      (record (audit_player_event (codes "account_creation_failed")
        (record (password_echo_on s) { login = login_name })) { player_name = [] }))

-- Behind `security_policy_allow_account_creation`.
unfoldable pub confirmed_password : Host → Outside → ℕ → Bool → Session → Session
confirmed_password host out now false s = write_prompt_text (codes "Player name: ") (
    write_text (codes "\r\nAccount creation is temporarily limited.\r\n") (
      audit (codes "account_creation_throttled") (some (codes "new account rate limit"))
        (record (password_echo_on (record s { pending_password = [] })) {
          login = login_name;
          player_name = [];
        })))
confirmed_password host out now true s =
    let (store, result) = player_store_create host s.store s.player_name s.pending_password in
    created_account out now result (record s { store = store; pending_password = [] })

-- Behind `player_store_password_matches`.
unfoldable pub matched_password : Host → Outside → ℕ → Option Bool → Session → Session
matched_password host out now (some true) s =
    let creation = security_policy_allow_account_creation s.security (some s.remote_id) now in
    confirmed_password host out now creation.allowed (record s { security = creation.policy })
matched_password host out now other s = write_prompt_text (codes "Create password: ") (
    write_text (codes "\r\nPasswords did not match.\r\n")
      (record s { pending_password = []; login = login_new_password }))

unfoldable pub process_password_confirmation : Host → Outside → ℕ → Session → Session
process_password_confirmation host out now s =
    matched_password host out now (player_store_password_matches host s.pending_password s.line)
      (cleared s)

-- The commands of the standalone fallback.
unfoldable pub own_command : Session → Session
own_command s =
    if length s.line == 0
    then write_prompt_text (codes "> ") s
    else if ascii_equal_ignore_case s.line (codes "PING")
    then write_prompt_text (codes "> ") (write_text (codes "PONG\r\n") s)
    else if ascii_equal_ignore_case s.line (codes "HELP")
    then write_prompt_text (codes "> ") (write_text (codes "Commands: HELP, PING, QUIT\r\n") s)
    else if ascii_equal_ignore_case s.line (codes "QUIT")
    then request_close (some (codes "client_quit")) (some (codes "Goodbye.\r\n")) s
    else write_prompt_text (codes "> ") (write_text (codes "Unknown command.\r\n") s)

-- Behind the `line` hook.
unfoldable pub answered_line : Session × Bool → Session
answered_line (s, true) = s
answered_line (s, false) = request_close (some (codes "application_line_close")) none s

unfoldable pub run_command : Option (Bytes → Session → Session × Bool) → Bool → Session → Session
run_command (some hook) true s = answered_line (hook s.line s)
run_command (some hook) false s = own_command s
run_command none held s = own_command s

unfoldable pub process_command : Outside → ℕ → Session → Session
process_command out now s =
    let (window, granted) =
      rate_consume s.command_window 1 commands_per_window commands_window_ms now in
    if granted
    then run_command out.line_hook s.has_application (record s { command_window = window })
    else request_close (some (codes "command_flood"))
        (some (codes "Command rate limit exceeded.\r\n")) (record s { command_window = window })

-- The switch of `process_complete_line`.
unfoldable pub account_dialogue : Host → Outside → Dialogue
account_dialogue host out login_name now s = process_player_name host s
account_dialogue host out login_password now s = process_existing_password host out now s
account_dialogue host out login_new_password now s = process_new_password host s
account_dialogue host out login_confirm_password now s =
    process_password_confirmation host out now s
account_dialogue host out login_in_game now s = process_command out now s

-- ===== src/Telnet/Line.antt =====
-- Line input of src/telnet_protocol.c: editing, completed lines and the control commands. The
-- buffer `line[513]` with `line_length` is the list of the bytes held.
pub mod Bounds
pub mod Control
use telnet_tls_server.Common.{
  ℕ, ltb, leb, ◌==◌, if◌then◌else◌, Bool, true, false, ◌||◌, List, [], ◌∷◌, ◌++◌, Option, none,
  some, Bytes, codes, length, take, replicate, ◌+◌, ◌-◌, ◌%◌, ◌^◌,
}
use telnet_tls_server.Players.Names.{player_password_max}
use telnet_tls_server.Telnet.Rate.{rate_consume}
use telnet_tls_server.Telnet.Session.{
  LoginState, login_name, login_password, login_new_password, login_confirm_password, login_in_game,
  Session, eor_cmd, se, ga, write_text, write_prompt_text, request_close, note_protocol_violation,
}

abbrev pub application_line_max : ℕ
application_line_max = 512

abbrev pub input_lines_per_window : ℕ
input_lines_per_window = 30

abbrev pub input_lines_window_ms : ℕ
input_lines_window_ms = 10000

-- What answers a completed line: the function of the login state, one of `process_player_name`,
-- `process_existing_password`, `process_new_password`, `process_password_confirmation` and
-- `process_command`. The input code is parametric in it.
abbrev pub Dialogue : Type 0
Dialogue = LoginState → ℕ → Session → Session

-- A state in which a password is typed.
unfoldable pub password_state : LoginState → Bool
password_state login_name = false
password_state login_password = true
password_state login_new_password = true
password_state login_confirm_password = true
password_state login_in_game = false

-- `--line_length`, a `size_t`.
unfoldable pub one_less : ℕ → ℕ
one_less n = (n + (2 ^ 64 - 1)) % 2 ^ 64

-- The line of this length in the same buffer. What stands behind the text is not known; zeros stand
-- for it.
unfoldable pub with_length : ℕ → Bytes → Bytes
with_length n line = take n line ++ replicate (n - length line) 0

unfoldable pub drop_last : Bytes → Bytes
unfolding one_less with_length
drop_last line = if ltb 0 (length line) then with_length (one_less (length line)) line else line

unfoldable pub line_limit : LoginState → ℕ
unfolding password_state
line_limit l = if password_state l then player_password_max else application_line_max

unfoldable pub append_line_byte : ℕ → Session → Session
unfolding drop_last line_limit
append_line_byte byte s =
    if byte == 8 || byte == 127
    then record s { line = drop_last s.line }
    else if ltb byte 32
    then s
    else if leb (line_limit s.login) (length s.line)
    then record s { line_overflow = true }
    else record s { line = s.line ++ byte ∷ [] }

abbrev pub wiped : Session → Session
wiped s = record s { line = []; line_overflow = false }

-- After an overlong password: back to the prompt for it, or to the first of two.
unfoldable pub password_overflow : LoginState → Session → Session
unfolding write_prompt_text
password_overflow login_password s = write_prompt_text (codes "Password: ") s
password_overflow l s =
    write_prompt_text (codes "Create password: ")
      (record s { pending_password = []; login = login_new_password })

unfoldable pub overflowed_line : Session → Session
unfolding password_state password_overflow request_close
overflowed_line s =
    if password_state s.login
    then password_overflow s.login (write_text (codes "\r\nPassword input is too long.\r\n") s)
    else if s.has_application
    then request_close (some (codes "application_input_overflow"))
        (some (codes "Input is too long.\r\n")) s
    else write_prompt_text (codes "> ") (write_text (codes "Input is too long.\r\n") s)

unfoldable pub granted_line : Dialogue → ℕ → Session → Session
unfolding overflowed_line
granted_line dialogue now s =
    if s.line_overflow then overflowed_line (wiped s) else wiped (dialogue s.login now s)

-- With the line window after `rate_consume` and its answer.
unfoldable pub limited_line : Dialogue → ℕ → Bool → Session → Session
unfolding granted_line request_close
limited_line dialogue now true s = granted_line dialogue now s
limited_line dialogue now false s =
    request_close (some (codes "line_flood")) (some (codes "Input rate limit exceeded.\r\n"))
      (record s { line = [] })

unfoldable pub process_complete_line : Dialogue → ℕ → Session → Session
unfolding limited_line rate_consume
process_complete_line dialogue now s =
    let (window, granted) =
      rate_consume s.line_window 1 input_lines_per_window input_lines_window_ms now in
    limited_line dialogue now granted (record s { line_window = window })

-- A byte with no CR before it.
unfoldable pub data_byte : Dialogue → ℕ → ℕ → Session → Session
unfolding append_line_byte process_complete_line
data_byte dialogue now byte s =
    if byte == b'\r'
    then record s { pending_cr = true }
    else if byte == b'\n'
    then process_complete_line dialogue now s
    else if byte == 0
    then s
    else append_line_byte byte s

-- A byte after CR; the flag is taken back already.
unfoldable pub after_cr : Dialogue → ℕ → ℕ → Session → Session
unfolding append_line_byte process_complete_line data_byte
after_cr dialogue now byte s =
    if byte == b'\n'
    then process_complete_line dialogue now s
    else if byte == 0
    then append_line_byte b'\r' s
    else (let kept = append_line_byte b'\r' s in
        if kept.close_requested then kept else data_byte dialogue now byte kept)

unfoldable pub receive_data_byte : Dialogue → ℕ → ℕ → Session → Session
unfolding after_cr data_byte
receive_data_byte dialogue now byte s =
    if s.pending_cr
    then after_cr dialogue now byte (record s { pending_cr = false })
    else data_byte dialogue now byte s

unfoldable pub clear_current_input : Session → Session
clear_current_input s = record s { line = []; line_overflow = false; pending_cr = false }

unfoldable pub prompt_for : LoginState → Bytes
prompt_for login_name = codes "Player name: "
prompt_for login_password = codes "Password: "
prompt_for login_new_password = codes "Create password: "
prompt_for login_confirm_password = codes "Confirm password: "
prompt_for login_in_game = codes "> "

unfoldable pub write_current_prompt : Session → Session
unfolding prompt_for write_prompt_text
write_current_prompt s = write_prompt_text (prompt_for s.login) s

unfoldable pub restart_confirmation : LoginState → Session → Session
restart_confirmation login_confirm_password s = record s {
  pending_password = [];
  login = login_new_password;
}
restart_confirmation l s = s

unfoldable pub interrupt_current_input : Session → Session
unfolding clear_current_input restart_confirmation write_current_prompt
interrupt_current_input s =
    let cleared = clear_current_input s in
    write_current_prompt (write_text (codes "\r\n") (restart_confirmation cleared.login cleared))

unfoldable pub handle_control_command : ℕ → Session → Session
unfolding write_current_prompt interrupt_current_input clear_current_input note_protocol_violation
    drop_last
handle_control_command command s =
    if command == 241
      || (command == 242 || (command == 245 || (command == ga || command == eor_cmd)))
    then s
    else if command == 246
    then write_current_prompt (write_text (codes "\r\n[Server is here]\r\n") s)
    else if command == 244 || command == 243
    then interrupt_current_input s
    else if command == 247
    then record s { line = drop_last s.line }
    else if command == 248
    then clear_current_input s
    else if command == se
    then note_protocol_violation (codes "SE received outside subnegotiation") s
    else s

-- ===== src/Telnet/Framing/Bounds.antt =====
-- The two buffers of a session under any input.
use telnet_tls_server.Common.{
  ℕ, ◌≤◌, leb, ◌==◌, Bool, true, false, ◌||◌, [], some, codes, length, ltb,
}
use telnet_tls_server.Telnet.Rate.{rate_consume}
use telnet_tls_server.Telnet.Session.{
  LoginState, login_name, login_password, login_new_password, login_confirm_password, login_in_game,
  Session, se, ga, eor_cmd, write_text, write_prompt_text,
}
use telnet_tls_server.Telnet.Session.Keeps.{
  Keeps, Keeps-trans, branch, write_telnet_data-Keeps, write_prompt_text-Keeps, request_close-Keeps,
  note_protocol_violation-Keeps,
}
use telnet_tls_server.Telnet.Line.{
  Dialogue, wiped, password_state, append_line_byte, line_limit, password_overflow, overflowed_line,
  granted_line, limited_line, process_complete_line, data_byte, after_cr, receive_data_byte,
  restart_confirmation, clear_current_input, interrupt_current_input, handle_control_command,
  input_lines_per_window, input_lines_window_ms,
}
use telnet_tls_server.Telnet.Line.Control.{write_current_prompt-Keeps}
use telnet_tls_server.Telnet.Framing.{subnegotiation_max_bytes}

-- What the subnegotiation buffer holds fits in it.
abbrev pub BufferFits : Session → Type 0
BufferFits s = length s.subnegotiation ≤ subnegotiation_max_bytes

-- The dialogue does not overfill the subnegotiation buffer.
abbrev pub DialogueFits : Dialogue → Type 0
DialogueFits d = (l : LoginState) (now : ℕ) (s : Session) → BufferFits s → BufferFits (d l now s)

pub Keeps-BufferFits : {s t : Session} → Keeps s t → BufferFits s → BufferFits t
Keeps-BufferFits k fits = rw (k.same_buffer) fits

new_password_asked :
    (s : Session)
    → BufferFits s
    → BufferFits (
        write_prompt_text
          (codes "Create password: ")
          (record s { pending_password = []; login = login_new_password }))
new_password_asked s fits =
    Keeps-BufferFits (write_prompt_text-Keeps (codes "Create password: ") _) fits

password_overflow-BufferFits :
    (l : LoginState) (s : Session) → BufferFits s → BufferFits (password_overflow l s)
unfolding password_overflow
password_overflow-BufferFits login_password s fits =
    Keeps-BufferFits (write_prompt_text-Keeps (codes "Password: ") s) fits
password_overflow-BufferFits login_name s fits = new_password_asked s fits
password_overflow-BufferFits login_new_password s fits = new_password_asked s fits
password_overflow-BufferFits login_confirm_password s fits = new_password_asked s fits
password_overflow-BufferFits login_in_game s fits = new_password_asked s fits

overflowed_line-BufferFits : (s : Session) → BufferFits s → BufferFits (overflowed_line s)
unfolding overflowed_line
overflowed_line-BufferFits s fits =
    let too_long = write_telnet_data-Keeps (codes "\r\nPassword input is too long.\r\n") s in
    let refused = write_telnet_data-Keeps (codes "Input is too long.\r\n") s in
    let closed =
      request_close-Keeps (some (codes "application_input_overflow"))
        (some (codes "Input is too long.\r\n")) s in
    branch BufferFits (password_state s.login) _ _
      (password_overflow-BufferFits s.login _ (Keeps-BufferFits too_long fits))
      (branch BufferFits s.has_application _ _ (Keeps-BufferFits closed fits)
        (Keeps-BufferFits (Keeps-trans refused (write_prompt_text-Keeps (codes "> ") _)) fits))

limited_line-BufferFits :
    (d : Dialogue) (now : ℕ) (granted : Bool) (s : Session)
    → DialogueFits d
    → BufferFits s
    → BufferFits (limited_line d now granted s)
unfolding limited_line granted_line
limited_line-BufferFits d now true s good fits =
    branch BufferFits s.line_overflow (overflowed_line (wiped s)) (wiped (d s.login now s))
      (overflowed_line-BufferFits (wiped s) fits) (good s.login now s fits)
limited_line-BufferFits d now false s good fits =
    Keeps-BufferFits
      (request_close-Keeps (some (codes "line_flood"))
        (some (codes "Input rate limit exceeded.\r\n")) (record s { line = [] }))
      fits

process_complete_line-BufferFits :
    (d : Dialogue) (now : ℕ) (s : Session)
    → DialogueFits d
    → BufferFits s
    → BufferFits (process_complete_line d now s)
unfolding process_complete_line
process_complete_line-BufferFits d now s good fits =
    let used = rate_consume s.line_window 1 input_lines_per_window input_lines_window_ms now in
    limited_line-BufferFits d now used.1 (record s { line_window = used.0 }) good fits

append_line_byte-BufferFits :
    (byte : ℕ) (s : Session) → BufferFits s → BufferFits (append_line_byte byte s)
unfolding append_line_byte
append_line_byte-BufferFits byte s fits = branch BufferFits (byte == 8 || byte == 127) _ _ fits (
    branch BufferFits (ltb byte 32) s _ fits
      (branch BufferFits (leb (line_limit s.login) (length s.line)) _ _ fits fits))

data_byte-BufferFits :
    (d : Dialogue) (now byte : ℕ) (s : Session)
    → DialogueFits d
    → BufferFits s
    → BufferFits (data_byte d now byte s)
unfolding data_byte
data_byte-BufferFits d now byte s good fits = branch BufferFits (byte == b'\r') _ _ fits (
    branch BufferFits (byte == b'\n') _ _ (process_complete_line-BufferFits d now s good fits)
      (branch BufferFits (byte == 0) s _ fits (append_line_byte-BufferFits byte s fits)))

pub receive_data_byte-BufferFits :
    (d : Dialogue) (now byte : ℕ) (s : Session)
    → DialogueFits d
    → BufferFits s
    → BufferFits (receive_data_byte d now byte s)
unfolding receive_data_byte after_cr
receive_data_byte-BufferFits d now byte s good fits =
    let t = record s { pending_cr = false } in
    let kept = append_line_byte-BufferFits b'\r' t fits in
    branch BufferFits s.pending_cr _ _
      (branch BufferFits (byte == b'\n') _ _ (process_complete_line-BufferFits d now t good fits) (
        branch BufferFits (byte == 0) _ _ kept (
          branch BufferFits (append_line_byte b'\r' t).close_requested _ _ kept
            (data_byte-BufferFits d now byte _ good kept))))
      (data_byte-BufferFits d now byte s good fits)

restart_confirmation-BufferFits :
    (l : LoginState) (s : Session) → BufferFits s → BufferFits (restart_confirmation l s)
unfolding restart_confirmation
restart_confirmation-BufferFits login_confirm_password s fits = fits
restart_confirmation-BufferFits login_name s fits = fits
restart_confirmation-BufferFits login_password s fits = fits
restart_confirmation-BufferFits login_new_password s fits = fits
restart_confirmation-BufferFits login_in_game s fits = fits

interrupt_current_input-BufferFits :
    (s : Session) → BufferFits s → BufferFits (interrupt_current_input s)
unfolding interrupt_current_input clear_current_input
interrupt_current_input-BufferFits s fits =
    let cleared = clear_current_input s in
    let restarted = restart_confirmation cleared.login cleared in
    let answered = write_telnet_data-Keeps (codes "\r\n") restarted in
    let prompted = write_current_prompt-Keeps (write_text (codes "\r\n") restarted) in
    Keeps-BufferFits (Keeps-trans answered prompted)
      (restart_confirmation-BufferFits cleared.login cleared fits)

pub handle_control_command-BufferFits :
    (command : ℕ) (s : Session) → BufferFits s → BufferFits (handle_control_command command s)
unfolding handle_control_command clear_current_input
handle_control_command-BufferFits command s fits =
    let here = codes "\r\n[Server is here]\r\n" in
    let answered = write_telnet_data-Keeps here s in
    let prompted = write_current_prompt-Keeps (write_text here s) in
    let noted = note_protocol_violation-Keeps (codes "SE received outside subnegotiation") s in
    branch BufferFits
      (command == 241
        || (command == 242 || (command == 245 || (command == ga || command == eor_cmd))))
      s _ fits
      (branch BufferFits (command == 246) _ _
        (Keeps-BufferFits (Keeps-trans answered prompted) fits)
        (branch BufferFits (command == 244 || command == 243) _ _
          (interrupt_current_input-BufferFits s fits)
          (branch BufferFits (command == 247) _ _ fits (
            branch BufferFits (command == 248) _ _ fits
              (branch BufferFits (command == se) _ s (Keeps-BufferFits noted fits) fits)))))

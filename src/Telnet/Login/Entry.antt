-- ===== src/Telnet/Login/Entry.antt =====
-- Coming into the game while input is parsed.
use telnet_tls_server.Common.{
  ℕ, ◌≡◌, refl, sym, ◌∙◌, leb, ltb, Bool, true, false, ◌||◌, ◌==◌, ==_iff, [], some, codes, length,
}
use telnet_tls_server.Players.Disk.{Host}
use telnet_tls_server.Telnet.Rate.{RateWindow, rate_consume}
use telnet_tls_server.Telnet.Session.{
  LoginState, login_name, login_password, login_new_password, login_confirm_password, login_in_game,
  Session, iac, se, ga, eor_cmd, write_text, write_prompt_text,
}
use telnet_tls_server.Telnet.Session.Keeps.{
  Keeps, Keeps-trans, branch, branch_by, write_telnet_data-Keeps, write_prompt_text-Keeps,
  request_close-Keeps, note_protocol_violation-Keeps,
}
use telnet_tls_server.Telnet.Line.{
  wiped, password_state, password_overflow, overflowed_line, granted_line, limited_line,
  process_complete_line, append_line_byte, line_limit, data_byte, after_cr, receive_data_byte,
  restart_confirmation, clear_current_input, interrupt_current_input, handle_control_command,
  input_lines_per_window, input_lines_window_ms,
}
use telnet_tls_server.Telnet.Line.Control.{write_current_prompt-Keeps}
use telnet_tls_server.Telnet.Framing.{
  Handlers, byte_after_sb_iac, append_subnegotiation, finish_subnegotiation, subnegotiation_handler,
  subnegotiation_max_bytes,
}
use telnet_tls_server.Telnet.Login.{Outside, account_dialogue}
use telnet_tls_server.Telnet.Login.Admission.{
  Admitted, Waits, Waits-Keeps, new_password_waits, account_dialogue-Admitted,
}

pub kept_waiting : {s t : Session} → Keeps s t → Waits s → Waits t
kept_waiting k w g = w (sym k.same_login ∙ g)

again :
    (s : Session)
    → Waits (
        write_prompt_text
          (codes "Create password: ")
          (record s { pending_password = []; login = login_new_password }))
again s = Waits-Keeps login_new_password (write_prompt_text-Keeps _ _) refl new_password_waits

password_overflow-Waits : (l : LoginState) (s : Session) → Waits s → Waits (password_overflow l s)
unfolding password_overflow
password_overflow-Waits login_password s w =
    kept_waiting (write_prompt_text-Keeps (codes "Password: ") s) w
password_overflow-Waits login_name s w = again s
password_overflow-Waits login_new_password s w = again s
password_overflow-Waits login_confirm_password s w = again s
password_overflow-Waits login_in_game s w = again s

overflowed_line-Waits : (s : Session) → Waits s → Waits (overflowed_line s)
unfolding overflowed_line
overflowed_line-Waits s w =
    let too_long = write_telnet_data-Keeps (codes "\r\nPassword input is too long.\r\n") s in
    let refused = write_telnet_data-Keeps (codes "Input is too long.\r\n") s in
    let closed =
      request_close-Keeps (some (codes "application_input_overflow"))
        (some (codes "Input is too long.\r\n")) s in
    branch Waits (password_state s.login) _ _
      (password_overflow-Waits s.login _ (kept_waiting too_long w))
      (branch Waits s.has_application _ _ (kept_waiting closed w)
        (kept_waiting (Keeps-trans refused (write_prompt_text-Keeps (codes "> ") _)) w))

-- Either the session still waits, or the line admits it.
abbrev Entered : Host → ℕ → Session → Session → Type 0
Entered host now s t = t.login ≡ login_in_game → Admitted host now s

module _ (host : Host) (out : Outside) (now : ℕ) where
  limited_line-Entered :
      (granted : Bool) (s : Session)
      → Waits s
      → Entered host now s (limited_line (account_dialogue host out) now granted s)
  unfolding limited_line granted_line
  limited_line-Entered false s w g = absurd (
      kept_waiting
        (request_close-Keeps (some (codes "line_flood"))
          (some (codes "Input rate limit exceeded.\r\n")) (record s { line = [] }))
        w g)
  limited_line-Entered true s w g =
      branch (Entered host now s) s.line_overflow (overflowed_line (wiped s))
        (wiped (account_dialogue host out s.login now s))
        (λ g. absurd (overflowed_line-Waits (wiped s) w g))
        (λ g. account_dialogue-Admitted host out s.login now s refl w g) g

  -- Neither the line window nor the pending CR matters.
  moved :
      (w : RateWindow) (c : Bool) (s : Session)
      → Admitted host now (record s { line_window = w; pending_cr = c })
      → Admitted host now s
  moved w c s (Admitted.by_password r e a l v) = Admitted.by_password r e a l v
  moved w c s (Admitted.by_creation e v a m) = Admitted.by_creation e v a m

  process_complete_line-Entered :
      (s : Session)
      → Waits s
      → Entered host now s (process_complete_line (account_dialogue host out) now s)
  unfolding process_complete_line
  process_complete_line-Entered s w g =
      let used = rate_consume s.line_window 1 input_lines_per_window input_lines_window_ms now in
      moved used.0 s.pending_cr s
        (limited_line-Entered used.1 (record s { line_window = used.0 }) w g)

  append_line_byte-Waits : (byte : ℕ) (s : Session) → Waits s → Waits (append_line_byte byte s)
  unfolding append_line_byte
  append_line_byte-Waits byte s w = branch Waits (byte == 8 || byte == 127) _ _ w (
      branch Waits (ltb byte 32) s _ w
        (branch Waits (leb (line_limit s.login) (length s.line)) _ _ w w))

  -- The byte is a newline, and the line admits the session.
  abbrev pub AtNewline : ℕ → Session → Session → Type 0
  AtNewline byte s t = t.login ≡ login_in_game → (byte ≡ 10) × Admitted host now s

  pub not_yet : (byte : ℕ) (s t : Session) → Waits t → AtNewline byte s t
  not_yet byte s t w g = absurd (w g)

  data_byte-AtNewline :
      (byte : ℕ) (s : Session)
      → Waits s
      → AtNewline byte s (data_byte (account_dialogue host out) now byte s)
  unfolding data_byte
  data_byte-AtNewline byte s w =
      branch (AtNewline byte s) (byte == b'\r') _ _
        (not_yet byte s (record s { pending_cr = true }) w)
        (branch_by (AtNewline byte s) (byte == b'\n') _ _
          (λ e g. ((==_iff byte 10).0 e, process_complete_line-Entered s w g))
          (λ e.
            branch (AtNewline byte s) (byte == 0) s _ (not_yet byte s s w)
              (not_yet byte s (append_line_byte byte s) (append_line_byte-Waits byte s w))))

  pub receive_data_byte-AtNewline :
      (byte : ℕ) (s : Session)
      → Waits s
      → AtNewline byte s (receive_data_byte (account_dialogue host out) now byte s)
  unfolding receive_data_byte after_cr append_line_byte
  receive_data_byte-AtNewline byte s w =
      let t = record s { pending_cr = false } in
      branch (AtNewline byte s) s.pending_cr _ _
        (branch_by (AtNewline byte s) (byte == b'\n') _ _
          (λ e g. (
            (==_iff byte 10).0 e,
            moved s.line_window false s (process_complete_line-Entered t w g),
          ))
          (λ e. branch (AtNewline byte s) (byte == 0) _ _ (not_yet byte s t w) (
            branch (AtNewline byte s) s.close_requested _ _ (not_yet byte s t w) (λ g.
              let (n, a) = data_byte-AtNewline byte t w g in (n, moved s.line_window false s a)))))
        (data_byte-AtNewline byte s w)

restart_confirmation-Waits :
    (l : LoginState) (s : Session) → Waits s → Waits (restart_confirmation l s)
unfolding restart_confirmation
restart_confirmation-Waits login_confirm_password s w = new_password_waits
restart_confirmation-Waits login_name s w = w
restart_confirmation-Waits login_password s w = w
restart_confirmation-Waits login_new_password s w = w
restart_confirmation-Waits login_in_game s w = w

interrupt_current_input-Waits : (s : Session) → Waits s → Waits (interrupt_current_input s)
unfolding interrupt_current_input clear_current_input
interrupt_current_input-Waits s w =
    let cleared = clear_current_input s in
    let restarted = restart_confirmation cleared.login cleared in
    let answered = write_telnet_data-Keeps (codes "\r\n") restarted in
    let prompted = write_current_prompt-Keeps (write_text (codes "\r\n") restarted) in
    kept_waiting (Keeps-trans answered prompted)
      (restart_confirmation-Waits cleared.login cleared w)

pub handle_control_command-Waits :
    (command : ℕ) (s : Session) → Waits s → Waits (handle_control_command command s)
unfolding handle_control_command clear_current_input
handle_control_command-Waits command s w =
    let here = codes "\r\n[Server is here]\r\n" in
    let answered = write_telnet_data-Keeps here s in
    let prompted = write_current_prompt-Keeps (write_text here s) in
    let noted = note_protocol_violation-Keeps (codes "SE received outside subnegotiation") s in
    branch Waits
      (command == 241
        || (command == 242 || (command == 245 || (command == ga || command == eor_cmd))))
      s _ w
      (branch Waits (command == 246) _ _ (kept_waiting (Keeps-trans answered prompted) w) (
        branch Waits (command == 244 || command == 243) _ _ (interrupt_current_input-Waits s w) (
          branch Waits (command == 247) _ _ w (
            branch Waits (command == 248) _ _ w
              (branch Waits (command == se) _ s (kept_waiting noted w) w)))))

-- No handler of an option or a subnegotiation brings a session into the game.
pub record HandlersWait (h : Handlers) : Type 0 where
  pub option_waits :
      (command option : ℕ) (s : Session) → Waits s → Waits (h.telnet_option command option s)
  pub naws_waits : (s : Session) → Waits s → Waits (h.naws s)
  pub terminal_type_waits : (s : Session) → Waits s → Waits (h.terminal_type s)
  pub charset_waits : (s : Session) → Waits s → Waits (h.charset s)
  pub new_environ_waits : (s : Session) → Waits s → Waits (h.new_environ s)
  pub gmcp_waits : (s : Session) → Waits s → Waits (h.gmcp s)

pub append_subnegotiation-Waits :
    (byte : ℕ) (s : Session) → Waits s → Waits (append_subnegotiation byte s)
unfolding append_subnegotiation
append_subnegotiation-Waits byte s w =
    branch Waits (leb subnegotiation_max_bytes (length s.subnegotiation)) _ _
      (kept_waiting
        (request_close-Keeps (some (codes "telnet_subnegotiation_overflow"))
          (some (codes "Protocol error.\r\n")) s)
        w)
      w

finish_subnegotiation-Waits :
    (h : Handlers) (s : Session) → HandlersWait h → Waits s → Waits (finish_subnegotiation h s)
unfolding finish_subnegotiation subnegotiation_handler
finish_subnegotiation-Waits h s good w =
    branch Waits (s.subnegotiation_option == 31) _ _ (good.naws_waits s w) (
      branch Waits (s.subnegotiation_option == 24) _ _ (good.terminal_type_waits s w) (
        branch Waits (s.subnegotiation_option == 42) _ _ (good.charset_waits s w) (
          branch Waits (s.subnegotiation_option == 39) _ _ (good.new_environ_waits s w)
            (branch Waits (s.subnegotiation_option == 201) _ s (good.gmcp_waits s w) w))))

pub byte_after_sb_iac-Waits :
    (h : Handlers) (byte : ℕ) (s : Session)
    → HandlersWait h
    → Waits s
    → Waits (byte_after_sb_iac h byte s)
unfolding byte_after_sb_iac
byte_after_sb_iac-Waits h byte s good w =
    branch Waits (byte == se) _ _ (finish_subnegotiation-Waits h s good w) (
      branch Waits (byte == iac) _ _ (append_subnegotiation-Waits iac s w)
        (kept_waiting (note_protocol_violation-Keeps (codes "malformed subnegotiation") s) w))

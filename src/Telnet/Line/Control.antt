-- ===== src/Telnet/Line/Control.antt =====
-- What the Telnet control commands do to the line.
use telnet_tls_server.Common.{ℕ, ◌≡◌, refl, ◌∙◌, ◌==◌, ◌||◌, [], codes}
use telnet_tls_server.Telnet.Session.{
  LoginState, login_name, login_password, login_new_password, login_confirm_password, login_in_game,
  Session, eor_cmd, se, ga, write_text,
}
use telnet_tls_server.Telnet.Session.Keeps.{
  Keeps, Keeps-trans, branch, write_telnet_data-Keeps, write_prompt_text-Keeps,
  note_protocol_violation-Keeps,
}
use telnet_tls_server.Telnet.Line.{
  clear_current_input, prompt_for, write_current_prompt, restart_confirmation,
  interrupt_current_input, handle_control_command,
}
use telnet_tls_server.Telnet.Line.Bounds.{LineFits, drop_last-LineFits, LineFits-empty}

pub LineFits-same : {s t : Session} → Keeps s t → LineFits s → LineFits t
LineFits-same k fits = record {
  room = rw (k.same_line, k.same_login) fits.room;
  clean = rw (k.same_line) fits.clean;
}

pub write_current_prompt-Keeps : (s : Session) → Keeps s (write_current_prompt s)
unfolding write_current_prompt
write_current_prompt-Keeps s = write_prompt_text-Keeps (prompt_for s.login) s

restart_confirmation-empty :
    (l : LoginState) (s : Session) → s.line ≡ [] → (restart_confirmation l s).line ≡ []
unfolding restart_confirmation
restart_confirmation-empty login_confirm_password s e = e
restart_confirmation-empty login_name s e = e
restart_confirmation-empty login_password s e = e
restart_confirmation-empty login_new_password s e = e
restart_confirmation-empty login_in_game s e = e

interrupt_current_input-empty : (s : Session) → (interrupt_current_input s).line ≡ []
unfolding interrupt_current_input clear_current_input
interrupt_current_input-empty s =
    let cleared = clear_current_input s in
    let restarted = restart_confirmation cleared.login cleared in
    let answered = write_telnet_data-Keeps (codes "\r\n") restarted in
    let prompted = write_current_prompt-Keeps (write_text (codes "\r\n") restarted) in
    (Keeps-trans answered prompted).same_line
    ∙ restart_confirmation-empty cleared.login cleared refl

-- A control command leaves the line within the limit of the login state and free of control
-- characters, if it was so before.
pub handle_control_command-LineFits :
    (command : ℕ) (s : Session) → LineFits s → LineFits (handle_control_command command s)
unfolding handle_control_command clear_current_input
handle_control_command-LineFits command s fits =
    let here = codes "\r\n[Server is here]\r\n" in
    let answered = write_telnet_data-Keeps here s in
    let prompted = write_current_prompt-Keeps (write_text here s) in
    branch LineFits
      (command == 241
        || (command == 242 || (command == 245 || (command == ga || command == eor_cmd))))
      s _ fits
      (branch LineFits (command == 246) _ _ (LineFits-same (Keeps-trans answered prompted) fits) (
        branch LineFits (command == 244 || command == 243) _ _
          (LineFits-empty _ (interrupt_current_input-empty s))
          (branch LineFits (command == 247) _ _ (drop_last-LineFits s fits) (
            branch LineFits (command == 248) _ _ (LineFits-empty _ refl) (
              branch LineFits (command == se) _ s
                (LineFits-same
                  (note_protocol_violation-Keeps (codes "SE received outside subnegotiation") s)
                  fits)
                fits)))))

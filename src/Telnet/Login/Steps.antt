-- ===== src/Telnet/Login/Steps.antt =====
-- What the steps of the dialogue leave alone: the line, the login state and the subnegotiation.
use telnet_tls_server.Common.{refl, Bool, true, false, ◌||◌, List, [], ◌∷◌, Bytes}
use telnet_tls_server.Negotiation.{local, TelnetQ, Message, telnet_q_request}
use telnet_tls_server.Telnet.Session.{iac, Session, audit, write_text, write_prompt_text}
use telnet_tls_server.Telnet.Session.Keeps.{
  Keeps, Keeps-refl, Keeps-trans, branch, write_raw-Keeps, write_telnet_data-Keeps,
  write_prompt_text-Keeps, request_close-Keeps,
}
use telnet_tls_server.Telnet.Login.{
  send_messages, request_option, password_echo_off, password_echo_on, warn_insecure_password_once,
  audit_player_event, wrong_password,
}

-- A text and then a prompt.
pub say_and_ask :
    (text prompt : Bytes) (s : Session) → Keeps s (write_prompt_text prompt (write_text text s))
say_and_ask text prompt s =
    Keeps-trans (write_telnet_data-Keeps text s)
      (write_prompt_text-Keeps prompt (write_text text s))

send_messages-Keeps : (messages : List Message) (s : Session) → Keeps s (send_messages messages s)
unfolding send_messages
send_messages-Keeps [] s = Keeps-refl s
send_messages-Keeps ((command, option) ∷ messages) s =
    Keeps-trans (write_raw-Keeps (iac ∷ command ∷ option ∷ []) s) (send_messages-Keeps messages _)

pub request_option-Keeps : (r : TelnetQ × List Message) (s : Session) → Keeps s (request_option r s)
unfolding request_option
request_option-Keeps (options, messages) s =
    Keeps-trans (record { same_line = refl; same_login = refl; same_buffer = refl })
      (send_messages-Keeps messages (record s { options = options }))

pub password_echo_off-Keeps : (s : Session) → Keeps s (password_echo_off s)
unfolding password_echo_off
password_echo_off-Keeps s =
    Keeps-trans (record { same_line = refl; same_login = refl; same_buffer = refl })
      (request_option-Keeps (telnet_q_request s.options local 1 true)
        (record s { echo_desired = true }))

pub password_echo_on-Keeps : (s : Session) → Keeps s (password_echo_on s)
unfolding password_echo_on
password_echo_on-Keeps s =
    Keeps-trans (record { same_line = refl; same_login = refl; same_buffer = refl })
      (request_option-Keeps (telnet_q_request s.options local 1 false)
        (record s { echo_desired = false }))

pub warn_insecure-Keeps : (s : Session) → Keeps s (warn_insecure_password_once s)
unfolding warn_insecure_password_once
warn_insecure-Keeps s =
    branch (Keeps s) (s.terminal.secure_transport || s.insecure_warning_shown) _ _ (Keeps-refl s) (
      Keeps-trans (record { same_line = refl; same_login = refl; same_buffer = refl })
        (write_telnet_data-Keeps _ (record s { insecure_warning_shown = true })))

pub audit_player_event-Keeps : (event : Bytes) (s : Session) → Keeps s (audit_player_event event s)
unfolding audit_player_event audit
audit_player_event-Keeps event s = record {
  same_line = refl;
  same_login = refl;
  same_buffer = refl;
}

pub wrong_password-Keeps : (again : Bool) (s : Session) → Keeps s (wrong_password again s)
unfolding wrong_password
wrong_password-Keeps true s = say_and_ask _ _ s
wrong_password-Keeps false s = request_close-Keeps _ _ s

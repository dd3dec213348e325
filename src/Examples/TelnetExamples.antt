-- ===== src/Examples/TelnetExamples.antt =====
-- The Telnet session at concrete inputs.
use telnet_tls_server.Common.{
  false, ℕ, ◌*◌, ◌≤◌, List, Bytes, ◌≡◌, refl, [], ◌∷◌, ◌++◌, codes, arith, All,
}
use telnet_tls_server.Examples.Fixtures.{fresh, unused}
use telnet_tls_server.Telnet.Rate.{rate_consume}
use telnet_tls_server.Telnet.Rate.Ceiling.{spent, rate_consume_ceiling}
use telnet_tls_server.Telnet.Framing.Typing.{typing, parse_bytes-typed_line}
use telnet_tls_server.Telnet.Session.{
  login_password, parser_data, parser_sb_iac, iac, sb, se, write_telnet_data, send_subnegotiation,
}
use telnet_tls_server.Telnet.Session.Wire.{
  Sends, wire, escape, write_telnet_data-Sends, send_subnegotiation-Sends,
}
use telnet_tls_server.Telnet.Output.{application_text, write_application_text}
use telnet_tls_server.Telnet.Output.Newlines.{network_lines, write_application_text-Sends}
use telnet_tls_server.Telnet.Line.{Dialogue, line_limit, process_complete_line}
use telnet_tls_server.Telnet.Line.Bounds.{LineFits}
use telnet_tls_server.Telnet.Framing.Feed.{HandlersFit}
use telnet_tls_server.Telnet.Framing.{
  telnet_session_feed_at, Handlers, finish_subnegotiation, parse_bytes,
}
use telnet_tls_server.Telnet.Framing.Editing.{
  Key, character, backspace, delete, erase_character, erase_line, keys_bytes, IsText, Stays,
  parse_bytes-edited_line,
}
use telnet_tls_server.Telnet.Framing.Payload.{holding, parse_bytes-escape_round_trip}

-- A dialogue that asks for the password whatever the line is.
abbrev ask_password : Dialogue
ask_password l now s = record s { login = login_password }

abbrev silent : Handlers
silent = record {
  dialogue = ask_password;
  telnet_option = λ c o s. s;
  naws = λ s. s;
  terminal_type = λ s. record s { line = s.subnegotiation };
  charset = λ s. s;
  new_environ = λ s. s;
  gmcp = λ s. s;
}

write_telnet_data-Sends_example :
    Sends (escape (65 ∷ 255 ∷ 66 ∷ [])) fresh (write_telnet_data (65 ∷ 255 ∷ 66 ∷ []) fresh)
write_telnet_data-Sends_example = write_telnet_data-Sends (65 ∷ 255 ∷ 66 ∷ []) fresh refl

send_subnegotiation-Sends_example :
    Sends
      ((iac ∷ sb ∷ 24 ∷ []) ++ (escape (1 ∷ 255 ∷ []) ++ (iac ∷ se ∷ [])))
      fresh
      (send_subnegotiation 24 (1 ∷ 255 ∷ []) fresh)
send_subnegotiation-Sends_example = send_subnegotiation-Sends 24 (1 ∷ 255 ∷ []) fresh refl

-- What a subnegotiation looks like on the wire.
terminal_type_sent :
    wire (send_subnegotiation 24 (1 ∷ 255 ∷ []) fresh)
    ≡ 255 ∷ 250 ∷ 24 ∷ 1 ∷ 255 ∷ 255 ∷ 255 ∷ 240 ∷ []
unfolding send_subnegotiation
terminal_type_sent = refl

abbrev fresh-LineFits : LineFits fresh
unfolding line_limit
fresh-LineFits = record { room = omega arith; clean = (refl, (refl, tt)) }

-- A character too many taken back, a line thrown away, and a mistyped character.
abbrev mistyped : List Key
mistyped =
    delete
    ∷ character 120
    ∷ erase_line
    ∷ character 65
    ∷ character 120
    ∷ backspace
    ∷ character 100
    ∷ character 120
    ∷ erase_character
    ∷ character 97
    ∷ []

mistyped-IsText : All IsText mistyped
mistyped-IsText = (tt, (refl, (tt, (refl, (refl, (tt, (refl, (refl, (tt, (refl, tt))))))))))

mistyped-Stays : Stays (line_limit fresh.login) mistyped []
unfolding line_limit
mistyped-Stays = (
  omega arith,
  (
    omega arith,
    (
      omega arith,
      (
        omega arith,
        (
          omega arith,
          (omega arith, (omega arith, (omega arith, (omega arith, (omega arith, tt))))),
        ),
      ),
    ),
  ),
)

parse_bytes-edited_line_example :
    parse_bytes silent 1000 (keys_bytes mistyped ++ (b'\r' ∷ b'\n' ∷ [])) (typing [] fresh)
    ≡ process_complete_line ask_password 1000 (typing (codes "Ada") fresh)
parse_bytes-edited_line_example =
    parse_bytes-edited_line silent 1000 mistyped fresh refl refl mistyped-IsText mistyped-Stays

parse_bytes-escape_round_trip_example :
    parse_bytes silent 1000
      ((iac ∷ sb ∷ 24 ∷ []) ++ (escape (0 ∷ 255 ∷ []) ++ (iac ∷ se ∷ [])))
      fresh
    ≡ record (finish_subnegotiation silent
        (holding parser_sb_iac (0 ∷ 255 ∷ []) (record fresh { subnegotiation_option = 24 }))) {
          parser = parser_data;
        }
parse_bytes-escape_round_trip_example =
    parse_bytes-escape_round_trip silent 1000 24 (0 ∷ 255 ∷ []) fresh refl refl (omega arith)

-- The carriage return of CR NUL does not reach the line.
carriage_return_dropped :
    (parse_bytes silent 1000 (65 ∷ 13 ∷ 0 ∷ 66 ∷ []) fresh).line ≡ codes "BoAB"
unfolding parse_bytes
carriage_return_dropped = refl

-- Handlers that leave the session alone but for the login state.
abbrev idle_handlers : Handlers
idle_handlers = record silent { terminal_type = λ s. s }

idle_handlers-HandlersFit : HandlersFit idle_handlers
idle_handlers-HandlersFit = record {
  dialogue_fits = λ l now s fits. fits;
  option_fits = λ command option s fits. fits;
  naws_fits = λ s fits. fits;
  terminal_type_fits = λ s fits. fits;
  charset_fits = λ s fits. fits;
  new_environ_fits = λ s fits. fits;
  gmcp_fits = λ s fits. fits;
}

-- A line with a carriage return, an erased byte and a subnegotiation in it.
abbrev busy_input : Bytes
busy_input = 65 ∷ 8 ∷ 255 ∷ 250 ∷ 24 ∷ 1 ∷ 255 ∷ 255 ∷ 255 ∷ 240 ∷ 66 ∷ 13 ∷ 10 ∷ 67 ∷ []

busy_input_read : (telnet_session_feed_at idle_handlers busy_input 1000 fresh).0.line ≡ codes "C"
unfolding telnet_session_feed_at
busy_input_read = refl

-- Lines of one session, with a new window in between.
abbrev line_times : List (ℕ × ℕ)
line_times = (1000, 1) ∷ (1500, 1) ∷ (12000, 1) ∷ []

rate_consume_ceiling_example : spent 30 10000 1200 unused line_times ≤ 2 * 30
rate_consume_ceiling_example =
    rate_consume_ceiling 30 10000 1200 1000 unused line_times (omega arith) (omega arith)
      ((omega arith), ((omega arith), ((omega arith), tt)))

line_times-spent : spent 30 10000 1200 unused line_times ≡ 1
unfolding rate_consume
line_times-spent = refl

parse_bytes-typed_line_example :
    parse_bytes silent 1000 (codes "look" ++ (13 ∷ 10 ∷ [])) (typing [] fresh)
    ≡ process_complete_line ask_password 1000 (typing (codes "look") fresh)
unfolding line_limit
parse_bytes-typed_line_example =
    parse_bytes-typed_line silent 1000 (codes "look") fresh refl (refl, (refl, (refl, (refl, tt))))
      (omega arith)

write_application_text-Sends_example :
    Sends
      (escape (network_lines false (65 ∷ 10 ∷ 255 ∷ 13 ∷ 10 ∷ [])))
      fresh
      (write_application_text (65 ∷ 10 ∷ 255 ∷ 13 ∷ 10 ∷ []) fresh)
write_application_text-Sends_example =
    write_application_text-Sends (65 ∷ 10 ∷ 255 ∷ 13 ∷ 10 ∷ []) fresh refl

-- What reaches the wire of these five bytes.
lines_sent :
    wire (write_application_text (65 ∷ 10 ∷ 255 ∷ 13 ∷ 10 ∷ []) fresh)
    ≡ 65 ∷ 13 ∷ 10 ∷ 255 ∷ 255 ∷ 13 ∷ 10 ∷ []
unfolding write_application_text application_text write_telnet_data
lines_sent = refl

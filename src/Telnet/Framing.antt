-- ===== src/Telnet/Framing.antt =====
-- The command framing of src/telnet_protocol.c: the parser of `telnet_session_feed_at`, byte by
-- byte, and `finish_subnegotiation`. What answers a line, an option command or a subnegotiation
-- is a field of `Handlers`, in which the parser is parametric.
pub mod Bounds
pub mod Chunks
pub mod Editing
pub mod Feed
pub mod Payload
pub mod Typing
use telnet_tls_server.Common.{
  ℕ, leb, ◌==◌, if◌then◌else◌, Bool, true, false, ◌||◌, not, List, [], ◌∷◌, ◌++◌, none, some, Bytes,
  codes, length,
}
use telnet_tls_server.Telnet.Rate.{rate_consume}
use telnet_tls_server.Telnet.Session.{
  parser_data, parser_iac, parser_option, parser_sb_option, parser_sb_data, parser_sb_iac, Session,
  iac, se, sb, request_close, note_protocol_violation,
}
use telnet_tls_server.Telnet.Line.{Dialogue, receive_data_byte, handle_control_command}

abbrev pub subnegotiation_max_bytes : ℕ
subnegotiation_max_bytes = 4096

abbrev pub input_bytes_per_window : ℕ
input_bytes_per_window = 65536

abbrev pub input_bytes_window_ms : ℕ
input_bytes_window_ms = 5000

pub record Handlers : Type 0 where
  pub dialogue : Dialogue
  -- `receive_telnet_option`, with the command and the option
  pub telnet_option : ℕ → ℕ → Session → Session
  pub naws : Session → Session
  pub terminal_type : Session → Session
  pub charset : Session → Session
  pub new_environ : Session → Session
  pub gmcp : Session → Session

unfoldable pub subnegotiation_handler : Handlers → ℕ → Session → Session
subnegotiation_handler h option s =
    if option == 31
    then h.naws s
    else if option == 24
    then h.terminal_type s
    else if option == 42
    then h.charset s
    else if option == 39
    then h.new_environ s
    else if option == 201
    then h.gmcp s
    else s

unfoldable pub finish_subnegotiation : Handlers → Session → Session
unfolding subnegotiation_handler
finish_subnegotiation h s = record (subnegotiation_handler h s.subnegotiation_option s) {
  subnegotiation = [];
}

-- A byte more in the buffer, if there is room, and the parser in the state for the next.
unfoldable pub append_subnegotiation : ℕ → Session → Session
unfolding request_close
append_subnegotiation byte s =
    if leb subnegotiation_max_bytes (length s.subnegotiation)
    then request_close (some (codes "telnet_subnegotiation_overflow"))
        (some (codes "Protocol error.\r\n")) s
    else record s { subnegotiation = s.subnegotiation ++ byte ∷ []; parser = parser_sb_data }

unfoldable pub byte_after_iac : Handlers → ℕ → ℕ → Session → Session
unfolding receive_data_byte handle_control_command
byte_after_iac h now byte s =
    if byte == iac
    then record (receive_data_byte h.dialogue now iac s) { parser = parser_data }
    else if byte == 251 || (byte == 252 || (byte == 253 || byte == 254))
    then record s { pending_telnet_command = byte; parser = parser_option }
    else if byte == sb
    then record s { parser = parser_sb_option }
    else record (handle_control_command byte s) { parser = parser_data }

unfoldable pub byte_after_sb_iac : Handlers → ℕ → Session → Session
unfolding finish_subnegotiation append_subnegotiation note_protocol_violation
byte_after_sb_iac h byte s =
    if byte == se
    then record (finish_subnegotiation h s) { parser = parser_data }
    else if byte == iac
    then append_subnegotiation iac s
    else record (note_protocol_violation (codes "malformed subnegotiation") s) {
      parser = parser_sb_data;
    }

-- The `switch` on `session->parser`.
unfoldable pub parse_byte : Handlers → ℕ → ℕ → Session → Session
unfolding byte_after_iac byte_after_sb_iac append_subnegotiation receive_data_byte
parse_byte h now byte s = elim s.parser [
  | parser_data ↦
      if byte == iac
      then record s { parser = parser_iac }
      else receive_data_byte h.dialogue now byte s
  | parser_iac ↦ byte_after_iac h now byte s
  | parser_option ↦ record (h.telnet_option s.pending_telnet_command byte s) {
    parser = parser_data;
  }
  | parser_sb_option ↦ record s {
    subnegotiation_option = byte;
    subnegotiation = [];
    parser = parser_sb_data;
  }
  | parser_sb_data ↦
      if byte == iac then record s { parser = parser_sb_iac } else append_subnegotiation byte s
  | parser_sb_iac ↦ byte_after_sb_iac h byte s
]

-- The loop: it stops at the first byte after which the session is to close.
unfoldable pub parse_bytes : Handlers → ℕ → Bytes → Session → Session
unfolding parse_byte
parse_bytes h now [] s = s
parse_bytes h now (b ∷ bs) s = elim s.close_requested [
  | true ↦ s
  | false ↦ parse_bytes h now bs (parse_byte h now b s)
]

-- With the byte window after `rate_consume` and its answer.
unfoldable pub metered : Handlers → ℕ → Bytes → Bool → Session → Session
unfolding parse_bytes request_close
metered h now bytes true s = parse_bytes h now bytes s
metered h now bytes false s =
    request_close (some (codes "byte_flood")) (some (codes "Input rate limit exceeded.\r\n")) s

-- The Boolean is true where the source returns 0, false where it returns -1.
unfoldable pub telnet_session_feed_at : Handlers → Bytes → ℕ → Session → Session × Bool
unfolding metered rate_consume
telnet_session_feed_at h bytes now s =
    if s.close_requested
    then (s, false)
    else (let (window, granted) =
          rate_consume s.byte_window (length bytes) input_bytes_per_window input_bytes_window_ms
            now in
        let fed = metered h now bytes granted (record s { byte_window = window }) in
        (fed, not fed.close_requested))

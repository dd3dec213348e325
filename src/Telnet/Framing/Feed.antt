-- ===== src/Telnet/Framing/Feed.antt =====
-- Both buffers under `telnet_session_feed_at`.
use telnet_tls_server.Common.{
  ℕ, ◌≡◌, ◌≤◌, ◌+◌, refl, sym, subst, leb, ◌==◌, Bool, true, false, ◌||◌, [], ◌∷◌, some, Bytes,
  codes, length, length-append, arith, Bool-cases, inl, inr,
}
use telnet_tls_server.Telnet.Rate.{rate_consume}
use telnet_tls_server.Telnet.Session.{
  Session, ParserState, parser_data, parser_iac, parser_option, parser_sb_option, parser_sb_data,
  parser_sb_iac, iac, se, sb,
}
use telnet_tls_server.Telnet.Session.Keeps.{
  Keeps, branch, branch_by, request_close-Keeps, note_protocol_violation-Keeps,
}
use telnet_tls_server.Telnet.Line.{receive_data_byte, handle_control_command}
use telnet_tls_server.Telnet.Line.Bounds.{LineFits, receive_data_byte-LineFits}
use telnet_tls_server.Telnet.Line.Control.{LineFits-same, handle_control_command-LineFits}
use telnet_tls_server.Telnet.Framing.{
  Handlers, subnegotiation_max_bytes, subnegotiation_handler, finish_subnegotiation,
  append_subnegotiation, byte_after_iac, byte_after_sb_iac, parse_byte, parse_bytes, metered,
  telnet_session_feed_at, input_bytes_per_window, input_bytes_window_ms,
}
use telnet_tls_server.Telnet.Framing.Chunks.{parse_bytes-closed, parse_bytes-open}
use telnet_tls_server.Telnet.Framing.Bounds.{
  BufferFits, DialogueFits, Keeps-BufferFits, handle_control_command-BufferFits,
  receive_data_byte-BufferFits,
}

-- What the line and the subnegotiation buffer hold fits in them.
pub record Fits (s : Session) : Type 0 where
  pub line_fits : LineFits s
  pub buffer_fits : BufferFits s

-- No handler overfills a buffer.
pub record HandlersFit (h : Handlers) : Type 0 where
  pub dialogue_fits : DialogueFits h.dialogue
  pub option_fits :
      (command option : ℕ) (s : Session) → Fits s → Fits (h.telnet_option command option s)
  pub naws_fits : (s : Session) → Fits s → Fits (h.naws s)
  pub terminal_type_fits : (s : Session) → Fits s → Fits (h.terminal_type s)
  pub charset_fits : (s : Session) → Fits s → Fits (h.charset s)
  pub new_environ_fits : (s : Session) → Fits s → Fits (h.new_environ s)
  pub gmcp_fits : (s : Session) → Fits s → Fits (h.gmcp s)

pub Keeps-Fits : {s t : Session} → Keeps s t → Fits s → Fits t
Keeps-Fits k fits = record {
  line_fits = LineFits-same k fits.line_fits;
  buffer_fits = Keeps-BufferFits k fits.buffer_fits;
}

-- The parser state is no part of a buffer.
in_state : (p : ParserState) (s : Session) → Fits s → Fits (record s { parser = p })
in_state p s fits =
    Keeps-Fits (record { same_line = refl; same_login = refl; same_buffer = refl }) fits

one_more :
    (n m : ℕ) → leb subnegotiation_max_bytes n ≡ false → m ≡ n + 1 → m ≤ subnegotiation_max_bytes
one_more n m free e = ground arith

-- An empty buffer fits.
emptied : (s : Session) → Fits s → Fits (record s { subnegotiation = [] })
emptied s fits = record {
  line_fits = record { room = fits.line_fits.room; clean = fits.line_fits.clean };
  buffer_fits = omega arith;
}

append_subnegotiation-Fits : (byte : ℕ) (s : Session) → Fits s → Fits (append_subnegotiation byte s)
unfolding append_subnegotiation
append_subnegotiation-Fits byte s fits =
    branch_by Fits (leb subnegotiation_max_bytes (length s.subnegotiation)) _ _
      (λ full.
        Keeps-Fits
          (request_close-Keeps (some (codes "telnet_subnegotiation_overflow"))
            (some (codes "Protocol error.\r\n")) s)
          fits)
      (λ free. record {
        line_fits = record { room = fits.line_fits.room; clean = fits.line_fits.clean };
        buffer_fits =
            one_more (length s.subnegotiation) _ free (length-append s.subnegotiation (byte ∷ []));
      })

finish_subnegotiation-Fits :
    (h : Handlers) (s : Session) → HandlersFit h → Fits s → Fits (finish_subnegotiation h s)
unfolding finish_subnegotiation subnegotiation_handler
finish_subnegotiation-Fits h s good fits = emptied _ (
    branch Fits (s.subnegotiation_option == 31) _ _ (good.naws_fits s fits) (
      branch Fits (s.subnegotiation_option == 24) _ _ (good.terminal_type_fits s fits) (
        branch Fits (s.subnegotiation_option == 42) _ _ (good.charset_fits s fits) (
          branch Fits (s.subnegotiation_option == 39) _ _ (good.new_environ_fits s fits)
            (branch Fits (s.subnegotiation_option == 201) _ s (good.gmcp_fits s fits) fits)))))

receive_data_byte-Fits :
    (h : Handlers) (now byte : ℕ) (s : Session)
    → HandlersFit h
    → Fits s
    → Fits (receive_data_byte h.dialogue now byte s)
receive_data_byte-Fits h now byte s good fits = record {
  line_fits = receive_data_byte-LineFits h.dialogue now byte s fits.line_fits;
  buffer_fits =
      receive_data_byte-BufferFits h.dialogue now byte s good.dialogue_fits fits.buffer_fits;
}

byte_after_iac-Fits :
    (h : Handlers) (now byte : ℕ) (s : Session)
    → HandlersFit h
    → Fits s
    → Fits (byte_after_iac h now byte s)
unfolding byte_after_iac
byte_after_iac-Fits h now byte s good fits =
    branch Fits (byte == iac) _ _
      (in_state parser_data _ (receive_data_byte-Fits h now iac s good fits))
      (branch Fits (byte == 251 || (byte == 252 || (byte == 253 || byte == 254))) _ _
        (Keeps-Fits (record { same_line = refl; same_login = refl; same_buffer = refl }) fits)
        (branch Fits (byte == sb) _ _ (in_state parser_sb_option s fits) (
          in_state parser_data (handle_control_command byte s) (record {
            line_fits = handle_control_command-LineFits byte s fits.line_fits;
            buffer_fits = handle_control_command-BufferFits byte s fits.buffer_fits;
          }))))

byte_after_sb_iac-Fits :
    (h : Handlers) (byte : ℕ) (s : Session)
    → HandlersFit h
    → Fits s
    → Fits (byte_after_sb_iac h byte s)
unfolding byte_after_sb_iac
byte_after_sb_iac-Fits h byte s good fits =
    branch Fits (byte == se) _ _ (in_state parser_data _ (finish_subnegotiation-Fits h s good fits))
      (branch Fits (byte == iac) _ _ (append_subnegotiation-Fits iac s fits) (
        in_state parser_sb_data _
          (Keeps-Fits (note_protocol_violation-Keeps (codes "malformed subnegotiation") s) fits)))

told :
    (option : ℕ) (s : Session)
    → Fits s
    → Fits
        (record s { subnegotiation_option = option; subnegotiation = []; parser = parser_sb_data })
told option s fits = record {
  line_fits = record { room = fits.line_fits.room; clean = fits.line_fits.clean };
  buffer_fits = omega arith;
}

-- The step of the parser in each of its states.
parse_byte-Fits :
    (p : ParserState) (h : Handlers) (now byte : ℕ) (s : Session)
    → HandlersFit h
    → Fits s
    → Fits (parse_byte h now byte (record s { parser = p }))
unfolding parse_byte
parse_byte-Fits parser_data h now byte s good fits =
    let t = in_state parser_data s fits in
    branch Fits (byte == iac) _ _ (in_state parser_iac s fits)
      (receive_data_byte-Fits h now byte _ good t)
parse_byte-Fits parser_iac h now byte s good fits =
    byte_after_iac-Fits h now byte _ good (in_state parser_iac s fits)
parse_byte-Fits parser_option h now byte s good fits =
    in_state parser_data _
      (good.option_fits s.pending_telnet_command byte _ (in_state parser_option s fits))
parse_byte-Fits parser_sb_option h now byte s good fits = told byte s fits
parse_byte-Fits parser_sb_data h now byte s good fits =
    branch Fits (byte == iac) _ _ (in_state parser_sb_iac s fits)
      (append_subnegotiation-Fits byte _ (in_state parser_sb_data s fits))
parse_byte-Fits parser_sb_iac h now byte s good fits =
    byte_after_sb_iac-Fits h byte _ good (in_state parser_sb_iac s fits)

parse_bytes-Fits :
    (h : Handlers) (now : ℕ) (bytes : Bytes) (s : Session)
    → HandlersFit h
    → Fits s
    → Fits (parse_bytes h now bytes s)
parse_bytes-Fits h now [] s good fits = unfold parse_bytes in fits
parse_bytes-Fits h now (b ∷ bs) s good fits = elim (Bool-cases s.close_requested) [
  | inl c ↦ subst Fits (sym (parse_bytes-closed h now (b ∷ bs) s c)) fits
  | inr o ↦
      subst Fits (sym (parse_bytes-open h now b bs s o))
        (parse_bytes-Fits h now bs _ good (parse_byte-Fits s.parser h now b s good fits))
]

metered-Fits :
    (h : Handlers) (now : ℕ) (bytes : Bytes) (granted : Bool) (s : Session)
    → HandlersFit h
    → Fits s
    → Fits (metered h now bytes granted s)
unfolding metered
metered-Fits h now bytes true s good fits = parse_bytes-Fits h now bytes s good fits
metered-Fits h now bytes false s good fits =
    Keeps-Fits
      (request_close-Keeps (some (codes "byte_flood"))
        (some (codes "Input rate limit exceeded.\r\n")) s)
      fits

-- Whatever bytes are fed at whatever time, the line stays within the limit of the login state and
-- free of control characters, and the subnegotiation within its 4096 bytes, if it was so before
-- and no handler overfills a buffer.
pub telnet_session_feed_at-Fits :
    (h : Handlers) (bytes : Bytes) (now : ℕ) (s : Session)
    → HandlersFit h
    → Fits s
    → Fits (telnet_session_feed_at h bytes now s).0
unfolding telnet_session_feed_at
telnet_session_feed_at-Fits h bytes now s good fits =
    let used =
      rate_consume s.byte_window (length bytes) input_bytes_per_window input_bytes_window_ms now in
    let metered_from =
      Keeps-Fits {t = record s { byte_window = used.0 }}
        (record { same_line = refl; same_login = refl; same_buffer = refl }) fits in
    branch (λ (r : Session × Bool). Fits r.0) s.close_requested _ _ fits
      (metered-Fits h now bytes used.1 _ good metered_from)

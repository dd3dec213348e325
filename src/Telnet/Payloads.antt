-- ===== src/Telnet/Payloads.antt =====
-- The subnegotiations of src/telnet_protocol.c: window size, terminal type and character set. A
-- handler reads the payload that the session holds.
pub mod Environ
pub mod Keeps
pub mod Decimal
pub mod Charset
use telnet_tls_server.Common.{
  ℕ, ◌+◌, ◌-◌, ◌*◌, ◌/◌, ◌^◌, ltb, leb, ◌==◌, if◌then◌else◌, Bool, true, false, not, ◌&&◌, ◌||◌,
  List, [], ◌∷◌, ◌++◌, Option, none, some, Bytes, codes, length, drop, c_string,
}
use telnet_tls_server.Negotiation.{local, remote}
use telnet_tls_server.Players.Names.{ascii_equal_ignore_case, is_digit, every}
use telnet_tls_server.Telnet.Opt
use telnet_tls_server.Telnet.Terminal.{unknown_terminal, terminal_text_max, overwrite, store_text}
use telnet_tls_server.Telnet.Session.{Session, audit, note_protocol_violation, send_subnegotiation}
use telnet_tls_server.Telnet.Options.{
  on, apply_mtts_flags, refresh_utf8_metadata, request_terminal_type,
}

unfoldable pub clamp_dimension : ℕ → ℕ → ℕ → ℕ → ℕ
clamp_dimension value minimum maximum fallback =
    if value == 0
    then fallback
    else if ltb value minimum
    then minimum
    else if ltb maximum value
    then maximum
    else value

-- With the four bytes of the payload.
unfoldable pub sized : ℕ → ℕ → ℕ → ℕ → Session → Session
unfolding clamp_dimension
sized a b c d s = record s {
  terminal = record (s.terminal) {
    width = clamp_dimension (a * 256 + b) 20 500 80;
    height = clamp_dimension (c * 256 + d) 5 200 24;
  };
}

unfoldable pub naws_payload : Bytes → Session → Session
unfolding sized
naws_payload (a ∷ b ∷ c ∷ d ∷ []) s = sized a b c d s
naws_payload other s = note_protocol_violation (codes "malformed NAWS payload") s

unfoldable pub handle_naws : Session → Session
unfolding naws_payload
handle_naws s = if on remote Opt.naws s then naws_payload s.subnegotiation s else s

-- The loop of `copy_printable_ascii` behind the bytes written: the buffer and the result.
unfoldable pub copy_from : Bytes → Bytes → Bytes → Bytes × Bool
unfolding overwrite
copy_from written [] output = (store_text written output, true)
copy_from written (b ∷ bs) output =
    let rest = copy_from (written ++ b ∷ []) bs output in
    if ltb b 32 || ltb 126 b then (overwrite written output, false) else rest

-- The buffer, of the size given, and the result. Where an input byte is refused, the bytes before
-- it are written already.
unfoldable pub copy_printable_ascii : ℕ → Bytes → Bytes → Bytes × Bool
unfolding copy_from
copy_printable_ascii output_size input output =
    if leb output_size (length input) then (output, false) else copy_from [] input output

-- The loop of `parse_decimal_u32`.
unfoldable pub decimal_from : ℕ → Bytes → Option ℕ
decimal_from parsed [] = some parsed
decimal_from parsed (b ∷ bs) =
    let digit = b - b'0' in
    let rest = decimal_from (parsed * 10 + digit) bs in
    if not (is_digit b) then none else if ltb ((2 ^ 32 - 1 - digit) / 10) parsed then none else rest

unfoldable pub parse_decimal_u32 : Bytes → Option ℕ
unfolding decimal_from
parse_decimal_u32 [] = none
parse_decimal_u32 (b ∷ bs) = decimal_from 0 (b ∷ bs)

-- `bytes_equal_ignore_case` with a text that holds no NUL.
abbrev pub bytes_equal_ignore_case : Bytes → Bytes → Bool
bytes_equal_ignore_case = ascii_equal_ignore_case

ends_with : Bytes → Bytes → Bool
ends_with text suffix =
    leb (length suffix) (length text)
    && ascii_equal_ignore_case (drop (length text - length suffix) text) suffix

abbrev named : Bytes → Session → Session
named terminal_type s =
    if ascii_equal_ignore_case terminal_type (codes "ANSI")
    then record s { terminal = record (s.terminal) { ansi = true } }
    else if ascii_equal_ignore_case terminal_type (codes "VT100")
        || ascii_equal_ignore_case terminal_type (codes "XTERM")
    then record s { terminal = record (s.terminal) { ansi = true; vt100 = true } }
    else s

abbrev palette : Bytes → Session → Session
unfolding ends_with
palette terminal_type s =
    if ends_with terminal_type (codes "-256COLOR")
    then record s { terminal = record (s.terminal) { color_256 = true } }
    else s

abbrev full_color : Bytes → Session → Session
unfolding ends_with
full_color terminal_type s =
    if ends_with terminal_type (codes "-TRUECOLOR")
    then record s { terminal = record (s.terminal) { color_256 = true; truecolor = true } }
    else s

unfoldable pub infer_terminal_type_capabilities : Bytes → Session → Session
unfolding ends_with
infer_terminal_type_capabilities terminal_type s =
    full_color terminal_type (palette terminal_type (named terminal_type s))

-- The flags of an MTTS report.
unfoldable pub mtts_report : Bytes → Option ℕ
unfolding parse_decimal_u32
mtts_report (m ∷ t ∷ u ∷ v ∷ w ∷ b ∷ bs) =
    if bytes_equal_ignore_case (m ∷ t ∷ u ∷ v ∷ w ∷ []) (codes "MTTS ")
    then parse_decimal_u32 (b ∷ bs)
    else none
mtts_report other = none

-- Behind `parse_mtts_report`: a report, or the name of a client or a terminal.
unfoldable pub reported_type : Option ℕ → Bytes → Session → Session
reported_type (some flags) reported s = refresh_utf8_metadata (apply_mtts_flags flags s)
reported_type none reported s =
    if s.terminal_type_requests_sent == 1
    then infer_terminal_type_capabilities reported (record s {
      terminal = record (s.terminal) {
        client_name = store_text reported s.terminal.client_name;
        terminal_type = store_text reported s.terminal.terminal_type;
      };
    })
    else if s.terminal_type_requests_sent == 2
    then infer_terminal_type_capabilities reported (record s {
      terminal = record (s.terminal) {
        terminal_type = store_text reported s.terminal.terminal_type;
      };
    })
    else s

or_unknown_type : Bytes → Bytes
or_unknown_type [] = unknown_terminal
or_unknown_type (b ∷ bs) = b ∷ bs

abbrev repeats : Bytes → Bytes → Bool
repeats last reported = not (length last == 0) && ascii_equal_ignore_case last reported

-- With the text that the client reported.
unfoldable pub take_terminal_type : Bytes → Session → Session
unfolding reported_type
take_terminal_type reported s =
    let repeated = repeats s.last_terminal_type reported in
    let noted = record (reported_type (mtts_report reported) reported s) {
      last_terminal_type = reported;
    } in
    if (noted.terminal_type_requests_sent == 1 && ascii_equal_ignore_case reported (codes "ANSI"))
      || repeated
    then noted
    else request_terminal_type noted

-- With the buffer `reported` and the result of `copy_printable_ascii`.
unfoldable pub copied_type : Bytes × Bool → Session → Session
unfolding take_terminal_type or_unknown_type
copied_type (reported, false) s = note_protocol_violation (codes "invalid terminal type payload") s
copied_type (reported, true) s = take_terminal_type (or_unknown_type (c_string reported)) s

-- TERMINAL-TYPE IS is 0. The buffer is written before it is read.
unfoldable pub terminal_type_payload : Bytes → Session → Session
unfolding copied_type copy_printable_ascii
terminal_type_payload (kind ∷ b ∷ bs) s =
    if kind == 0
    then copied_type (copy_printable_ascii (terminal_text_max + 1) (b ∷ bs) []) s
    else note_protocol_violation (codes "malformed terminal type payload") s
terminal_type_payload other s = note_protocol_violation (codes "malformed terminal type payload") s

unfoldable pub handle_terminal_type : Session → Session
unfolding terminal_type_payload
handle_terminal_type s =
    if on remote Opt.terminal_type s
    then terminal_type_payload s.subnegotiation (record s { terminal_type_waiting = false })
    else s

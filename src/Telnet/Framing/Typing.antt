-- ===== src/Telnet/Framing/Typing.antt =====
-- A line typed on a terminal.
use telnet_tls_server.Common.{
  ℕ, ◌≡◌, ◌≤◌, ◌+◌, refl, sym, ap, ◌∙◌, leb, ◌==◌, Bool, true, false, ◌&&◌, not, [], ◌∷◌, ◌++◌,
  append_assoc, append-nil, Bytes, length, length-append, All, arith,
}
use telnet_tls_server.Telnet.Session.{Session, parser_data, iac}
use telnet_tls_server.Telnet.Line.{
  line_limit, append_line_byte, data_byte, after_cr, receive_data_byte, process_complete_line,
}
use telnet_tls_server.Telnet.Line.Bounds.{typed}
use telnet_tls_server.Telnet.Framing.{Handlers, parse_byte, parse_bytes}
use telnet_tls_server.Telnet.Framing.Chunks.{parse_bytes-open, parse_bytes-append}

-- A byte of text: no control character, no IAC.
abbrev pub graphic : ℕ → Bool
graphic b = typed b && not (b == iac)

-- A session between commands with this line typed so far.
abbrev pub typing : Bytes → Session → Session
typing line s = record s { parser = parser_data; pending_cr = false; line = line }

graphic_plain : (b : ℕ) → graphic b ≡ true → (b == iac) ≡ false
graphic_plain b t = ground arith

graphic-typed : (b : ℕ) → graphic b ≡ true → typed b ≡ true
graphic-typed b t = ground arith

append_line_byte-graphic :
    (b : ℕ) (s : Session)
    → typed b ≡ true
    → leb (line_limit s.login) (length s.line) ≡ false
    → append_line_byte b s ≡ record s { line = s.line ++ b ∷ [] }
unfolding append_line_byte
append_line_byte-graphic b s t free = ground arith

data_byte-graphic :
    (h : Handlers) (now b : ℕ) (s : Session)
    → typed b ≡ true
    → data_byte h.dialogue now b s ≡ append_line_byte b s
unfolding data_byte
data_byte-graphic h now b s t = ground arith

pub parse_byte-graphic :
    (h : Handlers) (now b : ℕ) (line : Bytes) (s : Session)
    → graphic b ≡ true
    → leb (line_limit s.login) (length line) ≡ false
    → parse_byte h now b (typing line s) ≡ typing (line ++ b ∷ []) s
unfolding parse_byte receive_data_byte
parse_byte-graphic h now b line s t free = rw (graphic_plain b t) (
    data_byte-graphic h now b (typing line s) (graphic-typed b t)
    ∙ append_line_byte-graphic b (typing line s) (graphic-typed b t) free)

pub room_left : (limit held more : ℕ) → held + more + 1 ≤ limit → leb limit held ≡ false
room_left limit held more h = ground arith

parse_bytes-graphic :
    (h : Handlers) (now : ℕ) (text line : Bytes) (s : Session)
    → s.close_requested ≡ false
    → All (λ b. graphic b ≡ true) text
    → length line + length text ≤ line_limit s.login
    → parse_bytes h now text (typing line s) ≡ typing (line ++ text) s
parse_bytes-graphic h now [] line s o plain fits =
    unfold parse_bytes in ap (λ l. typing l s) (sym (append-nil line))
parse_bytes-graphic h now (b ∷ bs) line s o (p, plain) fits =
    parse_bytes-open h now b bs (typing line s) o
    ∙ ap (parse_bytes h now bs)
        (parse_byte-graphic h now b line s p (room_left _ (length line) (length bs) (omega arith)))
    ∙ parse_bytes-graphic h now bs (line ++ b ∷ []) s o plain
        (let more = length-append line (b ∷ []) in omega arith)
    ∙ ap (λ l. typing l s) (append_assoc line (b ∷ []) bs)

pub parse_bytes-crlf :
    (h : Handlers) (now : ℕ) (line : Bytes) (s : Session)
    → s.close_requested ≡ false
    → parse_bytes h now (b'\r' ∷ b'\n' ∷ []) (typing line s)
      ≡ process_complete_line h.dialogue now (typing line s)
parse_bytes-crlf h now line s o =
    parse_bytes-open h now b'\r' (b'\n' ∷ []) (typing line s) o
    ∙ unfold parse_byte receive_data_byte data_byte in
      parse_bytes-open h now b'\n' [] (record (typing line s) { pending_cr = true }) o
      ∙ unfold parse_byte receive_data_byte after_cr parse_bytes in refl

-- An open session between commands, with nothing typed, that reads text of at most the limit of
-- the login state, without control characters and IAC, and then CR LF, completes the line with
-- exactly that text.
pub parse_bytes-typed_line :
    (h : Handlers) (now : ℕ) (text : Bytes) (s : Session)
    → s.close_requested ≡ false
    → All (λ b. graphic b ≡ true) text
    → length text ≤ line_limit s.login
    → parse_bytes h now (text ++ (b'\r' ∷ b'\n' ∷ [])) (typing [] s)
      ≡ process_complete_line h.dialogue now (typing text s)
parse_bytes-typed_line h now text s o plain fits =
    parse_bytes-append h now text (b'\r' ∷ b'\n' ∷ []) (typing [] s)
    ∙ ap (parse_bytes h now (b'\r' ∷ b'\n' ∷ []))
        (parse_bytes-graphic h now text [] s o plain (omega arith))
    ∙ parse_bytes-crlf h now text s o

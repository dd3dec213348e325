-- ===== src/Telnet/Payloads/Charset.antt =====
-- The CHARSET subnegotiation of src/telnet_protocol.c.
pub mod Offers
use telnet_tls_server.Common.{
  ℕ, ltb, ◌==◌, if◌then◌else◌, Bool, true, false, not, ◌&&◌, ◌||◌, List, [], ◌∷◌, ◌++◌, some, Bytes,
  codes, length,
}
use telnet_tls_server.Negotiation.{local, remote}
use telnet_tls_server.Telnet.Opt
use telnet_tls_server.Telnet.Session.{Session, audit, note_protocol_violation, send_subnegotiation}
use telnet_tls_server.Telnet.Options.{on, refresh_utf8_metadata}
use telnet_tls_server.Telnet.Payloads.{bytes_equal_ignore_case}

abbrev pub utf8_name : Bytes
utf8_name = codes "UTF-8"

-- An item of the offer that is not empty and names UTF-8.
abbrev pub names_utf8 : Bytes → Bool
names_utf8 item = not (length item == 0) && bytes_equal_ignore_case item utf8_name

-- The loop over the offer; `item` is what stands between `start` and `i`.
unfoldable pub offer_from : ℕ → Bytes → Bytes → Bool
offer_from separator item [] = names_utf8 item
offer_from separator item (b ∷ bs) =
    let skipped = offer_from separator [] bs in
    let longer = offer_from separator (item ++ b ∷ []) bs in
    if b == separator
    then (if names_utf8 item then true else skipped)
    else if ltb b 32 || ltb 126 b
    then false
    else longer

-- REQUEST is 1.
unfoldable pub charset_list_contains_utf8 : Bytes → Bool
unfolding offer_from
charset_list_contains_utf8 (kind ∷ separator ∷ b ∷ bs) =
    if not (kind == 1) || (separator == 255 || ltb separator 32)
    then false
    else offer_from separator [] (b ∷ bs)
charset_list_contains_utf8 other = false

unfoldable pub utf8_agreed : Session → Session
utf8_agreed s =
    audit (codes "telnet_charset") (some (codes "UTF-8 accepted"))
      (refresh_utf8_metadata (record s { charset_utf8 = true }))

-- ACCEPTED is 2, REJECTED 3.
unfoldable pub charset_offer : Bytes → Session → Session
charset_offer payload s =
    if s.terminal.local_binary && (s.terminal.remote_binary && charset_list_contains_utf8 payload)
    then utf8_agreed (send_subnegotiation Opt.charset (2 ∷ utf8_name) s)
    else send_subnegotiation Opt.charset (3 ∷ []) s

unfoldable pub charset_answer : ℕ → Bytes → Session → Session
charset_answer kind rest s =
    if (kind == 2) && ((length rest == 5) && bytes_equal_ignore_case rest utf8_name)
    then utf8_agreed s
    else if kind == 3
    then refresh_utf8_metadata (record s { charset_utf8 = false })
    else note_protocol_violation (codes "malformed CHARSET response") s

unfoldable pub charset_payload : Bytes → Session → Session
charset_payload [] s = note_protocol_violation (codes "empty CHARSET payload") s
charset_payload (kind ∷ rest) s =
    if kind == 1
    then (if on remote Opt.charset s then charset_offer (kind ∷ rest) s else s)
    else if not (on local Opt.charset s) || not s.charset_request_sent
    then s
    else charset_answer kind rest s

unfoldable pub handle_charset : Session → Session
handle_charset s =
    if not (on remote Opt.charset s) && not (on local Opt.charset s)
    then s
    else charset_payload s.subnegotiation s

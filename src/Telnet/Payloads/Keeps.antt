-- ===== src/Telnet/Payloads/Keeps.antt =====
-- What the handlers of subnegotiations leave alone: the line, the login state and the payload.
use telnet_tls_server.Common.{
  ℕ, refl, Bool, true, false, ◌||◌, [], ◌∷◌, ◌==◌, Bytes, Option, none, some, codes,
}
use telnet_tls_server.Negotiation.{remote}
use telnet_tls_server.Players.Names.{ascii_equal_ignore_case}
use telnet_tls_server.Telnet.Opt
use telnet_tls_server.Telnet.Session.{Session, audit}
use telnet_tls_server.Telnet.Session.Keeps.{
  Keeps, Keeps-refl, Keeps-trans, branch, note_protocol_violation-Keeps,
}
use telnet_tls_server.Telnet.Options.{on, apply_mtts_flags, refresh_utf8_metadata}
use telnet_tls_server.Telnet.Payloads.{
  naws_payload, handle_naws, named, palette, full_color, ends_with,
  infer_terminal_type_capabilities, reported_type, take_terminal_type, copied_type,
  terminal_type_payload, handle_terminal_type, mtts_report,
}
use telnet_tls_server.Telnet.Payloads.Charset.{
  utf8_agreed, charset_offer, charset_answer, charset_payload, handle_charset, utf8_name,
}
use telnet_tls_server.Telnet.Options.Keeps.{
  send_subnegotiation-Keeps, refresh-Keeps, request_terminal_type-Keeps,
}

naws_payload-Keeps : (payload : Bytes) (s : Session) → Keeps s (naws_payload payload s)
unfolding naws_payload
naws_payload-Keeps [] s = note_protocol_violation-Keeps _ s
naws_payload-Keeps (a ∷ []) s = note_protocol_violation-Keeps _ s
naws_payload-Keeps (a ∷ b ∷ []) s = note_protocol_violation-Keeps _ s
naws_payload-Keeps (a ∷ b ∷ c ∷ []) s = note_protocol_violation-Keeps _ s
naws_payload-Keeps (a ∷ b ∷ c ∷ d ∷ []) s = record {
  same_line = refl;
  same_login = refl;
  same_buffer = refl;
}
naws_payload-Keeps (a ∷ b ∷ c ∷ d ∷ e ∷ more) s = note_protocol_violation-Keeps _ s

pub handle_naws-Keeps : (s : Session) → Keeps s (handle_naws s)
unfolding handle_naws
handle_naws-Keeps s =
    branch (Keeps s) (on remote Opt.naws s) _ _ (naws_payload-Keeps s.subnegotiation s)
      (Keeps-refl s)

flags-Keeps : (flags : ℕ) (s : Session) → Keeps s (apply_mtts_flags flags s)
unfolding apply_mtts_flags
flags-Keeps flags s = record { same_line = refl; same_login = refl; same_buffer = refl }

named-Keeps : (text : Bytes) (s : Session) → Keeps s (named text s)
named-Keeps text s =
    branch (Keeps s) (ascii_equal_ignore_case text (codes "ANSI")) _ _
      (record { same_line = refl; same_login = refl; same_buffer = refl })
      (branch (Keeps s)
        (ascii_equal_ignore_case text (codes "VT100")
          || ascii_equal_ignore_case text (codes "XTERM"))
        _ _ (record { same_line = refl; same_login = refl; same_buffer = refl }) (Keeps-refl s))

palette-Keeps : (text : Bytes) (s : Session) → Keeps s (palette text s)
unfolding palette
palette-Keeps text s =
    branch (Keeps s) (ends_with text (codes "-256COLOR")) _ _
      (record { same_line = refl; same_login = refl; same_buffer = refl }) (Keeps-refl s)

full_color-Keeps : (text : Bytes) (s : Session) → Keeps s (full_color text s)
unfolding full_color
full_color-Keeps text s =
    branch (Keeps s) (ends_with text (codes "-TRUECOLOR")) _ _
      (record { same_line = refl; same_login = refl; same_buffer = refl }) (Keeps-refl s)

pub infer-Keeps : (text : Bytes) (s : Session) → Keeps s (infer_terminal_type_capabilities text s)
unfolding infer_terminal_type_capabilities
infer-Keeps text s =
    Keeps-trans (named-Keeps text s) (Keeps-trans (palette-Keeps text _) (full_color-Keeps text _))

pub report-Keeps :
    (flags : ℕ) (s : Session) → Keeps s (refresh_utf8_metadata (apply_mtts_flags flags s))
report-Keeps flags s = Keeps-trans (flags-Keeps flags s) (refresh-Keeps _)

reported_type-Keeps :
    (flags : Option ℕ) (reported : Bytes) (s : Session) → Keeps s (reported_type flags reported s)
unfolding reported_type
reported_type-Keeps (some flags) reported s = report-Keeps flags s
reported_type-Keeps none reported s =
    branch (Keeps s) (s.terminal_type_requests_sent == 1) _ _
      (Keeps-trans (record { same_line = refl; same_login = refl; same_buffer = refl })
        (infer-Keeps reported _))
      (branch (Keeps s) (s.terminal_type_requests_sent == 2) _ _
        (Keeps-trans (record { same_line = refl; same_login = refl; same_buffer = refl })
          (infer-Keeps reported _))
        (Keeps-refl s))

take_terminal_type-Keeps :
    (reported : Bytes) (s : Session) → Keeps s (take_terminal_type reported s)
unfolding take_terminal_type
take_terminal_type-Keeps reported s =
    let told = reported_type-Keeps (mtts_report reported) reported s in
    let noted =
      Keeps-trans told (record { same_line = refl; same_login = refl; same_buffer = refl }) in
    branch (Keeps s) _ _ _ noted (Keeps-trans noted (request_terminal_type-Keeps _))

copied_type-Keeps : (copy : Bytes × Bool) (s : Session) → Keeps s (copied_type copy s)
unfolding copied_type
copied_type-Keeps (reported, false) s = note_protocol_violation-Keeps _ s
copied_type-Keeps (reported, true) s = take_terminal_type-Keeps _ s

terminal_type_payload-Keeps :
    (payload : Bytes) (s : Session) → Keeps s (terminal_type_payload payload s)
unfolding terminal_type_payload
terminal_type_payload-Keeps [] s = note_protocol_violation-Keeps _ s
terminal_type_payload-Keeps (kind ∷ []) s = note_protocol_violation-Keeps _ s
terminal_type_payload-Keeps (kind ∷ b ∷ bs) s =
    branch (Keeps s) (kind == 0) _ _ (copied_type-Keeps _ s) (note_protocol_violation-Keeps _ s)

pub handle_terminal_type-Keeps : (s : Session) → Keeps s (handle_terminal_type s)
unfolding handle_terminal_type
handle_terminal_type-Keeps s =
    branch (Keeps s) (on remote Opt.terminal_type s) _ _
      (Keeps-trans (record { same_line = refl; same_login = refl; same_buffer = refl })
        (terminal_type_payload-Keeps s.subnegotiation _))
      (Keeps-refl s)

utf8_agreed-Keeps : (s : Session) → Keeps s (utf8_agreed s)
unfolding utf8_agreed audit
utf8_agreed-Keeps s =
    Keeps-trans (record { same_line = refl; same_login = refl; same_buffer = refl })
      (Keeps-trans (refresh-Keeps (record s { charset_utf8 = true }))
        (record { same_line = refl; same_login = refl; same_buffer = refl }))

charset_offer-Keeps : (payload : Bytes) (s : Session) → Keeps s (charset_offer payload s)
unfolding charset_offer
charset_offer-Keeps payload s =
    branch (Keeps s) _ _ _
      (Keeps-trans (send_subnegotiation-Keeps Opt.charset (2 ∷ utf8_name) s) (utf8_agreed-Keeps _))
      (send_subnegotiation-Keeps Opt.charset (3 ∷ []) s)

charset_answer-Keeps :
    (kind : ℕ) (rest : Bytes) (s : Session) → Keeps s (charset_answer kind rest s)
unfolding charset_answer
charset_answer-Keeps kind rest s = branch (Keeps s) _ _ _ (utf8_agreed-Keeps s) (
    branch (Keeps s) (kind == 3) _ _
      (Keeps-trans (record { same_line = refl; same_login = refl; same_buffer = refl })
        (refresh-Keeps _))
      (note_protocol_violation-Keeps _ s))

charset_payload-Keeps : (payload : Bytes) (s : Session) → Keeps s (charset_payload payload s)
unfolding charset_payload
charset_payload-Keeps [] s = note_protocol_violation-Keeps _ s
charset_payload-Keeps (kind ∷ rest) s =
    branch (Keeps s) (kind == 1) _ _
      (branch (Keeps s) (on remote Opt.charset s) _ _ (charset_offer-Keeps _ s) (Keeps-refl s))
      (branch (Keeps s) _ _ _ (Keeps-refl s) (charset_answer-Keeps kind rest s))

pub handle_charset-Keeps : (s : Session) → Keeps s (handle_charset s)
unfolding handle_charset
handle_charset-Keeps s =
    branch (Keeps s) _ _ _ (Keeps-refl s) (charset_payload-Keeps s.subnegotiation s)

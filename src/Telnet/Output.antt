-- ===== src/Telnet/Output.antt =====
-- What an application writes to its session, and what it is told: src/telnet_protocol.c.
pub mod Keeps
pub mod Newlines
use telnet_tls_server.Common.{
  ℕ, ltb, leb, ◌==◌, if◌then◌else◌, Bool, true, false, not, ◌&&◌, ◌||◌, List, [], ◌∷◌, ◌++◌, Option,
  none, some, Bytes, codes, length,
}
use telnet_tls_server.Players.Names.{every}
use telnet_tls_server.Players.Record.{starts_with}
use telnet_tls_server.Text.Utf8.{terminal_text_utf8_valid}
use telnet_tls_server.Text.Sanitize.{terminal_text_sanitize}
use telnet_tls_server.Telnet.Terminal.{TerminalInfo}
use telnet_tls_server.Telnet.Session.{
  Session, write_telnet_data, write_text, prompt_marker, request_close,
}

unfoldable pub osc_uri_safe : Option Bytes → Bool
osc_uri_safe none = false
osc_uri_safe (some uri) =
    not (length uri == 0)
    && (leb (length uri) 1024
        && (terminal_text_utf8_valid uri
            && every (λ ch. not (ltb ch 32 || (ch == 127 || ch == 27))) uri))

-- A write of what stands between `start` and `cursor`, if anything does.
abbrev pub flushed : Bytes → Session → Session
flushed [] s = s
flushed (b ∷ bs) s = write_telnet_data (b ∷ bs) s

-- The loop; `held` is what stands between `start` and `cursor`, `after_cr` whether the byte before
-- `cursor` is CR.
unfoldable pub application_text : Bool → Bytes → Bytes → Session → Session
application_text after_cr held [] s = flushed held s
application_text after_cr held (b ∷ bs) s = elim (b == 10 && not after_cr) [
  | true ↦ application_text false [] bs (write_telnet_data (13 ∷ 10 ∷ []) (flushed held s))
  | false ↦ application_text (b == 13) (held ++ b ∷ []) bs s
]

unfoldable pub write_application_text : Bytes → Session → Session
write_application_text text s = application_text false [] text s

abbrev pub application_write_text : Bytes → Session → Session
application_write_text = write_application_text

unfoldable pub application_write_prompt : Bytes → Session → Session
application_write_prompt text s = prompt_marker (write_application_text text s)

unfoldable pub application_request_close : Option Bytes → Session → Session
application_request_close message s = request_close (some (codes "application_close")) message s

-- A link that the terminal does not show, by its scheme.
abbrev refused_scheme : Bytes → Session → Bool
refused_scheme uri s =
    (starts_with (codes "send:") uri && not s.terminal.osc8_send)
    || (starts_with (codes "prompt:") uri && not s.terminal.osc8_prompt)

-- ESC is 27.
abbrev link_begin : Bytes
link_begin = 27 ∷ codes "]8;;"

abbrev string_terminator : Bytes
string_terminator = 27 ∷ codes "\\"

unfoldable pub written_link : Bytes → Bytes → Session → Session
written_link uri safe_label s = write_telnet_data (link_begin ++ string_terminator) (
    write_text safe_label (
      write_telnet_data string_terminator (write_telnet_data uri (write_telnet_data link_begin s))))

-- The result is always 0: a NULL label is no case.
unfoldable pub application_write_link : Bytes → Bytes → Session → Session
application_write_link uri label s =
    let safe_label = terminal_text_sanitize (some label) 512 in
    if not s.terminal.osc8 || (not (osc_uri_safe (some uri)) || refused_scheme uri s)
    then write_text safe_label s
    else written_link uri safe_label s

-- `terminal_capabilities`
pub record Capabilities : Type 0 where
  pub width : ℕ
  pub height : ℕ
  pub utf8 : Bool
  pub ansi : Bool
  pub color_256 : Bool
  pub truecolor : Bool
  pub screen_reader : Bool
  pub secure_transport : Bool
  pub gmcp : Bool
  pub osc8 : Bool
  pub osc8_send : Bool
  pub osc8_prompt : Bool
  pub osc8_tooltip : Bool
  pub terminal_type : Bytes
  pub client_name : Bytes
  pub client_version : Bytes

unfoldable pub copy_terminal_capabilities : TerminalInfo → Capabilities
copy_terminal_capabilities t = record {
  width = t.width;
  height = t.height;
  utf8 = t.utf8_enabled;
  ansi = t.ansi;
  color_256 = t.color_256;
  truecolor = t.truecolor;
  screen_reader = t.screen_reader;
  secure_transport = t.secure_transport;
  gmcp = t.gmcp;
  osc8 = t.osc8;
  osc8_send = t.osc8_send;
  osc8_prompt = t.osc8_prompt;
  osc8_tooltip = t.osc8_tooltip;
  terminal_type = t.terminal_type;
  client_name = t.client_name;
  client_version = t.client_version;
}

-- `application.capabilities_changed`; `none` is NULL.
unfoldable pub notify_application_capabilities :
    Option (Capabilities → Session → Session) → Session → Session
notify_application_capabilities none s = s
notify_application_capabilities (some hook) s =
    if s.has_application then hook (copy_terminal_capabilities s.terminal) s else s

-- `application.poll`, whose Boolean is true where it returns 0; `none` is NULL.
unfoldable pub polled : Session × Bool → Session
polled (s, true) = s
polled (s, false) = request_close (some (codes "application_poll_close")) none s

unfoldable pub run_poll : Option (Session → Session × Bool) → Session → Session
run_poll none s = s
run_poll (some hook) s = if s.has_application then polled (hook s) else s

-- The Boolean is true where the result is 0.
unfoldable pub telnet_session_poll : Option (Session → Session × Bool) → Session → Session × Bool
telnet_session_poll hook s =
    let after = run_poll hook s in
    if s.close_requested then (s, false) else (after, not after.close_requested)

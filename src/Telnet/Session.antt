-- ===== src/Telnet/Session.antt =====
-- The session of src/telnet_protocol.c, as far as input, framing and output go, and the writing
-- functions. The writer callback and the audit log are lists of the calls made, in order.
pub mod Wire
pub mod Keeps
use telnet_tls_server.Common.{
  ℕ, ◌==◌, leb, if◌then◌else◌, Bool, true, false, List, [], ◌∷◌, ◌++◌, Option, none, some, Bytes,
  codes, length, ◌+◌,
}
use telnet_tls_server.Negotiation.{TelnetQ}
use telnet_tls_server.Players.Disk.{PlayerStore}
use telnet_tls_server.Security.Policy.{SecurityPolicy}
use telnet_tls_server.Telnet.Rate.{RateWindow}
use telnet_tls_server.Telnet.Terminal.{TerminalInfo}

pub data LoginState : Type 0 where
  login_name login_password login_new_password login_confirm_password login_in_game : LoginState

pub data ParserState : Type 0 where
  parser_data parser_iac parser_option parser_sb_option parser_sb_data parser_sb_iac : ParserState

pub record Session : Type 0 where
  pub login : LoginState
  pub parser : ParserState
  pub pending_telnet_command : ℕ
  pub subnegotiation_option : ℕ
  pub subnegotiation : Bytes
  pub started : Bool
  pub close_requested : Bool
  pub protocol_violations : ℕ
  pub pending_cr : Bool
  pub line : Bytes
  pub line_overflow : Bool
  -- `application_session != NULL`
  pub has_application : Bool
  pub pending_password : Bytes
  pub terminal : TerminalInfo
  pub player_name : Bytes
  pub remote_id : Bytes
  pub echo_desired : Bool
  pub insecure_warning_shown : Bool
  pub options : TelnetQ
  -- `mssp_query != NULL`
  pub has_mssp_query : Bool
  pub mssp_sent : Bool
  pub terminal_type_requests_sent : ℕ
  pub terminal_type_waiting : Bool
  pub last_terminal_type : Bytes
  pub charset_request_sent : Bool
  pub charset_utf8 : Bool
  pub new_environ_requested : Bool
  -- the package and the body of each message in the queue
  pub pending_gmcp_core : List (Bytes × Bytes)
  pub mnes_observed : Bool
  pub command_window : RateWindow
  -- what the pointers `store` and `security` lead to
  pub store : PlayerStore
  pub security : SecurityPolicy
  pub byte_window : RateWindow
  pub line_window : RateWindow
  pub written : List Bytes
  -- the event and the detail of each `audit_log_event`
  pub audited : List (Bytes × Option Bytes)

abbrev pub iac : ℕ
iac = 255

abbrev pub se : ℕ
se = 240

abbrev pub sb : ℕ
sb = 250

abbrev pub eor_cmd : ℕ
eor_cmd = 239

abbrev pub ga : ℕ
ga = 249

unfoldable pub audit : Bytes → Option Bytes → Session → Session
audit event detail s = record s { audited = s.audited ++ (event, detail) ∷ [] }

-- `session->writer` is never NULL: `telnet_session_create` refuses that.
unfoldable pub write_raw : Bytes → Session → Session
write_raw [] s = s
write_raw (b ∷ bs) s =
    if s.close_requested then s else record s { written = s.written ++ (b ∷ bs) ∷ [] }

-- The loop of `write_telnet_data`; `chunk` is what stands between `start` and `i`.
unfoldable pub write_chunks : Bytes → Bytes → Session → Session
unfolding write_raw
write_chunks chunk [] s = write_raw chunk s
write_chunks chunk (b ∷ bs) s = elim (b == iac) [
  | true ↦ write_chunks [] bs (write_raw (iac ∷ iac ∷ []) (write_raw chunk s))
  | false ↦ write_chunks (chunk ++ b ∷ []) bs s
]

unfoldable pub write_telnet_data : Bytes → Session → Session
unfolding write_chunks
write_telnet_data bytes s = write_chunks [] bytes s

abbrev pub write_text : Bytes → Session → Session
write_text = write_telnet_data

-- EOR is preferred; before SGA is agreed the marker is GA.
unfoldable pub prompt_marker : Session → Session
unfolding write_raw
prompt_marker s =
    if s.terminal.local_eor
    then write_raw (iac ∷ eor_cmd ∷ []) s
    else if s.terminal.local_suppress_go_ahead
    then s
    else write_raw (iac ∷ ga ∷ []) s

unfoldable pub write_prompt_text : Bytes → Session → Session
unfolding write_telnet_data prompt_marker
write_prompt_text text s = prompt_marker (write_text text s)

-- The body of the loop of `send_subnegotiation`.
unfoldable pub payload_bytes : Bytes → Session → Session
unfolding write_raw
payload_bytes [] s = s
payload_bytes (b ∷ bs) s =
    payload_bytes bs (write_raw (if b == iac then iac ∷ iac ∷ [] else b ∷ []) s)

unfoldable pub send_subnegotiation : ℕ → Bytes → Session → Session
unfolding payload_bytes write_raw
send_subnegotiation option payload s =
    write_raw (iac ∷ se ∷ []) (payload_bytes payload (write_raw (iac ∷ sb ∷ option ∷ []) s))

unfoldable pub write_telnet_option_raw : ℕ → ℕ → Session → Session
unfolding write_raw
write_telnet_option_raw command option s = write_raw (iac ∷ command ∷ option ∷ []) s

-- The message and the event may be NULL.
unfoldable pub say : Option Bytes → Session → Session
unfolding write_telnet_data
say none s = s
say (some message) s = write_text message s

unfoldable pub note : Option Bytes → Session → Session
unfolding audit
note none s = s
note (some event) s = audit event (some (codes "session close requested")) s

unfoldable pub request_close : Option Bytes → Option Bytes → Session → Session
unfolding say note
request_close event message s =
    if s.close_requested then s else note event (record (say message s) { close_requested = true })

abbrev pub protocol_violation_limit : ℕ
protocol_violation_limit = 8

unfoldable pub note_protocol_violation : Bytes → Session → Session
unfolding audit request_close
note_protocol_violation detail s =
    let noted =
      audit (codes "telnet_protocol_violation") (some detail)
        (record s { protocol_violations = s.protocol_violations + 1 }) in
    if leb protocol_violation_limit noted.protocol_violations
    then request_close (some (codes "telnet_protocol_abuse")) (some (codes "Protocol error.\r\n"))
        noted
    else noted

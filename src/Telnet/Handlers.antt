-- ===== src/Telnet/Handlers.antt =====
-- The handlers that src/telnet_protocol.c gives its parser, with the hooks of an application, and the
-- life of a session.
pub mod Whole
pub mod Life
use telnet_tls_server.Common.{
  ℕ, leb, if◌then◌else◌, Bool, true, false, [], Option, none, some, Bytes, codes, length,
}
use telnet_tls_server.Negotiation.{telnet_q_init}
use telnet_tls_server.Security.Policy.{SecurityPolicy}
use telnet_tls_server.Players.Disk.{Host, PlayerStore}
use telnet_tls_server.Telnet.Rate.{RateWindow}
use telnet_tls_server.Telnet.Terminal.{new_terminal}
use telnet_tls_server.Telnet.Session.{
  Session, login_name, parser_data, write_text, write_prompt_text,
}
use telnet_tls_server.Telnet.Framing.{Handlers}
use telnet_tls_server.Telnet.Login.{Outside, account_dialogue}
use telnet_tls_server.Telnet.Options.{
  Peripherals, receive_telnet_option, negotiate_operational_options,
}
use telnet_tls_server.Telnet.Payloads.{handle_naws, handle_terminal_type}
use telnet_tls_server.Telnet.Payloads.Charset.{handle_charset}
use telnet_tls_server.Telnet.Payloads.Environ.{handle_new_environ}
use telnet_tls_server.Telnet.Gmcp.{GmcpHook, handle_gmcp, replay_pre_auth_gmcp_core}
use telnet_tls_server.Telnet.Mssp.{MsspStatus, send_mssp_status}
use telnet_tls_server.Telnet.Output.{Capabilities, notify_application_capabilities}

-- The hooks of an application and the MSSP query of the host, each with what it does to the session
-- through `application_output`; `none` is NULL. The Boolean of `open_hook` tells whether it gave a
-- session, that of `line_hook` whether it returned 0.
pub record Application : Type 0 where
  pub open_hook : Option (Session → Session × Bool)
  pub line_hook : Option (Bytes → Session → Session × Bool)
  pub gmcp_hook : GmcpHook
  pub capabilities_hook : Option (Capabilities → Session → Session)
  pub mssp_query : Session → MsspStatus

abbrev pub session_outside : Application → Outside
session_outside app = record {
  open_hook = app.open_hook;
  line_hook = app.line_hook;
  replay_core = replay_pre_auth_gmcp_core app.gmcp_hook;
}

abbrev pub session_peripherals : Application → Peripherals
session_peripherals app = record {
  notify = notify_application_capabilities app.capabilities_hook;
  send_mssp_status = send_mssp_status app.mssp_query;
  handle_gmcp = handle_gmcp app.gmcp_hook;
}

abbrev pub session_handlers : Host → Application → Handlers
session_handlers host app = record {
  dialogue = account_dialogue host (session_outside app);
  telnet_option = receive_telnet_option (session_peripherals app);
  naws = handle_naws;
  terminal_type = handle_terminal_type;
  charset = handle_charset;
  new_environ = handle_new_environ (session_peripherals app);
  gmcp = handle_gmcp app.gmcp_hook;
}

-- What `telnet_session_create` is given.
pub record SessionConfig : Type 0 where
  pub store : PlayerStore
  pub security : SecurityPolicy
  pub remote_id : Bytes
  pub transport_secure : Bool
  pub has_mssp_query : Bool

abbrev unused_window : RateWindow
unused_window = record { started_ms = 0; used = 0 }

unfoldable pub new_session : SessionConfig → Session
new_session config = record {
  login = login_name;
  parser = parser_data;
  pending_telnet_command = 0;
  subnegotiation_option = 0;
  subnegotiation = [];
  started = false;
  close_requested = false;
  protocol_violations = 0;
  pending_cr = false;
  line = [];
  line_overflow = false;
  has_application = false;
  pending_password = [];
  terminal = new_terminal config.transport_secure;
  player_name = [];
  remote_id = config.remote_id;
  echo_desired = false;
  insecure_warning_shown = false;
  options = telnet_q_init;
  has_mssp_query = config.has_mssp_query;
  mssp_sent = false;
  terminal_type_requests_sent = 0;
  terminal_type_waiting = false;
  last_terminal_type = [];
  charset_request_sent = false;
  charset_utf8 = false;
  new_environ_requested = false;
  mnes_observed = false;
  pending_gmcp_core = [];
  command_window = unused_window;
  store = config.store;
  security = config.security;
  byte_window = unused_window;
  line_window = unused_window;
  written = [];
  audited = [];
}

-- `none` is NULL; the initialisation of libsodium and the allocation succeed.
unfoldable pub telnet_session_create : SessionConfig → Option Session
telnet_session_create config =
    if leb 96 (length config.remote_id) then none else some (new_session config)

abbrev welcome_text : Bytes
welcome_text =
    codes
      "\r\n========================================\r\n        Welcome, traveler.\r\n========================================\r\n\r\n"

unfoldable pub telnet_session_start : Session → Session
telnet_session_start s =
    if s.started
    then s
    else write_prompt_text (codes "Player name: ")
        (write_text welcome_text (negotiate_operational_options (record s { started = true })))

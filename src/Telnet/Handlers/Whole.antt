-- ===== src/Telnet/Handlers/Whole.antt =====
-- The whole session: its parser with the dialogue and the handlers of src/telnet_protocol.c.
use telnet_tls_server.Common.{ℕ, Bool, true, ◌≡◌, refl, ◌||◌, not, Option, none, some, Bytes}
use telnet_tls_server.Negotiation.{local}
use telnet_tls_server.Players.Disk.{Host}
use telnet_tls_server.Telnet.Opt
use telnet_tls_server.Telnet.Session.{Session, audit, login_in_game}
use telnet_tls_server.Telnet.Session.Keeps.{Keeps, Keeps-refl, Keeps-trans, branch}
use telnet_tls_server.Telnet.Framing.{parse_bytes, telnet_session_feed_at}
use telnet_tls_server.Telnet.Framing.Bounds.{DialogueFits}
use telnet_tls_server.Telnet.Framing.Feed.{
  Fits, HandlersFit, Keeps-Fits, telnet_session_feed_at-Fits,
}
use telnet_tls_server.Telnet.Login.{account_dialogue}
use telnet_tls_server.Telnet.Login.Admission.{Waits}
use telnet_tls_server.Telnet.Login.Entry.{HandlersWait, kept_waiting}
use telnet_tls_server.Telnet.Login.Gate.{Passed, parse_bytes-Passed}
use telnet_tls_server.Telnet.Login.Buffer.{OutsideKeeps, account_dialogue-Holds}
use telnet_tls_server.Telnet.Options.{on}
use telnet_tls_server.Telnet.Options.Keeps.{
  PeripheralsKeep, receive_telnet_option-Keeps, send_subnegotiation-Keeps,
}
use telnet_tls_server.Telnet.Payloads.Keeps.{
  handle_naws-Keeps, handle_terminal_type-Keeps, handle_charset-Keeps,
}
use telnet_tls_server.Telnet.Payloads.Environ.Keeps.{handle_new_environ-Keeps}
use telnet_tls_server.Telnet.Gmcp.Keeps.{HookKeeps, handle_gmcp-Keeps, replay-Keeps}
use telnet_tls_server.Telnet.Mssp.{
  MsspStatus, status_pairs, sent_status, encoded_status, send_mssp_status,
}
use telnet_tls_server.Telnet.Output.{
  Capabilities, copy_terminal_capabilities, notify_application_capabilities,
}
use telnet_tls_server.Telnet.Handlers.{
  Application, session_outside, session_peripherals, session_handlers,
}

-- The hooks of an application leave the subnegotiation alone, and those for GMCP and capabilities also
-- the line and the login state: `terminal_output` gives them no way to any of these.
pub record ApplicationKeeps (app : Application) : Type 0 where
  pub open_holds :
      (hook : Session → Session × Bool) (s : Session)
      → app.open_hook ≡ some hook
      → (hook s).0.subnegotiation ≡ s.subnegotiation
  pub line_holds :
      (hook : Bytes → Session → Session × Bool) (line : Bytes) (s : Session)
      → app.line_hook ≡ some hook
      → (hook line s).0.subnegotiation ≡ s.subnegotiation
  pub gmcp_keeps : HookKeeps app.gmcp_hook
  pub capabilities_keep :
      (hook : Capabilities → Session → Session) (now : Capabilities) (s : Session)
      → app.capabilities_hook ≡ some hook
      → Keeps s (hook now s)

sent_status-Keeps : (payload : Option Bytes) (s : Session) → Keeps s (sent_status payload s)
unfolding sent_status
sent_status-Keeps none s = Keeps-refl s
sent_status-Keeps (some payload) s =
    Keeps-trans (record { same_line = refl; same_login = refl; same_buffer = refl })
      (send_subnegotiation-Keeps Opt.mssp payload (record s { mssp_sent = true }))

encoded_status-Keeps :
    (status : MsspStatus) (pairs : Option Bytes) (s : Session)
    → Keeps s (encoded_status status pairs s)
unfolding encoded_status audit
encoded_status-Keeps status none s = record {
  same_line = refl;
  same_login = refl;
  same_buffer = refl;
}
encoded_status-Keeps status (some payload) s = sent_status-Keeps _ s

send_mssp_status-Keeps :
    (query : Session → MsspStatus) (s : Session) → Keeps s (send_mssp_status query s)
unfolding send_mssp_status
send_mssp_status-Keeps query s =
    branch (Keeps s) (s.mssp_sent || (not s.has_mssp_query || not (on local Opt.mssp s))) _ _
      (Keeps-refl s) (encoded_status-Keeps (query s) (status_pairs (query s)) s)

module _ (app : Application) (keep : ApplicationKeeps app) where
  notify-Keeps :
      (hook : Option (Capabilities → Session → Session)) (s : Session)
      → app.capabilities_hook ≡ hook
      → Keeps s (notify_application_capabilities hook s)
  unfolding notify_application_capabilities
  notify-Keeps none s e = Keeps-refl s
  notify-Keeps (some hook) s e =
      branch (Keeps s) s.has_application _ _
        (keep.capabilities_keep hook (copy_terminal_capabilities s.terminal) s e) (Keeps-refl s)

  peripherals-Keep : PeripheralsKeep (session_peripherals app)
  peripherals-Keep = record {
    notify_keeps = λ s. notify-Keeps app.capabilities_hook s refl;
    mssp_keeps = send_mssp_status-Keeps app.mssp_query;
    gmcp_keeps = handle_gmcp-Keeps app.gmcp_hook keep.gmcp_keeps;
  }

  outside-Keeps : OutsideKeeps (session_outside app)
  outside-Keeps = record {
    open_holds = keep.open_holds;
    line_holds = keep.line_holds;
    replay_holds =
        λ s. (replay-Keeps app.gmcp_hook keep.gmcp_keeps app.gmcp_hook s refl).same_buffer;
  }

  dialogue-Fits : (host : Host) → DialogueFits (account_dialogue host (session_outside app))
  dialogue-Fits host l now s fits = rw (account_dialogue-Holds _ outside-Keeps host l now s) fits

  session-HandlersFit : (host : Host) → HandlersFit (session_handlers host app)
  session-HandlersFit host = record {
    dialogue_fits = dialogue-Fits host;
    option_fits = λ command option s.
        Keeps-Fits (receive_telnet_option-Keeps _ command option s peripherals-Keep);
    naws_fits = λ s. Keeps-Fits (handle_naws-Keeps s);
    terminal_type_fits = λ s. Keeps-Fits (handle_terminal_type-Keeps s);
    charset_fits = λ s. Keeps-Fits (handle_charset-Keeps s);
    new_environ_fits = λ s. Keeps-Fits (handle_new_environ-Keeps _ peripherals-Keep s);
    gmcp_fits = λ s. Keeps-Fits (handle_gmcp-Keeps app.gmcp_hook keep.gmcp_keeps s);
  }

  session-HandlersWait : (host : Host) → HandlersWait (session_handlers host app)
  session-HandlersWait host = record {
    option_waits = λ command option s.
        kept_waiting (receive_telnet_option-Keeps _ command option s peripherals-Keep);
    naws_waits = λ s. kept_waiting (handle_naws-Keeps s);
    terminal_type_waits = λ s. kept_waiting (handle_terminal_type-Keeps s);
    charset_waits = λ s. kept_waiting (handle_charset-Keeps s);
    new_environ_waits = λ s. kept_waiting (handle_new_environ-Keeps _ peripherals-Keep s);
    gmcp_waits = λ s. kept_waiting (handle_gmcp-Keeps app.gmcp_hook keep.gmcp_keeps s);
  }

-- Whatever is fed to a session, the line stays within the limit of its login state and free of control
-- characters, and the subnegotiation within its buffer, if both fit before and the hooks of the
-- application are as `ApplicationKeeps` says.
pub session_fed-Fits :
    (host : Host) (app : Application) (bytes : Bytes) (now : ℕ) (s : Session)
    → ApplicationKeeps app
    → Fits s
    → Fits (telnet_session_feed_at (session_handlers host app) bytes now s).0
session_fed-Fits host app bytes now s keep fits =
    telnet_session_feed_at-Fits (session_handlers host app) bytes now s
      (session-HandlersFit app keep host) fits

-- If input brings a session into the game that was not in it, then a newline in the input found the
-- session with a line that admits it: the right password of a loaded account in an attempt that the
-- policy allows, or the confirmation of a new password with which an account that the policy allows
-- is created. The hooks of the application are as `ApplicationKeeps` says.
pub session_fed-Passed :
    (host : Host) (app : Application) (bytes : Bytes) (now : ℕ) (s : Session)
    → ApplicationKeeps app
    → Waits s
    → (parse_bytes (session_handlers host app) now bytes s).login ≡ login_in_game
    → Passed host (session_handlers host app) now bytes s
session_fed-Passed host app bytes now s keep w g =
    parse_bytes-Passed host (session_outside app) now (session_handlers host app) refl
      (session-HandlersWait app keep host) bytes s w g

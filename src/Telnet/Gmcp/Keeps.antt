-- ===== src/Telnet/Gmcp/Keeps.antt =====
-- What GMCP leaves alone: the line, the login state and the subnegotiation.
use telnet_tls_server.Common.{
  ◌≡◌, refl, Bool, not, ◌||◌, ◌&&◌, ltb, leb, ◌==◌, List, [], ◌∷◌, Option, none, some, Bytes, codes,
  c_string, length,
}
use telnet_tls_server.Text.Utf8.{terminal_text_utf8_valid}
use telnet_tls_server.Negotiation.{local}
use telnet_tls_server.Telnet.Opt
use telnet_tls_server.Telnet.Session.{Session, audit}
use telnet_tls_server.Telnet.Session.Keeps.{Keeps, Keeps-refl, Keeps-trans, branch}
use telnet_tls_server.Telnet.Options.{on}
use telnet_tls_server.Telnet.Options.Keeps.{send_subnegotiation-Keeps}
use telnet_tls_server.Telnet.Gmcp.{
  GmcpHook, gmcp_package_max_bytes, gmcp_json_max_bytes, pending_gmcp_core_max, gmcp_package_valid,
  body_text, send_gmcp_message, gmcp_package_equal, gmcp_core_handshake_package, queued, replayed,
  replay_pre_auth_gmcp_core, package_from, gmcp_body, delivered, received_message, split_message,
  handle_gmcp,
}

-- The hook does not change what the parser and the dialogue hold.
pub record HookKeeps (hook : GmcpHook) : Type 0 where
  pub call_keeps :
      (call : Bytes → Bytes → Session → Session) (package_name json : Bytes) (s : Session)
      → hook ≡ some call
      → Keeps s (call package_name json s)

audit-Keeps : (event : Bytes) (detail : Option Bytes) (s : Session) → Keeps s (audit event detail s)
unfolding audit
audit-Keeps event detail s = record { same_line = refl; same_login = refl; same_buffer = refl }

queued-Keeps : (package_name json : Bytes) (s : Session) → Keeps s (queued package_name json s)
unfolding queued
queued-Keeps package_name json s =
    branch (Keeps s) (not (gmcp_core_handshake_package package_name)) _ _ (Keeps-refl s) (
      branch (Keeps s) (leb pending_gmcp_core_max (length s.pending_gmcp_core)) _ _
        (audit-Keeps _ _ s) (record { same_line = refl; same_login = refl; same_buffer = refl }))

-- The first part of what `send_gmcp_message` returns.
pub send_gmcp_message-Keeps :
    (package_name : Bytes) (json : Option Bytes) (s : Session)
    → Keeps s (send_gmcp_message package_name json s).0
unfolding send_gmcp_message
send_gmcp_message-Keeps package_name json s =
    branch (λ (r : Session × Bool). Keeps s r.0)
      (not s.terminal.gmcp || not (gmcp_package_valid package_name)) _ _ (Keeps-refl s)
      (branch (λ (r : Session × Bool). Keeps s r.0)
        (not (length (body_text json) == 0)
          && (ltb gmcp_json_max_bytes (length (body_text json))
              || not (terminal_text_utf8_valid (body_text json))))
        _ _ (Keeps-refl s) (send_subnegotiation-Keeps Opt.gmcp _ s))

module _ (hook : GmcpHook) (keep : HookKeeps hook) where
  delivered-Keeps :
      (h : GmcpHook) (package_name json : Bytes) (s : Session)
      → hook ≡ h
      → Keeps s (delivered h package_name json s)
  unfolding delivered
  delivered-Keeps none package_name json s e = Keeps-refl s
  delivered-Keeps (some call) package_name json s e =
      branch (Keeps s) s.has_application _ _ (keep.call_keeps call package_name json s e)
        (queued-Keeps package_name json s)

  received_message-Keeps :
      (package_name : Bytes) (json : Option Bytes) (s : Session)
      → Keeps s (received_message hook package_name json s)
  unfolding received_message
  received_message-Keeps package_name none s = audit-Keeps _ _ s
  received_message-Keeps package_name (some json) s =
      Keeps-trans
        (branch (Keeps s) (gmcp_package_equal package_name (codes "Core.Ping")) _ _
          (send_gmcp_message-Keeps (codes "Core.Ping") none s) (Keeps-refl s))
        (delivered-Keeps hook package_name json _ refl)

  split_message-Keeps :
      (parts : Option (Bytes × Bytes)) (s : Session) → Keeps s (split_message hook parts s)
  unfolding split_message
  split_message-Keeps none s = audit-Keeps _ _ s
  split_message-Keeps (some (name, behind)) s =
      branch (Keeps s) (not (gmcp_package_valid (c_string name))) _ _ (audit-Keeps _ _ s)
        (received_message-Keeps (c_string name) (gmcp_body behind) s)

  pub handle_gmcp-Keeps : (s : Session) → Keeps s (handle_gmcp hook s)
  unfolding handle_gmcp
  handle_gmcp-Keeps s =
      branch (Keeps s) (not (on local Opt.gmcp s) || length s.subnegotiation == 0) _ _
        (Keeps-refl s)
        (split_message-Keeps (package_from gmcp_package_max_bytes s.subnegotiation) s)

  replayed-Keeps :
      (call : Bytes → Bytes → Session → Session) (messages : List (Bytes × Bytes)) (s : Session)
      → hook ≡ some call
      → Keeps s (replayed call messages s)
  unfolding replayed
  replayed-Keeps call [] s e = Keeps-refl s
  replayed-Keeps call ((package_name, json) ∷ messages) s e =
      Keeps-trans (keep.call_keeps call package_name json s e) (replayed-Keeps call messages _ e)

  pub replay-Keeps :
      (h : GmcpHook) (s : Session) → hook ≡ h → Keeps s (replay_pre_auth_gmcp_core h s)
  unfolding replay_pre_auth_gmcp_core
  replay-Keeps none s e = record { same_line = refl; same_login = refl; same_buffer = refl }
  replay-Keeps (some call) s e =
      branch (Keeps s) s.has_application _ _
        (Keeps-trans (replayed-Keeps call s.pending_gmcp_core s e)
          (record { same_line = refl; same_login = refl; same_buffer = refl }))
        (record { same_line = refl; same_login = refl; same_buffer = refl })

-- ===== src/Telnet/Gmcp.antt =====
-- GMCP in src/telnet_protocol.c: its messages, and the queue of those that come before the login.
pub mod Keeps
use telnet_tls_server.Common.{
  ℕ, zero, suc, ◌+◌, ltb, leb, ◌==◌, if◌then◌else◌, Bool, true, false, not, ◌&&◌, ◌||◌, List, [],
  ◌∷◌, ◌++◌, Option, none, some, Bytes, codes, c_string, length,
}
use telnet_tls_server.Negotiation.{local}
use telnet_tls_server.Players.Names.{ascii_equal_ignore_case, every, is_letter, is_digit}
use telnet_tls_server.Text.Utf8.{terminal_text_utf8_valid}
use telnet_tls_server.Telnet.Opt
use telnet_tls_server.Telnet.Session.{Session, audit, send_subnegotiation}
use telnet_tls_server.Telnet.Options.{on}

-- `application.gmcp`, with the package and the body; `none` is NULL.
abbrev pub GmcpHook : Type 0
GmcpHook = Option (Bytes → Bytes → Session → Session)

abbrev pub gmcp_package_max_bytes : ℕ
gmcp_package_max_bytes = 96

abbrev pub gmcp_json_max_bytes : ℕ
gmcp_json_max_bytes = 3968

abbrev pub pending_gmcp_core_max : ℕ
pending_gmcp_core_max = 4

abbrev package_byte : ℕ → Bool
package_byte ch = is_letter ch || (is_digit ch || (ch == b'.' || (ch == b'_' || ch == b'-')))

unfoldable pub gmcp_package_valid : Bytes → Bool
gmcp_package_valid name =
    not (length name == 0) && (leb (length name) gmcp_package_max_bytes && every package_byte name)

-- The text of `json_payload`; NULL and the empty text are sent alike.
abbrev body_text : Option Bytes → Bytes
body_text none = []
body_text (some json) = json

abbrev with_body : Bytes → Bytes
with_body [] = []
with_body (b ∷ bs) = 32 ∷ b ∷ bs

-- The Boolean is true where the result is 0. The payload always fits: 96 + 1 + 3968 bytes.
unfoldable pub send_gmcp_message : Bytes → Option Bytes → Session → Session × Bool
send_gmcp_message package_name json s =
    let body = body_text json in
    if not s.terminal.gmcp || not (gmcp_package_valid package_name)
    then (s, false)
    else if not (length body == 0)
        && (ltb gmcp_json_max_bytes (length body) || not (terminal_text_utf8_valid body))
    then (s, false)
    else (send_subnegotiation Opt.gmcp (package_name ++ with_body body) s, true)

abbrev pub gmcp_package_equal : Bytes → Bytes → Bool
gmcp_package_equal = ascii_equal_ignore_case

unfoldable pub gmcp_core_handshake_package : Bytes → Bool
gmcp_core_handshake_package package_name =
    gmcp_package_equal package_name (codes "Core.Hello")
    || (gmcp_package_equal package_name (codes "Core.Supports.Set")
        || (gmcp_package_equal package_name (codes "Core.Supports.Add")
            || gmcp_package_equal package_name (codes "Core.Supports.Remove")))

-- Behind the test for a hook.
unfoldable pub queued : Bytes → Bytes → Session → Session
queued package_name json s =
    if not (gmcp_core_handshake_package package_name)
    then s
    else if leb pending_gmcp_core_max (length s.pending_gmcp_core)
    then audit (codes "gmcp_core_queue_full") (some (codes "early Core handshake message dropped"))
        s
    else record s { pending_gmcp_core = s.pending_gmcp_core ++ (package_name, json) ∷ [] }

unfoldable pub queue_pre_auth_gmcp_core : GmcpHook → Bytes → Bytes → Session → Session
queue_pre_auth_gmcp_core none package_name json s = s
queue_pre_auth_gmcp_core (some hook) package_name json s = queued package_name json s

-- The loop; the hook has no way to the queue.
unfoldable pub replayed :
    (Bytes → Bytes → Session → Session) → List (Bytes × Bytes) → Session → Session
replayed hook [] s = s
replayed hook ((package_name, json) ∷ messages) s =
    replayed hook messages (hook package_name json s)

abbrev no_queue : Session → Session
no_queue s = record s { pending_gmcp_core = [] }

unfoldable pub replay_pre_auth_gmcp_core : GmcpHook → Session → Session
replay_pre_auth_gmcp_core none s = no_queue s
replay_pre_auth_gmcp_core (some hook) s =
    if s.has_application then no_queue (replayed hook s.pending_gmcp_core s) else no_queue s

-- The bytes before the first space, at most `room` of them, and the rest.
unfoldable pub package_from : ℕ → Bytes → Option (Bytes × Bytes)
package_from room [] = some ([], [])
package_from zero (b ∷ bs) = if b == 32 then some ([], b ∷ bs) else none
package_from (suc room) (b ∷ bs) =
    let rest = package_from room bs in
    if b == 32
    then some ([], b ∷ bs)
    else elim rest [ none ↦ none | some (name, behind) ↦ some (b ∷ name, behind) ]

-- The body behind the package, `none` where it is refused.
unfoldable pub gmcp_body : Bytes → Option Bytes
gmcp_body [] = some []
gmcp_body (b ∷ bs) =
    if ltb gmcp_json_max_bytes (length bs) || not (terminal_text_utf8_valid bs)
    then none
    else some bs

unfoldable pub delivered : GmcpHook → Bytes → Bytes → Session → Session
delivered none package_name json s = s
delivered (some hook) package_name json s =
    if s.has_application then hook package_name json s else queued package_name json s

unfoldable pub received_message : GmcpHook → Bytes → Option Bytes → Session → Session
received_message hook package_name none s =
    audit (codes "gmcp_invalid_message") (some (codes "invalid or oversized UTF-8 body")) s
received_message hook package_name (some json) s = delivered hook package_name json (
    if gmcp_package_equal package_name (codes "Core.Ping")
    then (send_gmcp_message (codes "Core.Ping") none s).0
    else s)

-- With the package that was split off, as a C string.
unfoldable pub split_message : GmcpHook → Option (Bytes × Bytes) → Session → Session
split_message hook none s =
    audit (codes "gmcp_invalid_message") (some (codes "package name too long")) s
split_message hook (some (name, behind)) s =
    if not (gmcp_package_valid (c_string name))
    then audit (codes "gmcp_invalid_message") (some (codes "invalid package name")) s
    else received_message hook (c_string name) (gmcp_body behind) s

unfoldable pub handle_gmcp : GmcpHook → Session → Session
handle_gmcp hook s =
    if not (on local Opt.gmcp s) || length s.subnegotiation == 0
    then s
    else split_message hook (package_from gmcp_package_max_bytes s.subnegotiation) s

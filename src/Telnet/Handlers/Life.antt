-- ===== src/Telnet/Handlers/Life.antt =====
-- A session from its creation on.
use telnet_tls_server.Common.{ℕ, ◌≡◌, refl, true, List, [], ◌∷◌, some, Bytes, arith}
use telnet_tls_server.Negotiation.{Direction, local, remote, telnet_q_request}
use telnet_tls_server.Players.Disk.{Host}
use telnet_tls_server.Telnet.Opt
use telnet_tls_server.Telnet.Session.{Session}
use telnet_tls_server.Telnet.Session.Keeps.{Keeps, Keeps-refl, Keeps-trans, branch}
use telnet_tls_server.Telnet.Framing.{telnet_session_feed_at}
use telnet_tls_server.Telnet.Framing.Feed.{Fits, Keeps-Fits}
use telnet_tls_server.Telnet.Login.Steps.{request_option-Keeps, say_and_ask}
use telnet_tls_server.Telnet.Options.{request_enabled, negotiate_operational_options}
use telnet_tls_server.Telnet.Handlers.{
  Application, session_handlers, SessionConfig, new_session, telnet_session_create,
  telnet_session_start,
}
use telnet_tls_server.Telnet.Handlers.Whole.{ApplicationKeeps, session_fed-Fits}

-- Packets with the times they come at.
unfoldable pub fed : Host → Application → List (Bytes × ℕ) → Session → Session
fed host app [] s = s
fed host app ((bytes, now) ∷ packets) s =
    fed host app packets (telnet_session_feed_at (session_handlers host app) bytes now s).0

request_enabled-Keeps :
    (d : Direction) (option : ℕ) (s : Session) → Keeps s (request_enabled d option s)
unfolding request_enabled
request_enabled-Keeps d option s = request_option-Keeps (telnet_q_request s.options d option true) s

another :
    {s t : Session} (d : Direction) (option : ℕ) → Keeps s t → Keeps s (request_enabled d option t)
another {s} {t} d option k = Keeps-trans k (request_enabled-Keeps d option t)

negotiate-Keeps : (s : Session) → Keeps s (negotiate_operational_options s)
unfolding negotiate_operational_options
negotiate-Keeps s =
    let first = another remote Opt.new_environ (
      another remote Opt.charset (
        another local Opt.charset (
          another remote Opt.terminal_type (
            another remote Opt.naws (
              another local Opt.end_of_record (
                another remote Opt.suppress_go_ahead (
                  another local Opt.suppress_go_ahead
                    (another remote Opt.binary (another local Opt.binary (Keeps-refl s)))))))))) in
    another local Opt.gmcp (branch (Keeps s) _ _ _ (another local Opt.mssp first) first)

start-Keeps : (s : Session) → Keeps s (telnet_session_start s)
unfolding telnet_session_start
start-Keeps s = branch (Keeps s) s.started _ _ (Keeps-refl s) (
    Keeps-trans (record { same_line = refl; same_login = refl; same_buffer = refl })
      (Keeps-trans (negotiate-Keeps (record s { started = true })) (say_and_ask _ _ _)))

new_session-Fits : (config : SessionConfig) → Fits (new_session config)
unfolding new_session
new_session-Fits config = record {
  line_fits = record { room = omega arith; clean = tt };
  buffer_fits = omega arith;
}

fed-Fits :
    (host : Host) (app : Application) (packets : List (Bytes × ℕ)) (s : Session)
    → ApplicationKeeps app
    → Fits s
    → Fits (fed host app packets s)
unfolding fed
fed-Fits host app [] s keep fits = fits
fed-Fits host app ((bytes, now) ∷ packets) s keep fits =
    fed-Fits host app packets _ keep (session_fed-Fits host app bytes now s keep fits)

created_from :
    (config : SessionConfig) (s : Session)
    → telnet_session_create config ≡ some s
    → new_session config ≡ s
unfolding telnet_session_create
created_from config s e = ground arith

-- From its creation on, through its start and whatever packets follow, the line of a session stays
-- within the limit of its login state and free of control characters, and the subnegotiation within
-- its buffer, if the hooks of the application are as `ApplicationKeeps` says.
pub session_life-Fits :
    (host : Host) (app : Application) (config : SessionConfig) (packets : List (Bytes × ℕ))
    (s : Session)
    → ApplicationKeeps app
    → telnet_session_create config ≡ some s
    → Fits (fed host app packets (telnet_session_start s))
session_life-Fits host app config packets s keep e =
    fed-Fits host app packets (telnet_session_start s) keep
      (Keeps-Fits (start-Keeps s) (rw⁻¹ (created_from config s e) (new_session-Fits config)))

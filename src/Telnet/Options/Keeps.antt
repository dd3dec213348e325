-- ===== src/Telnet/Options/Keeps.antt =====
-- What the option commands leave alone: the line, the login state and the subnegotiation.
use telnet_tls_server.Common.{
  ℕ, refl, Bool, not, ◌&&◌, ◌||◌, [], ◌∷◌, ◌==◌, if◌then◌else◌, Bytes, some, leb,
}
use telnet_tls_server.Negotiation.{local, remote, telnet_q_receive}
use telnet_tls_server.Telnet.Opt
use telnet_tls_server.Telnet.Session.{Session, iac, sb, se, payload_bytes, send_subnegotiation}
use telnet_tls_server.Telnet.Session.Keeps.{Keeps, Keeps-refl, Keeps-trans, branch, write_raw-Keeps}
use telnet_tls_server.Telnet.Login.Steps.{request_option-Keeps}
use telnet_tls_server.Telnet.Options.{
  Peripherals, on, q_accept_callback, refresh_utf8_metadata, request_terminal_type, request_charset,
  request_new_environ, option_metadata, update_option_metadata, terminal_type_off, charset_off,
  new_environ_off, mssp_off, no_charset, take_command, receive_telnet_option,
  terminal_type_request_limit,
}

-- `notify_application_capabilities`, `send_mssp_status` and `handle_gmcp` touch neither.
pub record PeripheralsKeep (outer : Peripherals) : Type 0 where
  pub notify_keeps : (s : Session) → Keeps s (outer.notify s)
  pub mssp_keeps : (s : Session) → Keeps s (outer.send_mssp_status s)
  pub gmcp_keeps : (s : Session) → Keeps s (outer.handle_gmcp s)

payload_bytes-Keeps : (payload : Bytes) (s : Session) → Keeps s (payload_bytes payload s)
unfolding payload_bytes
payload_bytes-Keeps [] s = Keeps-refl s
payload_bytes-Keeps (b ∷ bs) s =
    Keeps-trans (write_raw-Keeps (if b == iac then iac ∷ iac ∷ [] else b ∷ []) s)
      (payload_bytes-Keeps bs _)

pub send_subnegotiation-Keeps :
    (option : ℕ) (payload : Bytes) (s : Session) → Keeps s (send_subnegotiation option payload s)
unfolding send_subnegotiation
send_subnegotiation-Keeps option payload s =
    Keeps-trans (write_raw-Keeps (iac ∷ sb ∷ option ∷ []) s)
      (Keeps-trans (payload_bytes-Keeps payload _) (write_raw-Keeps (iac ∷ se ∷ []) _))

pub refresh-Keeps : (s : Session) → Keeps s (refresh_utf8_metadata s)
unfolding refresh_utf8_metadata
refresh-Keeps s = record { same_line = refl; same_login = refl; same_buffer = refl }

-- A request that is noted and then sent.
noted_and_sent :
    (option : ℕ) (payload : Bytes) (s noted : Session)
    → Keeps s noted
    → Keeps s (send_subnegotiation option payload noted)
noted_and_sent option payload s noted k =
    Keeps-trans k (send_subnegotiation-Keeps option payload noted)

pub request_terminal_type-Keeps : (s : Session) → Keeps s (request_terminal_type s)
unfolding request_terminal_type
request_terminal_type-Keeps s =
    branch (Keeps s)
      (s.terminal_type_waiting
        || (leb terminal_type_request_limit s.terminal_type_requests_sent
            || not (on remote Opt.terminal_type s)))
      _ _ (Keeps-refl s)
      (noted_and_sent _ _ s _ (record { same_line = refl; same_login = refl; same_buffer = refl }))

request_charset-Keeps : (s : Session) → Keeps s (request_charset s)
unfolding request_charset
request_charset-Keeps s =
    branch (Keeps s)
      (s.charset_request_sent
        || (not s.terminal.local_binary
            || (not s.terminal.remote_binary || not (on local Opt.charset s))))
      _ _ (Keeps-refl s)
      (noted_and_sent _ _ s _ (record { same_line = refl; same_login = refl; same_buffer = refl }))

request_new_environ-Keeps : (s : Session) → Keeps s (request_new_environ s)
unfolding request_new_environ
request_new_environ-Keeps s =
    branch (Keeps s) (s.new_environ_requested || not (on remote Opt.new_environ s)) _ _
      (Keeps-refl s)
      (noted_and_sent _ _ s _ (record { same_line = refl; same_login = refl; same_buffer = refl }))

option_metadata-Keeps : (s : Session) → Keeps s (option_metadata s)
unfolding option_metadata
option_metadata-Keeps s = record { same_line = refl; same_login = refl; same_buffer = refl }

pub update_option_metadata-Keeps :
    (outer : Peripherals) (s : Session)
    → PeripheralsKeep outer
    → Keeps s (update_option_metadata outer s)
unfolding update_option_metadata
update_option_metadata-Keeps outer s keep = Keeps-trans (option_metadata-Keeps s) (
    Keeps-trans (refresh-Keeps _) (
      Keeps-trans (request_terminal_type-Keeps _) (
        Keeps-trans (request_charset-Keeps _)
          (Keeps-trans (request_new_environ-Keeps _) (keep.notify_keeps _)))))

terminal_type_off-Keeps : (was : Bool) (s : Session) → Keeps s (terminal_type_off was s)
unfolding terminal_type_off
terminal_type_off-Keeps was s =
    branch (Keeps s) (was && not (on remote Opt.terminal_type s)) _ _
      (record { same_line = refl; same_login = refl; same_buffer = refl }) (Keeps-refl s)

charset_off-Keeps : (was : Bool) (s : Session) → Keeps s (charset_off was s)
unfolding charset_off
charset_off-Keeps was s =
    branch (Keeps s) (was && not (on local Opt.charset s)) _ _
      (record { same_line = refl; same_login = refl; same_buffer = refl }) (Keeps-refl s)

new_environ_off-Keeps : (was : Bool) (s : Session) → Keeps s (new_environ_off was s)
unfolding new_environ_off
new_environ_off-Keeps was s =
    branch (Keeps s) (was && not (on remote Opt.new_environ s)) _ _
      (record { same_line = refl; same_login = refl; same_buffer = refl }) (Keeps-refl s)

mssp_off-Keeps : (was : Bool) (s : Session) → Keeps s (mssp_off was s)
unfolding mssp_off
mssp_off-Keeps was s =
    branch (Keeps s) (was && not (on local Opt.mssp s)) _ _
      (record { same_line = refl; same_login = refl; same_buffer = refl }) (Keeps-refl s)

no_charset-Keeps : (s : Session) → Keeps s (no_charset s)
unfolding no_charset
no_charset-Keeps s =
    branch (Keeps s) (not (on local Opt.charset s) && not (on remote Opt.charset s)) _ _
      (record { same_line = refl; same_login = refl; same_buffer = refl }) (Keeps-refl s)

take_command-Keeps : (command option : ℕ) (s : Session) → Keeps s (take_command command option s)
unfolding take_command
take_command-Keeps command option s =
    request_option-Keeps (telnet_q_receive s.options command option (some (q_accept_callback s))) s

pub receive_telnet_option-Keeps :
    (outer : Peripherals) (command option : ℕ) (s : Session)
    → PeripheralsKeep outer
    → Keeps s (receive_telnet_option outer command option s)
unfolding receive_telnet_option
receive_telnet_option-Keeps outer command option s keep =
    let updated = Keeps-trans (take_command-Keeps command option s) (
      Keeps-trans (terminal_type_off-Keeps _ _) (
        Keeps-trans (charset_off-Keeps _ _) (
          Keeps-trans (new_environ_off-Keeps _ _) (
            Keeps-trans (mssp_off-Keeps _ _)
              (Keeps-trans (no_charset-Keeps _) (update_option_metadata-Keeps outer _ keep)))))) in
    branch (Keeps s) _ _ _ (Keeps-trans updated (keep.mssp_keeps _)) updated

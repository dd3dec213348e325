-- ===== src/Telnet/Payloads/Environ/Keeps.antt =====
-- What a NEW-ENVIRON report leaves alone: the line, the login state and the payload.
use telnet_tls_server.Common.{
  ℕ, zero, suc, refl, Bool, true, false, not, [], ◌∷◌, ◌==◌, ◌||◌, Bytes, Option, none, some, codes,
  length,
}
use telnet_tls_server.Negotiation.{remote}
use telnet_tls_server.Telnet.Opt
use telnet_tls_server.Telnet.Session.{Session}
use telnet_tls_server.Telnet.Session.Keeps.{Keeps, Keeps-refl, Keeps-trans, branch}
use telnet_tls_server.Telnet.Options.{Peripherals, on}
use telnet_tls_server.Telnet.Options.Keeps.{
  PeripheralsKeep, refresh-Keeps, update_option_metadata-Keeps,
}
use telnet_tls_server.Telnet.Payloads.{bytes_equal_ignore_case, parse_decimal_u32}
use telnet_tls_server.Telnet.Payloads.Keeps.{infer-Keeps, report-Keeps}
use telnet_tls_server.Telnet.Payloads.Environ.{
  copied_terminal_type, set_terminal_type, set_client_name, set_client_version, set_flags,
  user_value, observed, env_value_enabled, apply_new_environ_value, is_token, Variable,
  read_variable, applied, environ_loop, environ_payload, handle_new_environ,
}

observed-Keeps : (token : ℕ) (s : Session) → Keeps s (observed token s)
unfolding observed
observed-Keeps token s =
    branch (Keeps s) (token == 0) _ _
      (record { same_line = refl; same_login = refl; same_buffer = refl }) (Keeps-refl s)

copied_terminal_type-Keeps :
    (copy : Bytes × Bool) (s : Session) → Keeps s (copied_terminal_type copy s)
unfolding copied_terminal_type
copied_terminal_type-Keeps (text, false) s = record {
  same_line = refl;
  same_login = refl;
  same_buffer = refl;
}
copied_terminal_type-Keeps (text, true) s =
    Keeps-trans (record { same_line = refl; same_login = refl; same_buffer = refl })
      (infer-Keeps _ _)

set_flags-Keeps : (flags : Option ℕ) (s : Session) → Keeps s (set_flags flags s)
unfolding set_flags
set_flags-Keeps none s = Keeps-refl s
set_flags-Keeps (some flags) s = report-Keeps flags s

user_value-Keeps :
    (name : Bytes) (enabled : Bool) (s : Session) → Keeps s (user_value name enabled s)
unfolding user_value
user_value-Keeps name enabled s =
    branch (Keeps s) (bytes_equal_ignore_case name (codes "SCREEN_READER")) _ _
      (record { same_line = refl; same_login = refl; same_buffer = refl })
      (branch (Keeps s) (bytes_equal_ignore_case name (codes "OSC_HYPERLINKS")) _ _
        (record { same_line = refl; same_login = refl; same_buffer = refl })
        (branch (Keeps s) (bytes_equal_ignore_case name (codes "OSC_HYPERLINKS_SEND")) _ _
          (record { same_line = refl; same_login = refl; same_buffer = refl })
          (branch (Keeps s) (bytes_equal_ignore_case name (codes "OSC_HYPERLINKS_PROMPT")) _ _
            (record { same_line = refl; same_login = refl; same_buffer = refl })
            (branch (Keeps s) (bytes_equal_ignore_case name (codes "OSC_HYPERLINKS_TOOLTIP")) _ _
              (record { same_line = refl; same_login = refl; same_buffer = refl })
              (Keeps-refl s)))))

apply-Keeps :
    (token : ℕ) (name value : Bytes) (s : Session)
    → Keeps s (apply_new_environ_value token name value s)
unfolding apply_new_environ_value set_client_name set_client_version set_terminal_type
apply-Keeps token name value s =
    let seen = observed-Keeps token s in
    branch (Keeps s) (bytes_equal_ignore_case name (codes "CLIENT_NAME")) _ _
      (Keeps-trans seen (record { same_line = refl; same_login = refl; same_buffer = refl }))
      (branch (Keeps s) (bytes_equal_ignore_case name (codes "CLIENT_VERSION")) _ _
        (Keeps-trans seen (record { same_line = refl; same_login = refl; same_buffer = refl }))
        (branch (Keeps s) (bytes_equal_ignore_case name (codes "TERMINAL_TYPE")) _ _
          (Keeps-trans seen (copied_terminal_type-Keeps _ _))
          (branch (Keeps s) (bytes_equal_ignore_case name (codes "CHARSET")) _ _
            (branch (Keeps s) (bytes_equal_ignore_case value (codes "UTF-8")) _ _
              (Keeps-trans seen (
                Keeps-trans (record { same_line = refl; same_login = refl; same_buffer = refl })
                  (refresh-Keeps _)))
              seen)
            (branch (Keeps s) (bytes_equal_ignore_case name (codes "MTTS")) _ _
              (Keeps-trans seen (set_flags-Keeps (parse_decimal_u32 value) _))
              (branch (Keeps s) (not (token == 3)) _ _ (Keeps-refl s)
                (user_value-Keeps name (env_value_enabled value) s))))))

applied-Keeps :
    (token : ℕ) (name value : Bytes) (s : Session) → Keeps s (applied token name value s)
unfolding applied
applied-Keeps token name value s =
    branch (Keeps s) (length name == 0) _ _ (Keeps-refl s) (apply-Keeps token name value s)

module _ (outer : Peripherals) (keep : PeripheralsKeep outer) where
  round-Keeps :
      (rounds token : ℕ) (b : Bool) (v : Option Variable) (s : Session)
      → ((payload : Bytes) (t : Session) → Keeps t (environ_loop outer rounds payload t))
      → Keeps s (elim b [
        | false ↦ s
        | true ↦ elim v [
          | none ↦ s
          | some (name, value, rest') ↦ environ_loop outer rounds rest' (applied token name value s)
        ]
      ])
  round-Keeps rounds token false v s later = Keeps-refl s
  round-Keeps rounds token true none s later = Keeps-refl s
  round-Keeps rounds token true (some (name, value, rest')) s later =
      Keeps-trans (applied-Keeps token name value s) (later rest' _)

  environ_loop-Keeps :
      (rounds : ℕ) (payload : Bytes) (s : Session) → Keeps s (environ_loop outer rounds payload s)
  unfolding environ_loop
  environ_loop-Keeps rounds [] s = update_option_metadata-Keeps outer s keep
  environ_loop-Keeps zero (token ∷ rest) s = Keeps-refl s
  environ_loop-Keeps (suc rounds) (token ∷ rest) s =
      round-Keeps rounds token (is_token token) (read_variable rest) s
        (λ payload t. environ_loop-Keeps rounds payload t)

  environ_payload-Keeps :
      (payload : Bytes) (s : Session) → Keeps s (environ_payload outer payload s)
  unfolding environ_payload
  environ_payload-Keeps [] s = Keeps-refl s
  environ_payload-Keeps (command ∷ rest) s =
      branch (Keeps s) (command == 0 || command == 2) _ _ (environ_loop-Keeps (length rest) rest s)
        (Keeps-refl s)

  pub handle_new_environ-Keeps : (s : Session) → Keeps s (handle_new_environ outer s)
  unfolding handle_new_environ
  handle_new_environ-Keeps s =
      branch (Keeps s) (on remote Opt.new_environ s) _ _ (environ_payload-Keeps s.subnegotiation s)
        (Keeps-refl s)

-- ===== src/Telnet/Options.antt =====
-- The option commands of src/telnet_protocol.c: which options are accepted, what the session keeps
-- of them, and the probes that follow from them.
pub mod Keeps
use telnet_tls_server.Common.{
  ℕ, ◌+◌, ◌/◌, ◌%◌, leb, ◌==◌, if◌then◌else◌, Bool, true, false, not, ◌&&◌, ◌||◌, List, [], ◌∷◌,
  ◌++◌, some, Bytes, codes,
}
use telnet_tls_server.Negotiation.{
  Direction, local, remote, telnet_q_enabled, telnet_q_request, telnet_q_receive,
}
use telnet_tls_server.Telnet.Opt
use telnet_tls_server.Telnet.Terminal.{unknown_terminal, store_text}
use telnet_tls_server.Telnet.Session.{Session, send_subnegotiation}
use telnet_tls_server.Telnet.Login.{request_option}

-- The functions of other parts that the options call: `notify_application_capabilities`,
-- `send_mssp_status` and `handle_gmcp`.
pub record Peripherals : Type 0 where
  pub notify : Session → Session
  pub send_mssp_status : Session → Session
  pub handle_gmcp : Session → Session

-- One bit of the MTTS flags, by its value.
abbrev pub has_flag : ℕ → ℕ → Bool
has_flag flags bit = not (flags / bit % 2 == 0)

unfoldable pub q_accept_callback : Session → Direction → ℕ → Bool
q_accept_callback s local option =
    if option == Opt.binary
      || (option == Opt.suppress_go_ahead
          || (option == Opt.end_of_record || (option == Opt.charset || option == Opt.gmcp)))
    then true
    else if option == Opt.mssp
    then s.has_mssp_query
    else if option == Opt.echo
    then s.echo_desired
    else false
q_accept_callback s remote option =
    option == Opt.binary
    || (option == Opt.suppress_go_ahead
        || (option == Opt.terminal_type
            || (option == Opt.naws || (option == Opt.new_environ || option == Opt.charset))))

unfoldable pub on : Direction → ℕ → Session → Bool
on d option s = telnet_q_enabled s.options d option

unfoldable pub refresh_utf8_metadata : Session → Session
refresh_utf8_metadata s = record s {
  terminal = record (s.terminal) {
    utf8_enabled = s.charset_utf8 || has_flag s.terminal.mtts_flags 4;
  };
}

unfoldable pub apply_mtts_flags : ℕ → Session → Session
apply_mtts_flags flags s = record s {
  terminal = record (s.terminal) {
    mtts_flags = flags;
    ansi = has_flag flags 1;
    vt100 = has_flag flags 2;
    color_256 = has_flag flags 8;
    truecolor = has_flag flags 256;
    screen_reader = has_flag flags 64;
    mnes = has_flag flags 512;
  };
}

abbrev pub terminal_type_request_limit : ℕ
terminal_type_request_limit = 4

unfoldable pub request_terminal_type : Session → Session
request_terminal_type s =
    if s.terminal_type_waiting
      || (leb terminal_type_request_limit s.terminal_type_requests_sent
          || not (on remote Opt.terminal_type s))
    then s
    else send_subnegotiation Opt.terminal_type (1 ∷ []) (record s {
      terminal_type_requests_sent = s.terminal_type_requests_sent + 1;
      terminal_type_waiting = true;
    })

unfoldable pub request_charset : Session → Session
request_charset s =
    if s.charset_request_sent
      || (not s.terminal.local_binary
          || (not s.terminal.remote_binary || not (on local Opt.charset s)))
    then s
    else send_subnegotiation Opt.charset (1 ∷ codes ";UTF-8")
        (record s { charset_request_sent = true })

-- Names asked for, each behind its token.
asked_as : ℕ → List Bytes → Bytes
asked_as token [] = []
asked_as token (name ∷ names) = (token ∷ name) ++ asked_as token names

abbrev mnes_names : List Bytes
mnes_names =
    codes "CLIENT_NAME"
    ∷ codes "CLIENT_VERSION"
    ∷ codes "CHARSET"
    ∷ codes "MTTS"
    ∷ codes "TERMINAL_TYPE"
    ∷ []

abbrev user_names : List Bytes
user_names =
    codes "SCREEN_READER"
    ∷ codes "OSC_HYPERLINKS"
    ∷ codes "OSC_HYPERLINKS_SEND"
    ∷ codes "OSC_HYPERLINKS_PROMPT"
    ∷ codes "OSC_HYPERLINKS_TOOLTIP"
    ∷ []

environ_request : Bytes
unfolding asked_as
environ_request = 1 ∷ (asked_as 0 mnes_names ++ (asked_as 3 mnes_names ++ asked_as 3 user_names))

unfoldable pub request_new_environ : Session → Session
unfolding environ_request
request_new_environ s =
    if s.new_environ_requested || not (on remote Opt.new_environ s)
    then s
    else send_subnegotiation Opt.new_environ environ_request
        (record s { new_environ_requested = true })

-- The fields that `update_option_metadata` reads off the options.
unfoldable pub option_metadata : Session → Session
option_metadata s = record s {
  terminal = record (s.terminal) {
    local_binary = on local Opt.binary s;
    remote_binary = on remote Opt.binary s;
    local_suppress_go_ahead = on local Opt.suppress_go_ahead s;
    remote_suppress_go_ahead = on remote Opt.suppress_go_ahead s;
    local_eor = on local Opt.end_of_record s;
    new_environ = on remote Opt.new_environ s;
    mssp = on local Opt.mssp s;
    gmcp = on local Opt.gmcp s;
    mnes = has_flag s.terminal.mtts_flags 512 || s.mnes_observed;
  };
}

unfoldable pub update_option_metadata : Peripherals → Session → Session
update_option_metadata host s = host.notify (
    request_new_environ
      (request_charset (request_terminal_type (refresh_utf8_metadata (option_metadata s)))))

-- What `receive_telnet_option` forgets when an option that was on is off.
unfoldable pub terminal_type_off : Bool → Session → Session
terminal_type_off was s =
    if was && not (on remote Opt.terminal_type s)
    then record s {
      terminal_type_requests_sent = 0;
      terminal_type_waiting = false;
      last_terminal_type = [];
      terminal = record (s.terminal) {
        terminal_type = store_text unknown_terminal s.terminal.terminal_type;
      };
    }
    else s

unfoldable pub charset_off : Bool → Session → Session
charset_off was s =
    if was && not (on local Opt.charset s) then record s { charset_request_sent = false } else s

unfoldable pub new_environ_off : Bool → Session → Session
new_environ_off was s =
    if was && not (on remote Opt.new_environ s)
    then record s {
      new_environ_requested = false;
      mnes_observed = false;
      terminal = record (s.terminal) {
        osc8 = false;
        osc8_send = false;
        osc8_prompt = false;
        osc8_tooltip = false;
      };
    }
    else s

unfoldable pub mssp_off : Bool → Session → Session
mssp_off was s = if was && not (on local Opt.mssp s) then record s { mssp_sent = false } else s

unfoldable pub no_charset : Session → Session
no_charset s =
    if not (on local Opt.charset s) && not (on remote Opt.charset s)
    then record s { charset_utf8 = false }
    else s

-- `telnet_q_receive` with its two callbacks.
unfoldable pub take_command : ℕ → ℕ → Session → Session
take_command command option s =
    request_option (telnet_q_receive s.options command option (some (q_accept_callback s))) s

unfoldable pub receive_telnet_option : Peripherals → ℕ → ℕ → Session → Session
receive_telnet_option host command option s =
    let was_mssp = on local Opt.mssp s in
    let taken = take_command command option s in
    let forgot = no_charset (
      mssp_off was_mssp (
        new_environ_off (on remote Opt.new_environ s) (
          charset_off (on local Opt.charset s)
            (terminal_type_off (on remote Opt.terminal_type s) taken)))) in
    let updated = update_option_metadata host forgot in
    if not was_mssp && updated.terminal.mssp then host.send_mssp_status updated else updated

-- One `telnet_q_request` to enable an option, with its callback.
unfoldable pub request_enabled : Direction → ℕ → Session → Session
request_enabled d option s = request_option (telnet_q_request s.options d option true) s

unfoldable pub negotiate_operational_options : Session → Session
negotiate_operational_options s =
    let start = request_enabled remote Opt.new_environ (
      request_enabled remote Opt.charset (
        request_enabled local Opt.charset (
          request_enabled remote Opt.terminal_type (
            request_enabled remote Opt.naws (
              request_enabled local Opt.end_of_record (
                request_enabled remote Opt.suppress_go_ahead (
                  request_enabled local Opt.suppress_go_ahead (
                    request_enabled remote Opt.binary
                      (request_enabled local Opt.binary s))))))))) in
    request_enabled local Opt.gmcp
      (if start.has_mssp_query then request_enabled local Opt.mssp start else start)

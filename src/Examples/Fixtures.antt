-- ===== src/Examples/Fixtures.antt =====
-- A host, a store and a session to try the model on.
use telnet_tls_server.Common.{
  ◌<◌, ◌≡◌, ltb, if◌then◌else◌, true, false, ◌&&◌, [], Option, none, some, Bytes, codes, length,
  same, same_refl, arith,
}
use telnet_tls_server.Negotiation.{telnet_q_init}
use telnet_tls_server.Security.Policy.{security_policy_create}
use telnet_tls_server.Players.Names.{every}
use telnet_tls_server.Players.Names.Rules.{every-All}
use telnet_tls_server.Players.Record.Roundtrip.{line_byte}
use telnet_tls_server.Players.Disk.{Host, PlayerStore, missing}
use telnet_tls_server.Players.Store.Verify.{SodiumLaws}
use telnet_tls_server.Telnet.Rate.{RateWindow}
use telnet_tls_server.Telnet.Terminal.{new_terminal}
use telnet_tls_server.Telnet.Session.{login_name, parser_data, Session}

-- In place of a hash: the password itself, if it is a line that fits.
unfoldable pub toy_hash : Bytes → Option Bytes
toy_hash password =
    if every line_byte password && ltb (length password) 128 then some password else none

abbrev pub toy_host : Host
toy_host = record {
  strbytes = 128;
  path_max = 4096;
  crypto_pwhash_str = λ call password. toy_hash password;
  crypto_pwhash_str_verify = same;
  needs_rehash = λ hash. false;
  answers = λ call. record {
    temporary = some (codes "a1b2c3");
    spoiled = none;
    published = true;
    synced = true;
    removed = true;
    cleaned = true;
  };
}

toy_hash-eq : (password hash : Bytes) → toy_hash password ≡ some hash → hash ≡ password
unfolding toy_hash
toy_hash-eq password hash e = ground arith

toy_hash-fits :
    (password hash : Bytes) → toy_hash password ≡ some hash → every line_byte password ≡ true
unfolding toy_hash
toy_hash-fits password hash e = ground arith

toy_hash-short : (password hash : Bytes) → toy_hash password ≡ some hash → length password < 128
unfolding toy_hash
toy_hash-short password hash e = ground arith

pub toy_host-SodiumLaws : SodiumLaws toy_host
toy_host-SodiumLaws = record {
  verifies = λ call password hash e. rw (toy_hash-eq password hash e) (same_refl password);
  well_formed = λ call password hash e. rw (toy_hash-eq password hash e) (record {
    fits = toy_hash-short password hash e;
    one_line = every-All line_byte password (toy_hash-fits password hash e);
  });
}

abbrev pub empty_store : PlayerStore
empty_store = record { directory = codes "players"; files = λ path. missing; asked = 0 }

abbrev pub unused : RateWindow
unused = record { started_ms = 0; used = 0 }

abbrev pub fresh : Session
fresh = record {
  login = login_name;
  parser = parser_data;
  pending_telnet_command = 0;
  subnegotiation_option = 0;
  subnegotiation = [];
  started = false;
  close_requested = false;
  protocol_violations = 0;
  pending_cr = false;
  line = codes "Bo";
  line_overflow = false;
  has_application = false;
  pending_password = [];
  terminal = new_terminal false;
  player_name = [];
  remote_id = codes "10.0.0.7";
  echo_desired = false;
  insecure_warning_shown = false;
  options = telnet_q_init;
  has_mssp_query = false;
  mssp_sent = false;
  terminal_type_requests_sent = 0;
  terminal_type_waiting = false;
  last_terminal_type = [];
  charset_request_sent = false;
  charset_utf8 = false;
  new_environ_requested = false;
  pending_gmcp_core = [];
  mnes_observed = false;
  command_window = unused;
  store = empty_store;
  security = security_policy_create;
  byte_window = unused;
  line_window = unused;
  written = [];
  audited = [];
}

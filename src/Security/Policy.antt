-- ===== src/Security/Policy.antt =====
-- The operations of src/security_policy.c on the shared state. Each runs under the mutex, so it is
-- one step on a `SecurityPolicy`. A `const char *` argument may be NULL, `none`; the policy pointer
-- is not. What an operation stores in `*retry_after_ms` is part of its result.
pub mod Backoff
pub mod Account
pub mod Lockout
pub mod Limits
pub mod Peers
pub mod Bounds
use telnet_tls_server.Common.{
  ℕ, ◌+◌, ◌-◌, ◌*◌, ◌^◌, ◌%◌, ltb, leb, ◌==◌, if◌then◌else◌, Bool, true, false, not, ◌&&◌, List, [],
  Option, none, some, Bytes, arith,
}
use telnet_tls_server.Security.Keys.{copy_key, normalize_account}
use telnet_tls_server.Security.Window.{Verdict, window_allow}
use telnet_tls_server.Security.Table.{Slot, record_for, read, write, empty_table}

abbrev pub max_peer_records : ℕ
max_peer_records = 128

abbrev pub max_account_records : ℕ
max_account_records = 256

abbrev pub peer_key_bytes : ℕ
peer_key_bytes = 96

abbrev pub account_key_bytes : ℕ
account_key_bytes = 32

abbrev pub peer_connection_limit : ℕ
peer_connection_limit = 5

abbrev pub peer_connection_window_ms : ℕ
peer_connection_window_ms = 10000

abbrev pub global_connection_limit : ℕ
global_connection_limit = 30

abbrev pub global_connection_window_ms : ℕ
global_connection_window_ms = 10000

abbrev pub account_auth_failure_limit : ℕ
account_auth_failure_limit = 3

abbrev pub account_auth_lock_ms : ℕ
account_auth_lock_ms = 300000

abbrev pub peer_creation_limit : ℕ
peer_creation_limit = 10

abbrev pub peer_creation_window_ms : ℕ
peer_creation_window_ms = 600000

abbrev pub global_creation_limit : ℕ
global_creation_limit = 50

abbrev pub global_creation_window_ms : ℕ
global_creation_window_ms = 600000

-- The two fields that `peer_record` and `account_record` share.
pub record AuthState : Type 0 where
  pub auth_failures : ℕ
  pub auth_blocked_until_ms : ℕ

pub record PeerBody : Type 0 where
  pub connections : List ℕ
  pub creations : List ℕ
  pub auth : AuthState

pub record SecurityPolicy : Type 0 where
  pub peers : List (Slot PeerBody)
  pub accounts : List (Slot AuthState)
  pub global_connections : List ℕ
  pub global_creations : List ℕ

abbrev pub blank_auth : AuthState
blank_auth = record { auth_failures = 0; auth_blocked_until_ms = 0 }

abbrev pub blank_peer : PeerBody
blank_peer = record { connections = []; creations = []; auth = blank_auth }

unfoldable pub peer_record_for : List (Slot PeerBody) → Bytes → ℕ → ℕ × List (Slot PeerBody)
peer_record_for peers peer now =
    record_for blank_peer max_peer_records peer_key_bytes (copy_key peer_key_bytes (some peer)) now
      peers

unfoldable pub account_record_for : List (Slot AuthState) → Bytes → ℕ → ℕ × List (Slot AuthState)
account_record_for accounts player_name now =
    record_for blank_auth max_account_records account_key_bytes
      (normalize_account account_key_bytes (some player_name)) now accounts

-- `1000ULL << shift`, capped.
unfoldable pub peer_backoff_ms : ℕ → ℕ
peer_backoff_ms failures =
    if ltb failures 3
    then 0
    else let shift = if ltb 6 (failures - 3) then 6 else failures - 3 in
      let delay = 1000 * 2 ^ shift in if ltb 60000 delay then 60000 else delay

unfoldable pub account_backoff_ms : ℕ → ℕ
account_backoff_ms failures =
    if leb account_auth_failure_limit failures then account_auth_lock_ms else 0

unfoldable pub security_policy_create : SecurityPolicy
unfolding empty_table
security_policy_create = record {
  peers = empty_table blank_peer max_peer_records;
  accounts = empty_table blank_auth max_account_records;
  global_connections = [];
  global_creations = [];
}

-- What an operation returns: the result, `*retry_after_ms` and the state.
pub record Outcome : Type 0 where
  pub allowed : Bool
  pub retry_after_ms : ℕ
  pub policy : SecurityPolicy

abbrev larger : ℕ → ℕ → ℕ
larger a b = if ltb b a then a else b

-- The global window is asked, and consumed, only behind an accepting peer window.
global_verdict : Bool → List ℕ → ℕ → ℕ → ℕ → Verdict
global_verdict true window limit window_ms now = window_allow window limit window_ms now
global_verdict false window limit window_ms now = record {
  window = window;
  retry_after_ms = 0;
  accepted = false;
}

pub allow_connection : SecurityPolicy → Bytes → ℕ → Outcome
unfolding peer_record_for global_verdict
allow_connection p peer now =
    let found = peer_record_for p.peers peer now in
    let body = read blank_peer found in
    let mine = window_allow body.connections peer_connection_limit peer_connection_window_ms now in
    let all =
      global_verdict mine.accepted p.global_connections global_connection_limit
        global_connection_window_ms now in
    record {
      allowed = mine.accepted && all.accepted;
      retry_after_ms = larger mine.retry_after_ms all.retry_after_ms;
      policy = record p {
        peers = write found (record body { connections = mine.window });
        global_connections = all.window;
      };
    }

pub allow_account_creation : SecurityPolicy → Bytes → ℕ → Outcome
unfolding peer_record_for global_verdict
allow_account_creation p peer now =
    let found = peer_record_for p.peers peer now in
    let body = read blank_peer found in
    let mine = window_allow body.creations peer_creation_limit peer_creation_window_ms now in
    let all =
      global_verdict mine.accepted p.global_creations global_creation_limit
        global_creation_window_ms now in
    record {
      allowed = mine.accepted && all.accepted;
      retry_after_ms = larger mine.retry_after_ms all.retry_after_ms;
      policy = record p {
        peers = write found (record body { creations = mine.window });
        global_creations = all.window;
      };
    }

refused : SecurityPolicy → Outcome
refused p = record { allowed = false; retry_after_ms = 0; policy = p }

unfoldable pub security_policy_allow_connection : SecurityPolicy → Option Bytes → ℕ → Outcome
unfolding allow_connection refused
security_policy_allow_connection p none now = refused p
security_policy_allow_connection p (some peer) now = allow_connection p peer now

unfoldable pub security_policy_allow_account_creation : SecurityPolicy → Option Bytes → ℕ → Outcome
unfolding allow_account_creation refused
security_policy_allow_account_creation p none now = refused p
security_policy_allow_account_creation p (some peer) now = allow_account_creation p peer now

-- A completed cooldown starts a fresh set of attempts.
unfoldable pub cooled : ℕ → AuthState → AuthState
cooled now a =
    if not (a.auth_blocked_until_ms == 0) && leb a.auth_blocked_until_ms now then blank_auth else a

unfoldable pub wait_for : ℕ → AuthState → ℕ
wait_for now a = if ltb now a.auth_blocked_until_ms then a.auth_blocked_until_ms - now else 0

pub allow_auth_attempt : SecurityPolicy → Bytes → Bytes → ℕ → Outcome
unfolding peer_record_for account_record_for cooled wait_for
allow_auth_attempt p peer player_name now =
    let found = peer_record_for p.peers peer now in
    let found_account = account_record_for p.accounts player_name now in
    let body = read blank_peer found in
    let peer_auth = cooled now body.auth in
    let account = cooled now (read blank_auth found_account) in
    let peer_wait = wait_for now peer_auth in
    let account_wait = wait_for now account in
    record {
      allowed = (peer_wait == 0) && (account_wait == 0);
      retry_after_ms = larger peer_wait account_wait;
      policy = record p {
        peers = write found (record body { auth = peer_auth });
        accounts = write found_account account;
      };
    }

unfoldable pub security_policy_allow_auth_attempt :
    SecurityPolicy → Option Bytes → Option Bytes → ℕ → Outcome
unfolding allow_auth_attempt refused
security_policy_allow_auth_attempt p none player_name now = refused p
security_policy_allow_auth_attempt p (some peer) none now = refused p
security_policy_allow_auth_attempt p (some peer) (some player_name) now =
    allow_auth_attempt p peer player_name now

-- One more failure, and the block that `backoff` gives for it; `uint64_t` sums wrap.
unfoldable pub failed : (ℕ → ℕ) → ℕ → AuthState → AuthState
failed backoff now a =
    let failures = if ltb a.auth_failures 1000000 then a.auth_failures + 1 else a.auth_failures in
    let delay = backoff failures in
    record {
      auth_failures = failures;
      auth_blocked_until_ms =
          if ltb 0 delay then (now + delay) % 2 ^ 64 else a.auth_blocked_until_ms;
    }

pub note_auth_failure : SecurityPolicy → Bytes → Bytes → ℕ → SecurityPolicy
unfolding peer_record_for account_record_for failed peer_backoff_ms account_backoff_ms
note_auth_failure p peer player_name now =
    let found = peer_record_for p.peers peer now in
    let found_account = account_record_for p.accounts player_name now in
    let body = read blank_peer found in
    record p {
      peers = write found (record body { auth = failed peer_backoff_ms now body.auth });
      accounts =
          write found_account (failed account_backoff_ms now (read blank_auth found_account));
    }

unfoldable pub security_policy_note_auth_failure :
    SecurityPolicy → Option Bytes → Option Bytes → ℕ → SecurityPolicy
unfolding note_auth_failure
security_policy_note_auth_failure p none player_name now = p
security_policy_note_auth_failure p (some peer) none now = p
security_policy_note_auth_failure p (some peer) (some player_name) now =
    note_auth_failure p peer player_name now

pub note_auth_success : SecurityPolicy → Bytes → Bytes → ℕ → SecurityPolicy
unfolding peer_record_for account_record_for
note_auth_success p peer player_name now =
    let found = peer_record_for p.peers peer now in
    let found_account = account_record_for p.accounts player_name now in
    let body = read blank_peer found in
    record p {
      peers = write found (record body { auth = blank_auth });
      accounts = write found_account blank_auth;
    }

unfoldable pub security_policy_note_auth_success :
    SecurityPolicy → Option Bytes → Option Bytes → ℕ → SecurityPolicy
unfolding note_auth_success
security_policy_note_auth_success p none player_name now = p
security_policy_note_auth_success p (some peer) none now = p
security_policy_note_auth_success p (some peer) (some player_name) now =
    note_auth_success p peer player_name now

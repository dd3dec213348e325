-- ===== src/Examples/SecurityExamples.antt =====
-- The abuse-control state at concrete histories.
use telnet_tls_server.Common.{
  ℕ, ◌+◌, ◌-◌, ◌≤◌, ◌≡◌, refl, leb, ltb, if◌then◌else◌, Bool, false, List, [], ◌∷◌, some, Bytes,
  codes, length, arith, replicate, same, ap,
}
use telnet_tls_server.Security.Keys.{normalize_account, copy_key}
use telnet_tls_server.Security.Window.{window_allow}
use telnet_tls_server.Security.Window.Limit.{history, count_in, history_limit, history_exact}
use telnet_tls_server.Security.Window.Retry.{refusal_retry}
use telnet_tls_server.Security.Table.{Slot, is_free, record_for, write}
use telnet_tls_server.Security.Table.Lookup.{lookup}
use telnet_tls_server.Security.Table.Refine.{IsKey, write-record_for, write-record_for_other}
use telnet_tls_server.Security.Policy.{
  SecurityPolicy, AuthState, blank_auth, blank_peer, security_policy_create,
  security_policy_allow_auth_attempt, security_policy_note_auth_failure,
  security_policy_note_auth_success, peer_backoff_ms, account_backoff_ms,
}
use telnet_tls_server.Security.Policy.Account.{account_key, account_of}
use telnet_tls_server.Security.Policy.Backoff.{backoff_lem, backoff_spec}
use telnet_tls_server.Security.Policy.Bounds.{
  connection, failure, performed, performed-IsBounded, IsBounded,
}
use telnet_tls_server.Security.Policy.Limits.{connections_limit, connects_run}
use telnet_tls_server.Security.Policy.Lockout.{
  done, fails, failures, three_failures_lock, success_resets,
}
use telnet_tls_server.Security.Policy.Peers.{
  peer_connections_limit, accepted_of, peer_key, peer_key_ne, HasPeerRoom,
}

-- Three events and a fourth at once, with a limit of three in ten.
abbrev busy : List ℕ
busy = 7 ∷ 5 ∷ 3 ∷ []

history_limit_example :
    (count_in 8 10 (history 3 10 busy).accepted ≤ 3) × (length (history 3 10 busy).window ≤ 3)
history_limit_example = history_limit 3 10 7 8 busy (omega arith)

history_exact_example :
    (window_allow (history 3 10 busy).window 3 10 8).accepted
    ≡ ltb (count_in 8 10 (history 3 10 busy).accepted) 3
history_exact_example = history_exact 3 10 8 busy (omega arith)

full_refuses : (window_allow (3 ∷ 5 ∷ 7 ∷ []) 3 10 8).accepted ≡ false
unfolding window_allow
full_refuses = refl

refusal_retry_example :
    (window_allow (window_allow (3 ∷ 5 ∷ 7 ∷ []) 3 10 8).window 3 10 13).accepted
    ≡ leb (8 + (window_allow (3 ∷ 5 ∷ 7 ∷ []) 3 10 8).retry_after_ms) 13
refusal_retry_example =
    refusal_retry 3 10 7 8 13 (3 ∷ 5 ∷ 7 ∷ []) (omega arith) (omega arith) (omega arith)
      (omega arith) full_refuses (omega arith)

backoff_lem_example :
    (peer_backoff_ms 0 ≡ 0)
    × (peer_backoff_ms 1 ≡ 0)
    × (peer_backoff_ms 2 ≡ 0)
    × (peer_backoff_ms (4 + 3) ≡ backoff_spec 4)
    × (account_backoff_ms 4 ≡ (if ltb 4 3 then 0 else 300000))
backoff_lem_example = backoff_lem 4

performed-IsBounded_example : IsBounded (
    performed (
      connection (some (codes "10.0.0.1")) 9
      ∷ failure (some (codes "10.0.0.1")) (some (codes "Ann")) 5
      ∷ []))
performed-IsBounded_example = performed-IsBounded (
    connection (some (codes "10.0.0.1")) 9
    ∷ failure (some (codes "10.0.0.1")) (some (codes "Ann")) 5
    ∷ [])

connections_limit_example :
    count_in 9 10000
      (connects_run security_policy_create
        ((some (codes "10.0.0.1"), 9) ∷ (some (codes "10.0.0.2"), 4) ∷ [])).accepted
    ≤ 30
unfolding security_policy_create
connections_limit_example =
    connections_limit security_policy_create 9 9
      ((some (codes "10.0.0.1"), 9) ∷ (some (codes "10.0.0.2"), 4) ∷ []) refl (omega arith)

abbrev ann : Bytes
ann = codes "Ann"

abbrev after_three : SecurityPolicy
after_three =
    security_policy_note_auth_failure
      (security_policy_note_auth_failure
        (security_policy_note_auth_failure security_policy_create (some (codes "p")) (some ann) 10)
        (some (codes "q")) (some (codes "ANN")) 20)
      (some (codes "p")) (some ann) 30

ann_fresh : account_of security_policy_create (account_key ann) ≡ blank_auth
unfolding security_policy_create lookup normalize_account
ann_fresh = refl

create_accounts_size : length security_policy_create.accounts ≡ 256
unfolding security_policy_create
create_accounts_size = refl

ann_spelled : account_key (codes "ANN") ≡ account_key ann
unfolding normalize_account
ann_spelled = refl

three_failures_lock_example :
    ((security_policy_allow_auth_attempt after_three (some (codes "r")) (some ann) 40).allowed
      ≡ false)
    × (30 + 300000 - 40
        ≤ (security_policy_allow_auth_attempt after_three
            (some (codes "r"))
            (some ann)
            40).retry_after_ms)
three_failures_lock_example =
    three_failures_lock {key = account_key ann} {d = 0} 10 20 30 create_accounts_size ann_fresh done
      (fails (codes "p") b'A' (codes "nn") refl) done
      (fails (codes "q") b'A' (codes "NN") ann_spelled) done
      (fails (codes "p") b'A' (codes "nn") refl) done (codes "r") b'A' (codes "nn") 40 refl
      (omega arith) (omega arith)

abbrev locked_slot : Slot AuthState
locked_slot = record {
  key = codes "ann";
  last_seen_ms = 5;
  body = record { auth_failures = 3; auth_blocked_until_ms = 9 };
}

abbrev locked : SecurityPolicy
locked = record {
  peers = [];
  accounts = locked_slot ∷ replicate 255 (record { key = []; last_seen_ms = 0; body = blank_auth });
  global_connections = [];
  global_creations = [];
}

success_resets_example :
    (account_of
        (security_policy_note_auth_success locked (some (codes "p")) (some ann) 12)
        (account_key ann)
      ≡ blank_auth)
    × (account_of
          (security_policy_note_auth_failure
            (security_policy_note_auth_failure
              (security_policy_note_auth_success locked (some (codes "p")) (some ann) 12)
              (some (codes "q"))
              (some (codes "ANN"))
              20)
            (some (codes "p"))
            (some ann)
            30)
          (account_key ann)
        ≡ failures 2 0)
success_resets_example =
    success_resets {key = account_key ann} {d = 0} locked (codes "p") b'A' (codes "nn") 12 20 30
      refl refl done (fails (codes "q") b'A' (codes "NN") ann_spelled) done
      (fails (codes "p") b'A' (codes "nn") refl) done

create_peers_size : length security_policy_create.peers ≡ 128
unfolding security_policy_create
create_peers_size = refl

peer_fresh :
    (lookup blank_peer (peer_key (codes "p")) security_policy_create.peers).connections ≡ []
unfolding security_policy_create lookup copy_key
peer_fresh = refl

create_has_room : HasPeerRoom security_policy_create (peer_key (codes "p"))
unfolding security_policy_create copy_key same is_free
create_has_room = refl

peer_connections_limit_example :
    count_in 9 10000
      (accepted_of (peer_key (codes "p")) security_policy_create ((some (codes "p"), 9) ∷ []))
    ≤ 5
peer_connections_limit_example =
    peer_connections_limit (peer_key (codes "p")) security_policy_create 9 9
      ((some (codes "p"), 9) ∷ []) (peer_key_ne (codes "p")) create_peers_size peer_fresh
      (omega arith) (unfold connects_run in (create_has_room, tt))

-- The map laws on a table of two records, one free.
abbrev two_slots : List (Slot ℕ)
two_slots =
    record { key = codes "a"; last_seen_ms = 1; body = 5 }
    ∷ record { key = []; last_seen_ms = 0; body = 0 }
    ∷ []

b_IsKey : IsKey 32 (codes "b")
unfolding copy_key
b_IsKey = record { ne_nil = λ e. cc; fits = refl }

write-record_for_example :
    lookup 0 (codes "b") (write (record_for 0 2 32 (codes "b") 7 two_slots) 9) ≡ 9
write-record_for_example =
    write-record_for 0 2 32 (codes "b") 7 two_slots b_IsKey refl (omega arith) 9

abbrev same_b : Bytes → Bool
same_b = same (codes "b")

write-record_for_other_example :
    lookup 0 (codes "a") (write (record_for 0 2 32 (codes "b") 7 two_slots) 9)
    ≡ lookup 0 (codes "a") two_slots
unfolding same is_free
write-record_for_other_example =
    write-record_for_other 0 2 32 (codes "b") 7 two_slots b_IsKey refl (omega arith) (codes "a")
      (λ e. cc) (λ e. cc (ap same_b e)) 9 refl

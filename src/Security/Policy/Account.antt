-- ===== src/Security/Policy/Account.antt =====
-- The account table of src/security_policy.c as a map, and what the operations do to an account.
use telnet_tls_server.Common.{ℕ, ◌≡◌, ◌≢◌, ◌∙◌, ap, true, ◌||◌, [], ◌∷◌, some, Bytes, length, arith}
use telnet_tls_server.Security.Keys.{
  normalize_account, normalize_account-ne-nil, length-normalize_account, copy_key-fits,
}
use telnet_tls_server.Security.Table.Lookup.{lookup}
use telnet_tls_server.Security.Table.Lookup.Scan.{has_free}
use telnet_tls_server.Security.Table.Refine.{
  has_key, IsKey, read-record_for, write-record_for, write-record_for_other,
  length-write-record_for,
}
use telnet_tls_server.Security.Policy.{
  AuthState, SecurityPolicy, blank_auth, max_account_records, account_key_bytes, account_record_for,
  account_backoff_ms, allow_auth_attempt, note_auth_failure, note_auth_success, cooled, failed,
}

abbrev pub account_key : Bytes → Bytes
account_key player_name = normalize_account account_key_bytes (some player_name)

-- What the table remembers of the account.
abbrev pub account_of : SecurityPolicy → Bytes → AuthState
account_of p key = lookup blank_auth key p.accounts

abbrev pub IsSized : SecurityPolicy → Type 0
IsSized p = length p.accounts ≡ max_account_records

-- There is a record for the key, or a free one.
abbrev pub HasRoom : SecurityPolicy → Bytes → Type 0
HasRoom p key = (has_key key p.accounts || has_free p.accounts) ≡ true

pub account_key-IsKey : (c : ℕ) (cs : Bytes) → IsKey account_key_bytes (account_key (c ∷ cs))
account_key-IsKey c cs = record {
  ne_nil = normalize_account-ne-nil account_key_bytes c cs (omega arith);
  fits =
      copy_key-fits account_key_bytes (account_key (c ∷ cs))
        (normalize_account-ne-nil account_key_bytes c cs (omega arith))
        (length-normalize_account account_key_bytes (some (c ∷ cs)) (omega arith));
}

-- The part of an operation that concerns the key's account.
pub record Acts (key : Bytes) (a : AuthState) (q : SecurityPolicy) : Type 0 where
  pub sized : IsSized q
  pub account : account_of q key ≡ a

module _ (p : SecurityPolicy) (peer : Bytes) (c : ℕ) (cs : Bytes) (now : ℕ)
    (sized : IsSized p) where
  abbrev name : Bytes
  name = c ∷ cs

  pub attempt_account :
      Acts
        (account_key name)
        (cooled now (account_of p (account_key name)))
        (allow_auth_attempt p peer name now).policy
  unfolding allow_auth_attempt account_record_for
  attempt_account = record {
    sized = length-write-record_for _ _ _ _ now p.accounts _ ∙ sized;
    account =
        write-record_for _ _ _ _ now p.accounts (account_key-IsKey c cs) sized (omega arith) _
        ∙ ap (cooled now)
            (read-record_for _ _ _ _ now p.accounts (account_key-IsKey c cs) sized (omega arith));
  }

  pub failure_account :
      Acts
        (account_key name)
        (failed account_backoff_ms now (account_of p (account_key name)))
        (note_auth_failure p peer name now)
  unfolding note_auth_failure account_record_for
  failure_account = record {
    sized = length-write-record_for _ _ _ _ now p.accounts _ ∙ sized;
    account =
        write-record_for _ _ _ _ now p.accounts (account_key-IsKey c cs) sized (omega arith) _
        ∙ ap (failed account_backoff_ms now)
            (read-record_for _ _ _ _ now p.accounts (account_key-IsKey c cs) sized (omega arith));
  }

  pub success_account : Acts (account_key name) blank_auth (note_auth_success p peer name now)
  unfolding note_auth_success account_record_for
  success_account = record {
    sized = length-write-record_for _ _ _ _ now p.accounts _ ∙ sized;
    account =
        write-record_for _ _ _ _ now p.accounts (account_key-IsKey c cs) sized (omega arith) _;
  }

-- The other key's account is left alone by an operation on this one, while there is room.
module _ (p : SecurityPolicy) (peer : Bytes) (c : ℕ) (cs : Bytes) (now : ℕ) (sized : IsSized p)
    (other : Bytes) (other_ne : other ≢ []) (ne : account_key (c ∷ cs) ≢ other)
    (room : HasRoom p (account_key (c ∷ cs))) where
  pub attempt_other :
      Acts other (account_of p other) (allow_auth_attempt p peer (c ∷ cs) now).policy
  unfolding allow_auth_attempt account_record_for
  attempt_other = record {
    sized = length-write-record_for _ _ _ _ now p.accounts _ ∙ sized;
    account =
        write-record_for_other _ _ _ _ now p.accounts (account_key-IsKey c cs) sized (omega arith)
          other other_ne ne _ room;
  }

  pub failure_other : Acts other (account_of p other) (note_auth_failure p peer (c ∷ cs) now)
  unfolding note_auth_failure account_record_for
  failure_other = record {
    sized = length-write-record_for _ _ _ _ now p.accounts _ ∙ sized;
    account =
        write-record_for_other _ _ _ _ now p.accounts (account_key-IsKey c cs) sized (omega arith)
          other other_ne ne _ room;
  }

  pub success_other : Acts other (account_of p other) (note_auth_success p peer (c ∷ cs) now)
  unfolding note_auth_success account_record_for
  success_other = record {
    sized = length-write-record_for _ _ _ _ now p.accounts _ ∙ sized;
    account =
        write-record_for_other _ _ _ _ now p.accounts (account_key-IsKey c cs) sized (omega arith)
          other other_ne ne _ room;
  }

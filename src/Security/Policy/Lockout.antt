-- ===== src/Security/Policy/Lockout.antt =====
-- Three bad passwords lock an account, whoever sends them, and a right one forgets them.
use telnet_tls_server.Common.{
  ℕ, ◌+◌, ◌-◌, ◌^◌, ◌≤◌, ◌<◌, ◌≡◌, ◌≢◌, refl, sym, ◌∙◌, ap, false, ◌⊎◌, inl, inr, [], ◌∷◌, Option,
  none, some, Bytes, length, arith, subst,
}
use telnet_tls_server.Security.Policy.{
  AuthState, SecurityPolicy, blank_auth, account_backoff_ms, cooled, wait_for, failed,
  security_policy_allow_connection, security_policy_allow_account_creation,
  security_policy_allow_auth_attempt, security_policy_note_auth_failure,
  security_policy_note_auth_success, allow_auth_attempt, account_record_for,
}
use telnet_tls_server.Security.Table.Lookup.{lookup}
use telnet_tls_server.Security.Table.Refine.{read-record_for}
use telnet_tls_server.Security.Policy.Account.{
  account_key, account_of, IsSized, HasRoom, account_key-IsKey, Acts, attempt_account,
  failure_account, success_account, attempt_other, failure_other, success_other,
}

-- An operation that another worker may run while the account `key` is watched: anything on
-- connections and creations, an attempt on the account itself before `deadline`, or anything on
-- another account that evicts no record.
pub data Meanwhile (key : Bytes) (deadline : ℕ) (p : SecurityPolicy) : SecurityPolicy → Type 0 where
  connects :
      (peer : Option Bytes) (now : ℕ)
      → Meanwhile key deadline p (security_policy_allow_connection p peer now).policy
  creates :
      (peer : Option Bytes) (now : ℕ)
      → Meanwhile key deadline p (security_policy_allow_account_creation p peer now).policy
  attempts :
      (peer : Bytes) (c : ℕ) (cs : Bytes) (now : ℕ)
      → account_key (c ∷ cs) ≡ key
      → now < deadline
      → Meanwhile key deadline p
          (security_policy_allow_auth_attempt p (some peer) (some (c ∷ cs)) now).policy
  attempts_other :
      (peer : Bytes) (c : ℕ) (cs : Bytes) (now : ℕ)
      → account_key (c ∷ cs) ≢ key
      → HasRoom p (account_key (c ∷ cs))
      → Meanwhile key deadline p
          (security_policy_allow_auth_attempt p (some peer) (some (c ∷ cs)) now).policy
  fails_other :
      (peer : Bytes) (c : ℕ) (cs : Bytes) (now : ℕ)
      → account_key (c ∷ cs) ≢ key
      → HasRoom p (account_key (c ∷ cs))
      → Meanwhile key deadline p
          (security_policy_note_auth_failure p (some peer) (some (c ∷ cs)) now)
  succeeds_other :
      (peer : Bytes) (c : ℕ) (cs : Bytes) (now : ℕ)
      → account_key (c ∷ cs) ≢ key
      → HasRoom p (account_key (c ∷ cs))
      → Meanwhile key deadline p
          (security_policy_note_auth_success p (some peer) (some (c ∷ cs)) now)

pub data Meantime (key : Bytes) (deadline : ℕ) : SecurityPolicy → SecurityPolicy → Type 0 where
  done : {p : SecurityPolicy} → Meantime key deadline p p
  step :
      {p q r : SecurityPolicy}
      → Meantime key deadline p q
      → Meanwhile key deadline q r
      → Meantime key deadline p r

-- Not blocked, or blocked at least until `deadline`.
abbrev Holds : ℕ → AuthState → Type 0
Holds deadline a = (a.auth_blocked_until_ms ≡ 0) ⊎ (deadline ≤ a.auth_blocked_until_ms)

cooled-Holds :
    (deadline now : ℕ) (a : AuthState) → Holds deadline a → now < deadline → cooled now a ≡ a
unfolding cooled
cooled-Holds deadline now a h l = ground arith

Acts-at :
    {key other : Bytes} {a b : AuthState} {q : SecurityPolicy}
    → other ≡ key
    → a ≡ b
    → Acts other a q
    → Acts key b q
Acts-at {q = q} e f x = record {
  sized = x.sized;
  account = ap (account_of q) (sym e) ∙ x.account ∙ f;
}

connection-accounts :
    (p : SecurityPolicy) (peer : Option Bytes) (now : ℕ)
    → (security_policy_allow_connection p peer now).policy.accounts ≡ p.accounts
unfolding security_policy_allow_connection
connection-accounts p none now = refl
connection-accounts p (some peer) now = refl

creation-accounts :
    (p : SecurityPolicy) (peer : Option Bytes) (now : ℕ)
    → (security_policy_allow_account_creation p peer now).policy.accounts ≡ p.accounts
unfolding security_policy_allow_account_creation
creation-accounts p none now = refl
creation-accounts p (some peer) now = refl

Acts-accounts :
    {key : Bytes} {a : AuthState} {p q : SecurityPolicy}
    → q.accounts ≡ p.accounts
    → Acts key a p
    → Acts key a q
Acts-accounts {key} e x = record {
  sized = ap length e ∙ x.sized;
  account = ap (lookup blank_auth key) e ∙ x.account;
}

Meanwhile-Acts :
    {key : Bytes} {deadline : ℕ} {a : AuthState} {p q : SecurityPolicy}
    → key ≢ []
    → Holds deadline a
    → Acts key a p
    → Meanwhile key deadline p q
    → Acts key a q
unfolding security_policy_allow_connection security_policy_allow_account_creation
    security_policy_allow_auth_attempt security_policy_note_auth_failure
    security_policy_note_auth_success
Meanwhile-Acts ne h x (connects peer now) = Acts-accounts (connection-accounts _ peer now) x
Meanwhile-Acts ne h x (creates peer now) = Acts-accounts (creation-accounts _ peer now) x
Meanwhile-Acts {p = p} ne h x (attempts peer c cs now e l) =
    Acts-at e (ap (cooled now) (ap (account_of p) e ∙ x.account) ∙ cooled-Holds _ now _ h l)
      (attempt_account p peer c cs now x.sized)
Meanwhile-Acts {p = p} ne h x (attempts_other peer c cs now e room) =
    Acts-at refl x.account (attempt_other p peer c cs now x.sized _ ne e room)
Meanwhile-Acts {p = p} ne h x (fails_other peer c cs now e room) =
    Acts-at refl x.account (failure_other p peer c cs now x.sized _ ne e room)
Meanwhile-Acts {p = p} ne h x (succeeds_other peer c cs now e room) =
    Acts-at refl x.account (success_other p peer c cs now x.sized _ ne e room)

Meantime-Acts :
    {key : Bytes} {deadline : ℕ} {a : AuthState} {p q : SecurityPolicy}
    → key ≢ []
    → Holds deadline a
    → Meantime key deadline p q
    → Acts key a p
    → Acts key a q
Meantime-Acts ne h done x = x
Meantime-Acts ne h (step m w) x = Meanwhile-Acts ne h (Meantime-Acts ne h m x) w

abbrev pub failures : ℕ → ℕ → AuthState
failures n blocked = record { auth_failures = n; auth_blocked_until_ms = blocked }

failed_twice :
    (now : ℕ) (n : ℕ) → n < 2 → failed account_backoff_ms now (failures n 0) ≡ failures (n + 1) 0
unfolding failed account_backoff_ms
failed_twice now n h = ground arith

failed_third :
    (now : ℕ)
    → now + 300000 < 2 ^ 64
    → failed account_backoff_ms now (failures 2 0) ≡ failures 3 (now + 300000)
unfolding failed account_backoff_ms
failed_third now h = ground arith

attempt_refused :
    (p : SecurityPolicy) (peer : Bytes) (c : ℕ) (cs : Bytes) (now until : ℕ)
    → Acts (account_key (c ∷ cs)) (failures 3 until) p
    → now < until
    → ((allow_auth_attempt p peer (c ∷ cs) now).allowed ≡ false)
      × (until - now ≤ (allow_auth_attempt p peer (c ∷ cs) now).retry_after_ms)
unfolding allow_auth_attempt account_record_for wait_for cooled
attempt_refused p peer c cs now until x h = ground (
  arith,
  read-record_for blank_auth 256 32 (account_key (c ∷ cs)) now p.accounts (account_key-IsKey c cs)
      x.sized (omega arith),
)

-- A failed password for the account, from any peer and in any spelling of the name.
pub data FailsOn (key : Bytes) (now : ℕ) (p : SecurityPolicy) : SecurityPolicy → Type 0 where
  fails :
      (peer : Bytes) (c : ℕ) (cs : Bytes)
      → account_key (c ∷ cs) ≡ key
      → FailsOn key now p (security_policy_note_auth_failure p (some peer) (some (c ∷ cs)) now)

FailsOn-Acts :
    {key : Bytes} {now : ℕ} {a b : AuthState} {p q : SecurityPolicy}
    → failed account_backoff_ms now a ≡ b
    → FailsOn key now p q
    → Acts key a p
    → Acts key b q
unfolding security_policy_note_auth_failure
FailsOn-Acts {now = now} {p = p} f (fails peer c cs e) x =
    Acts-at e (ap (failed account_backoff_ms now) (ap (account_of p) e ∙ x.account) ∙ f)
      (failure_account p peer c cs now x.sized)

-- From an account with no failures noted and tables of the full size: after three failed passwords
-- for it, from whatever peers, every attempt on the account within five minutes of the third is
-- refused, from any peer, and told to wait at least for the rest of the five minutes. Between and
-- after the failures there may be any connections and creations, attempts on the account (after the
-- third only within those five minutes), and operations on other accounts that evict no account
-- record; the account's failures are these three and no password for it is right. The third failure is more than five minutes before
-- 2^64.
pub three_failures_lock :
    {key : Bytes} {d : ℕ} {p p1 q1 p2 q2 p3 q3 r : SecurityPolicy} (t1 t2 t3 : ℕ)
    → IsSized p
    → account_of p key ≡ blank_auth
    → Meantime key d p p1
    → FailsOn key t1 p1 q1
    → Meantime key d q1 p2
    → FailsOn key t2 p2 q2
    → Meantime key d q2 p3
    → FailsOn key t3 p3 q3
    → Meantime key (t3 + 300000) q3 r
    → (peer : Bytes) (c : ℕ) (cs : Bytes) (now : ℕ) → account_key (c ∷ cs) ≡ key
    → now < t3 + 300000
    → t3 + 300000 < 2 ^ 64
    → ((security_policy_allow_auth_attempt r (some peer) (some (c ∷ cs)) now).allowed ≡ false)
      × (t3 + 300000 - now
          ≤ (security_policy_allow_auth_attempt r (some peer) (some (c ∷ cs)) now).retry_after_ms)
unfolding security_policy_allow_auth_attempt
three_failures_lock t1 t2 t3 sized fresh m1 f1 m2 f2 m3 f3 m4 peer c cs now e h w =
    let ne = subst (λ k. k ≢ []) e (account_key-IsKey c cs).ne_nil in
    let x1 = Meantime-Acts ne (inl refl) m1 (record { sized = sized; account = fresh }) in
    let y1 = FailsOn-Acts (failed_twice t1 0 (omega arith)) f1 x1 in
    let y2 =
      FailsOn-Acts (failed_twice t2 1 (omega arith)) f2 (Meantime-Acts ne (inl refl) m2 y1) in
    let y3 = FailsOn-Acts (failed_third t3 w) f3 (Meantime-Acts ne (inl refl) m3 y2) in
    let z = Meantime-Acts ne (inr (omega arith)) m4 y3 in
    attempt_refused _ peer c cs now (t3 + 300000) (Acts-at (sym e) refl z) h

-- With tables of the full size and whatever failures and lock the account had: a correct password
-- clears the account, and two failed passwords for it after that leave two failures and no lock.
-- Between and after them there may be any connections and creations, attempts on the account, and
-- operations on other accounts that evict no account record, with no other password tried on it.
pub success_resets :
    {key : Bytes} {d : ℕ} {p1 q1 p2 q2 r : SecurityPolicy} (p : SecurityPolicy) (peer : Bytes)
    (c : ℕ) (cs : Bytes) (now t1 t2 : ℕ)
    → IsSized p
    → account_key (c ∷ cs) ≡ key
    → Meantime key d (security_policy_note_auth_success p (some peer) (some (c ∷ cs)) now) p1
    → FailsOn key t1 p1 q1
    → Meantime key d q1 p2
    → FailsOn key t2 p2 q2
    → Meantime key d q2 r
    → (account_of (security_policy_note_auth_success p (some peer) (some (c ∷ cs)) now) key
        ≡ blank_auth)
      × (account_of r key ≡ failures 2 0)
unfolding security_policy_note_auth_success
success_resets p peer c cs now t1 t2 sized e m1 f1 m2 f2 m3 =
    let ne = subst (λ k. k ≢ []) e (account_key-IsKey c cs).ne_nil in
    let x = Acts-at e refl (success_account p peer c cs now sized) in
    let y1 = FailsOn-Acts (failed_twice t1 0 (omega arith)) f1 (Meantime-Acts ne (inl refl) m1 x) in
    let y2 =
      FailsOn-Acts (failed_twice t2 1 (omega arith)) f2 (Meantime-Acts ne (inl refl) m2 y1) in
    (x.account, (Meantime-Acts ne (inl refl) m3 y2).account)

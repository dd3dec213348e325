-- ===== src/Security/Policy/Bounds.antt =====
-- Memory bounds of src/security_policy.c: whatever is called, the tables keep their sizes and no
-- event window outgrows its limit, so each write stays inside `times[64]`.
use telnet_tls_server.Common.{
  ℕ, zero, suc, ◌≤◌, ◌≡◌, refl, ap, ◌∙◌, Bool, true, false, List, [], ◌∷◌, Option, none, some,
  Bytes, length, length-append, All, set, arith, replicate,
}
use telnet_tls_server.Security.Window.{window_allow, prune_window}
use telnet_tls_server.Security.Window.Limit.{length-prune_window-le}
use telnet_tls_server.Security.Table.{
  Slot, Found, hit, miss, touch, put_body, read, write, record_for, found_record,
}
use telnet_tls_server.Security.Table.Refine.{length-write-record_for}
use telnet_tls_server.Security.Policy.{
  SecurityPolicy, PeerBody, AuthState, blank_peer, blank_auth, peer_record_for, account_record_for,
  global_verdict, allow_connection, allow_account_creation, allow_auth_attempt, note_auth_failure,
  note_auth_success, security_policy_create, security_policy_allow_connection,
  security_policy_allow_account_creation, security_policy_allow_auth_attempt,
  security_policy_note_auth_failure, security_policy_note_auth_success,
}

-- The calls that change the state.
pub data Operation : Type 0 where
  connection creation : Option Bytes → ℕ → Operation
  attempt failure success : Option Bytes → Option Bytes → ℕ → Operation

pub perform : SecurityPolicy → Operation → SecurityPolicy
perform p (connection peer now) = (security_policy_allow_connection p peer now).policy
perform p (creation peer now) = (security_policy_allow_account_creation p peer now).policy
perform p (attempt peer name now) = (security_policy_allow_auth_attempt p peer name now).policy
perform p (failure peer name now) = security_policy_note_auth_failure p peer name now
perform p (success peer name now) = security_policy_note_auth_success p peer name now

abbrev pub WindowsFit : PeerBody → Type 0
WindowsFit b = (length b.connections ≤ 5) × (length b.creations ≤ 10)

pub record IsBounded (p : SecurityPolicy) : Type 0 where
  pub peers_size : length p.peers ≡ 128
  pub accounts_size : length p.accounts ≡ 256
  pub peers_fit : All (λ (s : Slot PeerBody). WindowsFit s.body) p.peers
  pub connections_fit : length p.global_connections ≤ 30
  pub creations_fit : length p.global_creations ≤ 50

window_allow_bound :
    (window : List ℕ) (limit w now : ℕ)
    → length window ≤ limit
    → length (window_allow window limit w now).window ≤ limit
unfolding window_allow
window_allow_bound window limit w now h = ground (
  arith,
  length-prune_window-le now w window,
  length-append (prune_window window now w) (now ∷ []),
)

global_bound :
    (mine : Bool) (window : List ℕ) (limit w now : ℕ)
    → length window ≤ limit
    → length (global_verdict mine window limit w now).window ≤ limit
unfolding global_verdict
global_bound true window limit w now h = window_allow_bound window limit w now h
global_bound false window limit w now h = h

abbrev Fit : Slot PeerBody → Type 0
Fit s = WindowsFit s.body

touch-Fit : (now : ℕ) (t : List (Slot PeerBody)) (k : ℕ) → All Fit t → All Fit (touch now t k)
unfolding touch
touch-Fit now [] k a = tt
touch-Fit now (r ∷ rs) zero a = a
touch-Fit now (r ∷ rs) (suc k) a = (a.0, touch-Fit now rs k a.1)

set-Fit :
    (t : List (Slot PeerBody)) (k : ℕ) (s : Slot PeerBody) → Fit s → All Fit t → All Fit (set t k s)
set-Fit [] k s f a = tt
set-Fit (r ∷ rs) zero s f a = (f, a.1)
set-Fit (r ∷ rs) (suc k) s f a = (a.0, set-Fit rs k s f a.1)

put_body-Fit :
    (t : List (Slot PeerBody)) (k : ℕ) (b : PeerBody)
    → WindowsFit b
    → All Fit t
    → All Fit (put_body t k b)
unfolding put_body
put_body-Fit [] k b f a = tt
put_body-Fit (r ∷ rs) zero b f a = (f, a.1)
put_body-Fit (r ∷ rs) (suc k) b f a = (a.0, put_body-Fit rs k b f a.1)

body-Fit : (t : List (Slot PeerBody)) (k : ℕ) → All Fit t → WindowsFit (read blank_peer (k, t))
unfolding read
body-Fit [] k a = (omega arith, omega arith)
body-Fit (r ∷ rs) zero a = a.0
body-Fit (r ∷ rs) (suc k) a = body-Fit rs k a.1

found-Fit :
    (key_bytes : ℕ) (key : Bytes) (now : ℕ) (t : List (Slot PeerBody)) (f : Found)
    → All Fit t
    → All Fit (found_record blank_peer key_bytes key now t f).1
unfolding found_record
found-Fit key_bytes key now t (hit k) a = touch-Fit now t k a
found-Fit key_bytes key now t (miss j) a = set-Fit t j _ (omega arith, omega arith) a

peer-Fit :
    (t : List (Slot PeerBody)) (peer : Bytes) (now : ℕ)
    → All Fit t
    → All Fit (peer_record_for t peer now).1
unfolding peer_record_for record_for
peer-Fit t peer now a = found-Fit _ _ now t _ a

-- The body that an operation starts from fits, and so does the table with a fitting one written.
module _ (t : List (Slot PeerBody)) (peer : Bytes) (now : ℕ) (a : All Fit t) where
  read-Fit : WindowsFit (read blank_peer (peer_record_for t peer now))
  read-Fit =
      body-Fit (peer_record_for t peer now).1 (peer_record_for t peer now).0 (peer-Fit t peer now a)

  write-Fit : (b : PeerBody) → WindowsFit b → All Fit (write (peer_record_for t peer now) b)
  unfolding write
  write-Fit b f = put_body-Fit _ _ b f (peer-Fit t peer now a)

  write-size : (b : PeerBody) → length t ≡ 128 → length (write (peer_record_for t peer now) b) ≡ 128
  unfolding peer_record_for
  write-size b e = length-write-record_for _ _ _ _ now t b ∙ e

account_size :
    (t : List (Slot AuthState)) (name : Bytes) (now : ℕ) (b : AuthState)
    → length t ≡ 256
    → length (write (account_record_for t name now) b) ≡ 256
unfolding account_record_for
account_size t name now b e = length-write-record_for _ _ _ _ now t b ∙ e

module _ (p : SecurityPolicy) (peer : Bytes) (now : ℕ) (v : IsBounded p) where
  body_fits : WindowsFit (read blank_peer (peer_record_for p.peers peer now))
  body_fits = read-Fit p.peers peer now v.peers_fit

  connection-IsBounded : IsBounded (allow_connection p peer now).policy
  unfolding allow_connection
  connection-IsBounded = record {
    peers_size = write-size p.peers peer now v.peers_fit _ v.peers_size;
    accounts_size = v.accounts_size;
    peers_fit =
        write-Fit p.peers peer now v.peers_fit _
          (window_allow_bound _ 5 10000 now body_fits.0, body_fits.1);
    connections_fit = global_bound _ p.global_connections 30 10000 now v.connections_fit;
    creations_fit = v.creations_fit;
  }

  creation-IsBounded : IsBounded (allow_account_creation p peer now).policy
  unfolding allow_account_creation
  creation-IsBounded = record {
    peers_size = write-size p.peers peer now v.peers_fit _ v.peers_size;
    accounts_size = v.accounts_size;
    peers_fit =
        write-Fit p.peers peer now v.peers_fit _
          (body_fits.0, window_allow_bound _ 10 600000 now body_fits.1);
    connections_fit = v.connections_fit;
    creations_fit = global_bound _ p.global_creations 50 600000 now v.creations_fit;
  }

  -- A new peer body with the windows as they were, and a new account table of the same size.
  auth-IsBounded :
      (auth : AuthState) (accounts : List (Slot AuthState))
      → length accounts ≡ 256
      → IsBounded (record p {
        peers =
            write
              (peer_record_for p.peers peer now)
              (record (read blank_peer (peer_record_for p.peers peer now)) { auth = auth });
        accounts = accounts;
      })
  auth-IsBounded auth accounts e = record {
    peers_size = write-size p.peers peer now v.peers_fit _ v.peers_size;
    accounts_size = e;
    peers_fit = write-Fit p.peers peer now v.peers_fit _ body_fits;
    connections_fit = v.connections_fit;
    creations_fit = v.creations_fit;
  }

  module _ (name : Bytes) where
    attempt-IsBounded : IsBounded (allow_auth_attempt p peer name now).policy
    unfolding allow_auth_attempt
    attempt-IsBounded = auth-IsBounded _ _ (account_size p.accounts name now _ v.accounts_size)

    failure-IsBounded : IsBounded (note_auth_failure p peer name now)
    unfolding note_auth_failure
    failure-IsBounded = auth-IsBounded _ _ (account_size p.accounts name now _ v.accounts_size)

    success-IsBounded : IsBounded (note_auth_success p peer name now)
    unfolding note_auth_success
    success-IsBounded = auth-IsBounded _ _ (account_size p.accounts name now _ v.accounts_size)

perform-IsBounded : (p : SecurityPolicy) (o : Operation) → IsBounded p → IsBounded (perform p o)
unfolding perform security_policy_allow_connection security_policy_allow_account_creation
    security_policy_allow_auth_attempt security_policy_note_auth_failure
    security_policy_note_auth_success
perform-IsBounded p (connection none now) v = v
perform-IsBounded p (connection (some peer) now) v = connection-IsBounded p peer now v
perform-IsBounded p (creation none now) v = v
perform-IsBounded p (creation (some peer) now) v = creation-IsBounded p peer now v
perform-IsBounded p (attempt none name now) v = v
perform-IsBounded p (attempt (some peer) none now) v = v
perform-IsBounded p (attempt (some peer) (some name) now) v = attempt-IsBounded p peer now v name
perform-IsBounded p (failure none name now) v = v
perform-IsBounded p (failure (some peer) none now) v = v
perform-IsBounded p (failure (some peer) (some name) now) v = failure-IsBounded p peer now v name
perform-IsBounded p (success none name now) v = v
perform-IsBounded p (success (some peer) none now) v = v
perform-IsBounded p (success (some peer) (some name) now) v = success-IsBounded p peer now v name

replicate-Fit : (n : ℕ) (s : Slot PeerBody) → Fit s → All Fit (replicate n s)
replicate-Fit zero s f = tt
replicate-Fit (suc n) s f = (f, replicate-Fit n s f)

length-replicate {ℓ} : {A : Type ℓ} (n : ℕ) (a : A) → length (replicate n a) ≡ n
length-replicate zero a = refl
length-replicate (suc n) a = ap suc (length-replicate n a)

abbrev free_peer : Slot PeerBody
free_peer = record { key = []; last_seen_ms = 0; body = blank_peer }

abbrev free_account : Slot AuthState
free_account = record { key = []; last_seen_ms = 0; body = blank_auth }

create-IsBounded : IsBounded security_policy_create
unfolding security_policy_create
create-IsBounded = record {
  peers_size = length-replicate 128 free_peer;
  accounts_size = length-replicate 256 free_account;
  peers_fit = replicate-Fit 128 free_peer (omega arith, omega arith);
  connections_fit = omega arith;
  creations_fit = omega arith;
}

-- The calls made on a new policy, the latest first.
pub performed : List Operation → SecurityPolicy
performed [] = security_policy_create
performed (o ∷ earlier) = perform (performed earlier) o

-- After any calls on a new policy, whatever their arguments: the tables have 128 and 256 records,
-- each peer at most 5 connection and 10 creation times, and the global windows at most 30 and 50.
pub performed-IsBounded : (os : List Operation) → IsBounded (performed os)
unfolding performed
performed-IsBounded [] = create-IsBounded
performed-IsBounded (o ∷ earlier) =
    perform-IsBounded (performed earlier) o (performed-IsBounded earlier)

-- ===== src/Security/Policy/Peers.antt =====
-- The connection limit of one peer over histories of calls by all peers.
use telnet_tls_server.Common.{
  ℕ, ◌≤◌, ◌≡◌, ◌≢◌, refl, sym, ap, ◌∙◌, Bool, true, false, ◌&&◌, ◌||◌, List, [], ◌∷◌, none, some,
  Bytes, length, arith, inl, inr, Bool-cases, same, same_refl, same→eq, subst, &&-eq_true,
}
use telnet_tls_server.Security.Keys.{copy_key, copy_key-fits, copy_key-ne-nil, length-copy_key}
use telnet_tls_server.Security.Window.{window_allow}
use telnet_tls_server.Security.Window.Limit.{
  Sound, call, call-Sound, count_in, logged, Sound-later, Sound-empty,
}
use telnet_tls_server.Security.Table.Lookup.{lookup}
use telnet_tls_server.Security.Table.Lookup.Scan.{has_free}
use telnet_tls_server.Security.Table.Refine.{
  has_key, IsKey, read-record_for, write-record_for, write-record_for_other,
  length-write-record_for,
}
use telnet_tls_server.Security.Policy.{
  SecurityPolicy, allow_connection, security_policy_allow_connection, PeerBody, blank_peer,
  peer_record_for, peer_key_bytes, max_peer_records,
}
use telnet_tls_server.Security.Policy.Limits.{Call, connects_run, connect, CallsMonotone}

abbrev pub peer_key : Bytes → Bytes
peer_key peer = copy_key peer_key_bytes (some peer)

peer_key-IsKey : (peer : Bytes) → IsKey peer_key_bytes (peer_key peer)
peer_key-IsKey peer = record {
  ne_nil = copy_key-ne-nil peer_key_bytes (some peer) (omega arith);
  fits =
      copy_key-fits peer_key_bytes (peer_key peer)
        (copy_key-ne-nil peer_key_bytes (some peer) (omega arith))
        (length-copy_key peer_key_bytes (some peer) (omega arith));
}

pub peer_key_ne : (peer : Bytes) → peer_key peer ≢ []
peer_key_ne peer = (peer_key-IsKey peer).ne_nil

-- The connection window that the table remembers for a key.
abbrev pub connections_of : SecurityPolicy → Bytes → List ℕ
connections_of p key = (lookup blank_peer key p.peers).connections

abbrev pub HasPeerRoom : SecurityPolicy → Bytes → Type 0
HasPeerRoom p key = (has_key key p.peers || has_free p.peers) ≡ true

module _ (p : SecurityPolicy) (peer : Bytes) (now : ℕ)
    (sized : length p.peers ≡ max_peer_records) where
  connect-sized : length (allow_connection p peer now).policy.peers ≡ max_peer_records
  unfolding allow_connection peer_record_for
  connect-sized = length-write-record_for _ _ _ _ now p.peers _ ∙ sized

  connect_same :
      connections_of (allow_connection p peer now).policy (peer_key peer)
      ≡ (window_allow (connections_of p (peer_key peer)) 5 10000 now).window
  unfolding allow_connection peer_record_for
  connect_same =
      ap (λ (b : PeerBody). b.connections)
        (write-record_for _ _ _ _ now p.peers (peer_key-IsKey peer) sized (omega arith) _)
      ∙ ap (λ (b : PeerBody). (window_allow b.connections 5 10000 now).window)
          (read-record_for _ _ _ _ now p.peers (peer_key-IsKey peer) sized (omega arith))

  connect_other :
      (key : Bytes)
      → key ≢ []
      → peer_key peer ≢ key
      → HasPeerRoom p (peer_key peer)
      → connections_of (allow_connection p peer now).policy key ≡ connections_of p key
  unfolding allow_connection peer_record_for
  connect_other key ne other room =
      ap (λ (b : PeerBody). b.connections)
        (write-record_for_other _ _ _ _ now p.peers (peer_key-IsKey peer) sized (omega arith) key ne
          other _ room)

  -- An accepted connection was accepted by the peer's own window.
  connect_accepted :
      (allow_connection p peer now).allowed ≡ true
      → (window_allow (connections_of p (peer_key peer)) 5 10000 now).accepted ≡ true
  unfolding allow_connection peer_record_for
  connect_accepted h =
      sym (
        ap (λ (b : PeerBody). (window_allow b.connections 5 10000 now).accepted)
          (read-record_for _ _ _ _ now p.peers (peer_key-IsKey peer) sized (omega arith)))
      ∙ (&&-eq_true _ _ h).0

-- The times of the accepted connections of one peer, newest first.
pub accepted_of : Bytes → SecurityPolicy → List Call → List ℕ
accepted_of key p [] = []
accepted_of key p ((none, now) ∷ cs) = accepted_of key p cs
accepted_of key p ((some peer, now) ∷ cs) =
    let q = (connects_run p cs).policy in
    logged (accepted_of key p cs) now
      (same (peer_key peer) key && (security_policy_allow_connection q (some peer) now).allowed)

-- Each call finds a record of its peer, or a free one: no record of another peer is evicted.
abbrev pub Roomy : SecurityPolicy → List Call → Type 0
Roomy p [] = Unit {0}
Roomy p ((none, now) ∷ cs) = Roomy p cs
Roomy p ((some peer, now) ∷ cs) =
    HasPeerRoom (connects_run p cs).policy (peer_key peer) × Roomy p cs

-- The calls that the peer's own window accepts.
let_in : Bytes → SecurityPolicy → List Call → List ℕ
let_in key p [] = []
let_in key p ((none, now) ∷ cs) = let_in key p cs
let_in key p ((some peer, now) ∷ cs) =
    let q = (connects_run p cs).policy in
    logged (let_in key p cs) now
      (same (peer_key peer) key && (window_allow (connections_of q key) 5 10000 now).accepted)

record PeerInv (key : Bytes) (p : SecurityPolicy) (last : ℕ) (cs : List Call) : Type 0 where
  sized : length (connects_run p cs).policy.peers ≡ max_peer_records
  sound : Sound 5 10000 last (record {
    accepted = let_in key p cs;
    window = connections_of (connects_run p cs).policy key;
  })
  fewer : (at : ℕ) → count_in at 10000 (accepted_of key p cs) ≤ count_in at 10000 (let_in key p cs)

logged-Sound :
    (key : Bytes) (last now : ℕ) (log w w' : List ℕ)
    → Sound 5 10000 last (record { accepted = log; window = w })
    → last ≤ now
    → w' ≡ (window_allow w 5 10000 now).window
    → Sound 5 10000 now
        (record { accepted = logged log now (window_allow w 5 10000 now).accepted; window = w' })
logged-Sound key last now log w w' s later e =
    rw e
      (unfold call in call-Sound 5 10000 now last (record { accepted = log; window = w }) s later)

logged_fewer :
    (at now : ℕ) (xs ys : List ℕ) (a b : Bool)
    → (a ≡ true → b ≡ true)
    → count_in at 10000 xs ≤ count_in at 10000 ys
    → count_in at 10000 (logged xs now a) ≤ count_in at 10000 (logged ys now b)
logged_fewer at now xs ys true b i h = rw (i refl) (omega arith)
logged_fewer at now xs ys false true i h = omega arith
logged_fewer at now xs ys false false i h = h

module _ (key : Bytes) (p : SecurityPolicy) (last now : ℕ) (peer : Bytes) (cs : List Call) where
  abbrev open_call : List Call
  open_call = (some peer, now) ∷ cs

  same-PeerInv :
      PeerInv key p last cs
      → last ≤ now
      → same (peer_key peer) key ≡ true
      → PeerInv key p now open_call
  unfolding connects_run connect let_in accepted_of security_policy_allow_connection
  same-PeerInv v later t =
      let q = (connects_run p cs).policy in
      let e = same→eq (peer_key peer) key t in
      record {
        sized = connect-sized q peer now v.sized;
        sound = rw t (
            logged-Sound key last now (let_in key p cs) (connections_of q key) _ v.sound later (
              subst
                (λ k.
                  connections_of (allow_connection q peer now).policy k
                  ≡ (window_allow (connections_of q k) 5 10000 now).window)
                e (connect_same q peer now v.sized)));
        fewer = λ at. rw t (
            logged_fewer at now (accepted_of key p cs) (let_in key p cs) _ _
              (λ h.
                subst (λ k. (window_allow (connections_of q k) 5 10000 now).accepted ≡ true) e
                  (connect_accepted q peer now v.sized h))
              (v.fewer at));
      }

  other_PeerInv :
      PeerInv key p last cs
      → last ≤ now
      → key ≢ []
      → HasPeerRoom (connects_run p cs).policy (peer_key peer)
      → same (peer_key peer) key ≡ false
      → PeerInv key p now open_call
  unfolding connects_run connect let_in accepted_of security_policy_allow_connection
  other_PeerInv v later ne room t =
      let q = (connects_run p cs).policy in
      record {
        sized = connect-sized q peer now v.sized;
        sound =
            rw (t, connect_other q peer now v.sized key ne (λ e. cc (same_refl key)) room)
              (Sound-later 5 10000 last now _ later v.sound);
        fewer = λ at. rw t (v.fewer at);
      }

null_PeerInv :
    (key : Bytes) (p : SecurityPolicy) (now : ℕ) (cs : List Call)
    → PeerInv key p now cs
    → PeerInv key p now ((none, now) ∷ cs)
unfolding connects_run connect let_in accepted_of security_policy_allow_connection
null_PeerInv key p now cs v = record { sized = v.sized; sound = v.sound; fewer = v.fewer }

PeerInv-later :
    (key : Bytes) (p : SecurityPolicy) (last now : ℕ) (cs : List Call)
    → last ≤ now
    → PeerInv key p last cs
    → PeerInv key p now cs
PeerInv-later key p last now cs later v = record {
  sized = v.sized;
  sound = Sound-later 5 10000 last now _ later v.sound;
  fewer = v.fewer;
}

run-PeerInv :
    (key : Bytes) (p : SecurityPolicy) (last : ℕ) (cs : List Call)
    → key ≢ []
    → length p.peers ≡ max_peer_records
    → connections_of p key ≡ []
    → CallsMonotone last cs
    → Roomy p cs
    → PeerInv key p last cs
run-PeerInv key p last [] ne sized e m room =
    unfold connects_run let_in accepted_of in
    record { sized = sized; sound = rw e (Sound-empty 5 10000 last); fewer = λ at. omega arith }
run-PeerInv key p last ((none, now) ∷ cs) ne sized e m room =
    let v = run-PeerInv key p now cs ne sized e m.1 room in
    PeerInv-later key p now last ((none, now) ∷ cs) m.0 (null_PeerInv key p now cs v)
run-PeerInv key p last ((some peer, now) ∷ cs) ne sized e m room =
    let v = run-PeerInv key p now cs ne sized e m.1 room.1 in
    PeerInv-later key p now last ((some peer, now) ∷ cs) m.0
      (elim (Bool-cases (same (peer_key peer) key)) [
        | inl t ↦ same-PeerInv key p now now peer cs v (omega arith) t
        | inr t ↦ other_PeerInv key p now now peer cs v (omega arith) ne room.0 t
      ])

-- For a peer with no connections noted, over any calls of `security_policy_allow_connection` by
-- any peers at times that never go back, while no call evicts a record of the peer table: at most
-- 5 connections of the peer are accepted in any ten seconds.
pub peer_connections_limit :
    (key : Bytes) (p : SecurityPolicy) (last at : ℕ) (cs : List Call)
    → key ≢ []
    → length p.peers ≡ 128
    → connections_of p key ≡ []
    → CallsMonotone last cs
    → Roomy p cs
    → count_in at 10000 (accepted_of key p cs) ≤ 5
peer_connections_limit key p last at cs ne sized e m room =
    let v = run-PeerInv key p last cs ne sized e m room in
    omega (arith, v.fewer at, v.sound.limited at)

-- ===== src/Security/Policy/Limits.antt =====
-- The connection limits of src/security_policy.c over histories of calls by all peers.
use telnet_tls_server.Common.{
  ℕ, ◌≤◌, ◌≡◌, Bool, true, false, ◌&&◌, List, [], ◌∷◌, Option, none, some, Bytes, arith,
}
use telnet_tls_server.Security.Window.Limit.{
  History, Sound, call, call-Sound, count_in, logged, Sound-later, Sound-empty,
}
use telnet_tls_server.Security.Policy.{
  SecurityPolicy, security_policy_allow_connection, global_verdict, global_connection_limit,
  global_connection_window_ms,
}

-- A run of calls with the times of the accepted ones, newest first.
pub record Run : Type 0 where
  pub policy : SecurityPolicy
  pub accepted : List ℕ

abbrev pub Call : Type 0
Call = Option Bytes × ℕ

unfoldable pub connect : Call → Run → Run
connect (peer, now) r =
    let o = security_policy_allow_connection r.policy peer now in
    record { policy = o.policy; accepted = logged r.accepted now o.allowed }

-- The calls, the latest first.
unfoldable pub connects_run : SecurityPolicy → List Call → Run
connects_run p [] = record { policy = p; accepted = [] }
connects_run p (c ∷ earlier) = connect c (connects_run p earlier)

abbrev pub CallsMonotone : ℕ → List Call → Type 0
CallsMonotone last [] = Unit {0}
CallsMonotone last ((peer, now) ∷ cs) = (now ≤ last) × CallsMonotone now cs

abbrev global_history : Run → History
global_history r = record { accepted = r.accepted; window = r.policy.global_connections }

-- A peer's refusal leaves the global window as it was; otherwise it is one call on it.
global_Sound :
    (mine : Bool) (limit w last now : ℕ) (h : History)
    → Sound limit w last h
    → last ≤ now
    → Sound limit w now (record {
      accepted =
          logged h.accepted now (mine && (global_verdict mine h.window limit w now).accepted);
      window = (global_verdict mine h.window limit w now).window;
    })
unfolding global_verdict
global_Sound true limit w last now h s later = unfold call in call-Sound limit w now last h s later
global_Sound false limit w last now h s later = Sound-later limit w last now h later s

connect-Sound :
    (last : ℕ) (peer : Option Bytes) (now : ℕ) (r : Run)
    → Sound global_connection_limit global_connection_window_ms last (global_history r)
    → last ≤ now
    → Sound global_connection_limit global_connection_window_ms now
        (global_history (connect (peer, now) r))
unfolding connect security_policy_allow_connection
connect-Sound last none now r s later = Sound-later _ _ last now _ later s
connect-Sound last (some peer) now r s later =
    global_Sound _ global_connection_limit global_connection_window_ms last now (global_history r) s
      later

connects_run-Sound :
    (p : SecurityPolicy) (last : ℕ) (calls : List Call)
    → p.global_connections ≡ []
    → CallsMonotone last calls
    → Sound global_connection_limit global_connection_window_ms last
        (global_history (connects_run p calls))
unfolding connects_run
connects_run-Sound p last [] e m =
    rw e (Sound-empty global_connection_limit global_connection_window_ms last)
connects_run-Sound p last ((peer, now) ∷ cs) e m = Sound-later _ _ now last _ m.0 (
    connect-Sound now peer now (connects_run p cs) (connects_run-Sound p now cs e m.1)
      (omega arith))

-- From an empty global window, over any calls of `security_policy_allow_connection` by any peers
-- at times that never go back: at most 30 connections are accepted in any ten seconds.
pub connections_limit :
    (p : SecurityPolicy) (last at : ℕ) (calls : List Call)
    → p.global_connections ≡ []
    → CallsMonotone last calls
    → count_in at 10000 (connects_run p calls).accepted ≤ 30
connections_limit p last at calls e m = (connects_run-Sound p last calls e m).limited at

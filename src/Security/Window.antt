-- ===== src/Security/Window.antt =====
-- `struct event_window` of src/security_policy.c: the list holds the first `count` entries of
-- `times`, in the array's order.
pub mod Limit
pub mod Retry
use telnet_tls_server.Common.{
  ℕ, ◌-◌, ◌+◌, ◌≤◌, ◌≡◌, refl, ltb, leb, if◌then◌else◌, Bool, true, false, ◌&&◌, List, [], ◌∷◌,
  ◌++◌, length, arith,
}

-- The test of the loop in `prune_window`: the event lies in the window that ends now.
abbrev pub in_window : ℕ → ℕ → ℕ → Bool
in_window now window_ms then' = leb then' now && ltb (now - then') window_ms

unfoldable pub prune_window : List ℕ → ℕ → ℕ → List ℕ
prune_window [] now window_ms = []
prune_window (t ∷ times) now window_ms =
    let rest = prune_window times now window_ms in
    if in_window now window_ms t then t ∷ rest else rest

-- The result, the window left behind and `*retry_after_ms`.
pub record Verdict : Type 0 where
  pub window : List ℕ
  pub retry_after_ms : ℕ
  pub accepted : Bool

-- `times[0]`; it is read only behind `count >= limit`, with a positive limit.
oldest_of : List ℕ → ℕ
oldest_of [] = 0
oldest_of (t ∷ times) = t

pub retry_for : ℕ → ℕ → ℕ → ℕ
retry_for oldest window_ms now =
    let age = if leb oldest now then now - oldest else 0 in
    if leb window_ms age then 0 else window_ms - age

-- The part of `window_allow` behind the call of `prune_window`.
decide : List ℕ → ℕ → ℕ → ℕ → Verdict
unfolding retry_for oldest_of
decide window limit window_ms now =
    if leb limit (length window)
    then record {
      window = window;
      retry_after_ms = retry_for (oldest_of window) window_ms now;
      accepted = false;
    }
    else record { window = window ++ now ∷ []; retry_after_ms = 0; accepted = true }

unfoldable pub window_allow : List ℕ → ℕ → ℕ → ℕ → Verdict
unfolding decide prune_window
window_allow window limit window_ms now =
    decide (prune_window window now window_ms) limit window_ms now

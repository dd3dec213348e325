-- ===== src/Security/Window/Retry.antt =====
-- The delay that a refusal reports.
use telnet_tls_server.Common.{
  ℕ, ◌+◌, ◌≤◌, ◌<◌, ◌≡◌, refl, leb, false, List, [], ◌∷◌, length, arith, Bool-cases, inl, inr,
}
use telnet_tls_server.Security.Window.{prune_window, decide, window_allow}
use telnet_tls_server.Security.Window.Limit.{length-prune_window-le}

-- Oldest first, none before `from` and none after `now`: the order in which the code appends.
abbrev pub IsOrdered : ℕ → ℕ → List ℕ → Type 0
IsOrdered from now [] = Unit {0}
IsOrdered from now (t ∷ ts) = (from ≤ t) × (t ≤ now) × IsOrdered t now ts

-- While the oldest entry is in the window, so are all.
prune_window-id :
    (now at w oldest : ℕ) (ts : List ℕ)
    → now ≤ at
    → at < oldest + w
    → IsOrdered oldest now ts
    → prune_window ts at w ≡ ts
unfolding prune_window
prune_window-id now at w oldest [] h k o = refl
prune_window-id now at w oldest (t ∷ ts) h k o =
    ground (arith, prune_window-id now at w t ts h (omega arith) o.2)

IsOrdered-weaken :
    (from t last : ℕ) (ts : List ℕ) → from ≤ t → IsOrdered t last ts → IsOrdered from last ts
IsOrdered-weaken from t last [] h o = tt
IsOrdered-weaken from t last (x ∷ ts) h o = (omega arith, o.1, o.2)

-- What stays in the window is still ordered.
prune_window-IsOrdered :
    (from last now w : ℕ) (ts : List ℕ)
    → IsOrdered from last ts
    → IsOrdered from last (prune_window ts now w)
unfolding prune_window
prune_window-IsOrdered from last now w [] o = tt
prune_window-IsOrdered from last now w (t ∷ ts) o = ground (
  arith,
  prune_window-IsOrdered t last now w ts o.2,
  IsOrdered-weaken from t last (prune_window ts now w) o.0,
)

IsOrdered-later :
    (from last now : ℕ) (ts : List ℕ) → last ≤ now → IsOrdered from last ts → IsOrdered from now ts
IsOrdered-later from last now [] h o = tt
IsOrdered-later from last now (t ∷ ts) h o = (o.0, omega arith, IsOrdered-later t last now ts h o.2)

prune_window-head :
    (now w o : ℕ) (ts rest : List ℕ) → prune_window ts now w ≡ o ∷ rest → (o ≤ now) × (now < o + w)
unfolding prune_window
prune_window-head now w o [] rest e = cc
prune_window-head now w o (t ∷ ts) rest e = ground (arith, prune_window-head now w o ts rest)

-- A full window refuses until its oldest entry has left it.
full_until :
    (limit w now at o : ℕ) (rest : List ℕ)
    → IsOrdered o now (o ∷ rest)
    → length (o ∷ rest) ≡ limit
    → now ≤ at
    → (window_allow (o ∷ rest) limit w at).accepted ≡ leb (o + w) at
unfolding window_allow
full_until limit w now at o rest ord full later = elim (Bool-cases (leb (o + w) at)) [
  | inl out ↦ rw out (unfold prune_window in ground (arith, length-prune_window-le at w rest))
  | inr inside ↦
      rw (inside, prune_window-id now at w o (o ∷ rest) later (ground arith) ord) (ground arith)
]

refused_window :
    (limit w now : ℕ) (p : List ℕ)
    → (decide p limit w now).accepted ≡ false
    → ((decide p limit w now).window ≡ p) × (limit ≤ length p)
unfolding decide
refused_window limit w now p h = ground arith

refused_retry :
    (limit w now o : ℕ) (rest : List ℕ)
    → limit ≤ length (o ∷ rest)
    → o ≤ now
    → now < o + w
    → now + (decide (o ∷ rest) limit w now).retry_after_ms ≡ o + w
unfolding decide
refused_retry limit w now o rest h k l = ground arith

decide_retry :
    (limit w now at : ℕ) (p : List ℕ)
    → 0 < limit
    → length p ≤ limit
    → IsOrdered 0 now p
    → ((o : ℕ) (rest : List ℕ) → p ≡ o ∷ rest → (o ≤ now) × (now < o + w))
    → (decide p limit w now).accepted ≡ false
    → now ≤ at
    → (window_allow (decide p limit w now).window limit w at).accepted
      ≡ leb (now + (decide p limit w now).retry_after_ms) at
decide_retry limit w now at [] pos len ord head refused later =
    absurd (omega (arith, (refused_window limit w now [] refused).1))
decide_retry limit w now at (o ∷ rest) pos len ord head refused later =
    let full = refused_window limit w now (o ∷ rest) refused in
    let h = head o rest refl in
    rw (full.0, refused_retry limit w now o rest full.1 h.0 h.1)
      (full_until limit w now at o rest (omega arith, ord.1, ord.2) (omega arith) later)

-- After a refusal, over an ordered window with no more entries than the limit: a later call, with
-- none in between, is accepted exactly from `now + *retry_after_ms` on.
pub refusal_retry :
    (limit w last now at : ℕ) (ts : List ℕ)
    → 0 < limit
    → length ts ≤ limit
    → IsOrdered 0 last ts
    → last ≤ now
    → (window_allow ts limit w now).accepted ≡ false
    → now ≤ at
    → (window_allow (window_allow ts limit w now).window limit w at).accepted
      ≡ leb (now + (window_allow ts limit w now).retry_after_ms) at
refusal_retry limit w last now at ts pos len ord order refused later =
    unfold window_allow in
    decide_retry limit w now at (prune_window ts now w) pos
      (omega (arith, length-prune_window-le now w ts))
      (prune_window-IsOrdered 0 now now w ts (IsOrdered-later 0 last now ts order ord))
      (λ o rest e. prune_window-head now w o ts rest e) refused later

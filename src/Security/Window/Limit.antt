-- ===== src/Security/Window/Limit.antt =====
-- The rolling limit of `window_allow`: over any history, no window of time holds more accepted
-- events than the limit.
use telnet_tls_server.Common.{
  ℕ, ◌+◌, ◌≤◌, ◌<◌, ◌≡◌, refl, ltb, leb, if◌then◌else◌, Bool, List, [], ◌∷◌, ◌++◌, length,
  length-append, arith, Bool-cases, inl, inr, All, leb→le,
}
use telnet_tls_server.Security.Window.{in_window, prune_window, window_allow}

-- How many of the events lie in the window that ends at `at`.
abbrev pub count_in : ℕ → ℕ → List ℕ → ℕ
count_in at window_ms [] = 0
count_in at window_ms (t ∷ ts) =
    (if in_window at window_ms t then 1 else 0) + count_in at window_ms ts

-- The accepted events of a history of calls, newest first, and the window after it.
pub record History : Type 0 where
  pub accepted : List ℕ
  pub window : List ℕ

abbrev pub logged : List ℕ → ℕ → Bool → List ℕ
logged log now ok = if ok then now ∷ log else log

unfoldable pub call : ℕ → ℕ → ℕ → History → History
call limit window_ms now h =
    let v = window_allow h.window limit window_ms now in
    record { accepted = logged h.accepted now v.accepted; window = v.window }

-- The calls of `window_allow` on one window at these times, the latest last.
pub history : ℕ → ℕ → List ℕ → History
history limit window_ms [] = record { accepted = []; window = [] }
history limit window_ms (now ∷ earlier) = call limit window_ms now (history limit window_ms earlier)

-- Times fall along the list.
abbrev pub IsMonotone : ℕ → List ℕ → Type 0
IsMonotone last [] = Unit {0}
IsMonotone last (t ∷ ts) = (t ≤ last) × IsMonotone t ts

count_in-le-length : (at w : ℕ) (ts : List ℕ) → count_in at w ts ≤ length ts
count_in-le-length at w [] = omega arith
count_in-le-length at w (t ∷ ts) = ground (arith, count_in-le-length at w ts)

count_in-append :
    (at w : ℕ) (xs ys : List ℕ) → count_in at w (xs ++ ys) ≡ count_in at w xs + count_in at w ys
count_in-append at w [] ys = omega arith
count_in-append at w (x ∷ xs) ys = omega (arith, count_in-append at w xs ys)

-- What is pruned has left every later window too, of events that are not in the future.
count_in-prune :
    (at now w : ℕ) (ts : List ℕ)
    → now ≤ at
    → All (λ t. t ≤ now) ts
    → count_in at w (prune_window ts now w) ≡ count_in at w ts
unfolding prune_window
count_in-prune at now w [] h a = refl
count_in-prune at now w (t ∷ ts) h a = ground (arith, count_in-prune at now w ts h a.1)

prune_window-All :
    (bound now w : ℕ) (ts : List ℕ)
    → All (λ t. t ≤ bound) ts
    → All (λ t. t ≤ bound) (prune_window ts now w)
unfolding prune_window
prune_window-All bound now w [] a = tt
prune_window-All bound now w (t ∷ ts) a = ground (arith, prune_window-All bound now w ts a.1)

All-mono : (m n : ℕ) (ts : List ℕ) → m ≤ n → All (λ t. t ≤ m) ts → All (λ t. t ≤ n) ts
All-mono m n [] h a = tt
All-mono m n (t ∷ ts) h a = (omega arith, All-mono m n ts h a.1)

All-snoc : (n : ℕ) (ts : List ℕ) → All (λ t. t ≤ n) ts → All (λ t. t ≤ n) (ts ++ n ∷ [])
All-snoc n [] a = (omega arith, tt)
All-snoc n (t ∷ ts) a = (a.0, All-snoc n ts a.1)

pub length-prune_window-le : (now w : ℕ) (ts : List ℕ) → length (prune_window ts now w) ≤ length ts
unfolding prune_window
length-prune_window-le now w [] = omega arith
length-prune_window-le now w (t ∷ ts) = ground (arith, length-prune_window-le now w ts)

pub record Sound (limit w last : ℕ) (h : History) : Type 0 where
  pub past : All (λ t. t ≤ last) h.window
  pub bounded : length h.window ≤ limit
  pub counted : (at : ℕ) → last ≤ at → count_in at w h.accepted ≡ count_in at w h.window
  pub limited : (at : ℕ) → count_in at w h.accepted ≤ limit

pub Sound-later :
    (limit w last now : ℕ) (h : History) → last ≤ now → Sound limit w last h → Sound limit w now h
Sound-later limit w last now h later s = record {
  past = All-mono last now h.window later s.past;
  bounded = s.bounded;
  counted = λ at le. s.counted at (omega arith);
  limited = s.limited;
}

pub Sound-empty : (limit w last : ℕ) → Sound limit w last (record { accepted = []; window = [] })
Sound-empty limit w last = record {
  past = tt;
  bounded = omega arith;
  counted = λ at le. refl;
  limited = λ at. omega arith;
}

module _ (limit w now last : ℕ) (h : History) (s : Sound limit w last h) (later : last ≤ now) where
  pruned : List ℕ
  pruned = prune_window h.window now w

  pruned_past : All (λ t. t ≤ now) pruned
  unfolding pruned
  pruned_past = prune_window-All now now w h.window (All-mono last now h.window later s.past)

  pruned_counted : (at : ℕ) → now ≤ at → count_in at w h.accepted ≡ count_in at w pruned
  unfolding pruned
  pruned_counted at le = omega (
    arith,
    s.counted at (omega arith),
    count_in-prune at now w h.window le (All-mono last now h.window later s.past),
  )

  refused_Sound : Sound limit w now (record { accepted = h.accepted; window = pruned })
  unfolding pruned
  refused_Sound = record {
    past = pruned_past;
    bounded = omega (arith, s.bounded, length-prune_window-le now w h.window);
    counted = pruned_counted;
    limited = s.limited;
  }

  accepted_counted :
      (at : ℕ) → now ≤ at → count_in at w (now ∷ h.accepted) ≡ count_in at w (pruned ++ now ∷ [])
  accepted_counted at le =
      omega (arith, pruned_counted at le, count_in-append at w pruned (now ∷ []))

  accepted_limited : length pruned < limit → (at : ℕ) → count_in at w (now ∷ h.accepted) ≤ limit
  accepted_limited room at = elim (Bool-cases (leb now at)) [
    | inl le ↦ omega (
      arith,
      accepted_counted at (leb→le now at le),
      count_in-le-length at w (pruned ++ now ∷ []),
      length-append pruned (now ∷ []),
    )
    | inr gt ↦ ground (arith, s.limited at)
  ]

  accepted_Sound :
      length pruned < limit
      → Sound limit w now (record { accepted = now ∷ h.accepted; window = pruned ++ now ∷ [] })
  accepted_Sound room = record {
    past = All-snoc now pruned pruned_past;
    bounded = omega (arith, length-append pruned (now ∷ []));
    counted = accepted_counted;
    limited = accepted_limited room;
  }

  pub call-Sound : Sound limit w now (call limit w now h)
  unfolding call window_allow pruned
  call-Sound = elim (Bool-cases (leb limit (length pruned))) [
    | inl full ↦ rw full refused_Sound
    | inr room ↦ rw room (accepted_Sound (ground arith))
  ]

history-Sound :
    (limit w now : ℕ) (ts : List ℕ) → IsMonotone now ts → Sound limit w now (history limit w ts)
unfolding history
history-Sound limit w now [] m = Sound-empty limit w now
history-Sound limit w now (t ∷ ts) m =
    Sound-later limit w t now _ m.0
      (call-Sound limit w t t (history limit w ts) (history-Sound limit w t ts m.1) (omega arith))

length-prune_window : (now w : ℕ) (ts : List ℕ) → length (prune_window ts now w) ≡ count_in now w ts
unfolding prune_window
length-prune_window now w [] = refl
length-prune_window now w (t ∷ ts) = ground (arith, length-prune_window now w ts)

-- Over calls at times that never go back: no window of time, wherever it ends, holds more
-- accepted events than the limit, and the array never holds more entries than the limit.
pub history_limit :
    (limit w last at : ℕ) (ts : List ℕ)
    → IsMonotone last ts
    → (count_in at w (history limit w ts).accepted ≤ limit)
      × (length (history limit w ts).window ≤ limit)
history_limit limit w last at ts m =
    let s = history-Sound limit w last ts m in (s.limited at, s.bounded)

-- Over calls at times that never go back: the next call is accepted exactly when fewer events
-- than the limit were accepted in the window that ends at its time.
pub history_exact :
    (limit w now : ℕ) (ts : List ℕ)
    → IsMonotone now ts
    → (window_allow (history limit w ts).window limit w now).accepted
      ≡ ltb (count_in now w (history limit w ts).accepted) limit
unfolding window_allow
history_exact limit w now ts m =
    let s = history-Sound limit w now ts m in
    ground
      (arith, s.counted now (omega arith), length-prune_window now w (history limit w ts).window)

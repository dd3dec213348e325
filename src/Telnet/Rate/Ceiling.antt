-- ===== src/Telnet/Rate/Ceiling.antt =====
-- How much the fixed windows grant.
use telnet_tls_server.Common.{
  ℕ, ◌+◌, ◌-◌, ◌*◌, ◌≤◌, ◌≡◌, refl, sym, ap, ◌∙◌, ltb, leb, leb→le, if◌then◌else◌, Bool, true,
  false, ◌||◌, ◌&&◌, List, [], ◌∷◌, arith, Bool-cases, inl, inr,
}
use telnet_tls_server.Telnet.Rate.{RateWindow, expired, renewed, consume, rate_consume}

-- What a call grants: the amount, or nothing.
abbrev granted : RateWindow × Bool → ℕ → ℕ
granted r amount = if r.1 then amount else 0

-- The part of a grant at `now` that counts from time `t` for `window_ms`.
abbrev counted : ℕ → ℕ → ℕ → ℕ → ℕ
counted t window_ms now amount = if leb t now && ltb now (t + window_ms) then amount else 0

-- What calls at the given times, for the given amounts, are granted from time `t` for `window_ms`.
abbrev pub spent : ℕ → ℕ → ℕ → RateWindow → List (ℕ × ℕ) → ℕ
spent limit window_ms t w [] = 0
spent limit window_ms t w ((now, amount) ∷ calls) =
    let r = rate_consume w amount limit window_ms now in
    counted t window_ms now (granted r amount) + spent limit window_ms t r.0 calls

-- Times that do not go back, from the given one on.
abbrev pub Ordered : ℕ → List (ℕ × ℕ) → Type 0
Ordered from [] = Unit
Ordered from ((now, amount) ∷ calls) = from ≤ now × Ordered now calls

-- A call in a window, with what it grants.
record Consumes (v : RateWindow) (amount limit : ℕ) : Type 0 where
  same_start : (consume v amount limit).0.started_ms ≡ v.started_ms
  more_used : (consume v amount limit).0.used ≡ v.used + granted (consume v amount limit) amount
  bounded : (consume v amount limit).0.used ≤ limit

consume-Consumes : (v : RateWindow) (amount limit : ℕ) → v.used ≤ limit → Consumes v amount limit
unfolding consume
consume-Consumes v amount limit h =
    elim (Bool-cases (ltb limit amount || ltb (limit - amount) v.used)) [
      | inl e ↦ record {
        same_start = ground arith;
        more_used = ground arith;
        bounded = ground arith;
      }
      | inr e ↦ record {
        same_start = ground arith;
        more_used = ground arith;
        bounded = ground arith;
      }
    ]

renewed-expired :
    (w : RateWindow) (window_ms now : ℕ)
    → expired w window_ms now ≡ true
    → renewed w window_ms now ≡ record { started_ms = now; used = 0 }
unfolding renewed
renewed-expired w window_ms now e = rw e refl

renewed-same :
    (w : RateWindow) (window_ms now : ℕ)
    → expired w window_ms now ≡ false
    → renewed w window_ms now ≡ w
unfolding renewed
renewed-same w window_ms now e = ground arith

abbrev opened : ℕ → RateWindow
opened now = record { started_ms = now; used = 0 }

-- A window that starts now is as good as renewed.
renewed-fresh : (window_ms now : ℕ) → renewed (opened now) window_ms now ≡ opened now
unfolding renewed
renewed-fresh window_ms now = elim (Bool-cases (expired (opened now) window_ms now)) [
  | inl e ↦ renewed-expired (opened now) window_ms now e
  | inr e ↦ renewed-same (opened now) window_ms now e
]

expired_late :
    (w : RateWindow) (window_ms t now : ℕ)
    → 1 ≤ w.started_ms
    → t ≤ w.started_ms
    → w.started_ms ≤ now
    → expired w window_ms now ≡ true
    → t + window_ms ≤ now
expired_late w window_ms t now one start le e = ground arith

counted_late :
    (t window_ms now amount : ℕ) → t + window_ms ≤ now → counted t window_ms now amount ≡ 0
counted_late t window_ms now amount past = ground arith

counted_early :
    (t window_ms now amount : ℕ) → leb t now ≡ false → counted t window_ms now amount ≡ 0
counted_early t window_ms now amount before = ground arith

-- A call within the window, and a call that starts a window.
spent-within :
    (limit window_ms t now amount : ℕ) (w : RateWindow) (calls : List (ℕ × ℕ))
    → expired w window_ms now ≡ false
    → spent limit window_ms t w ((now, amount) ∷ calls)
      ≡ counted t window_ms now (granted (consume w amount limit) amount)
        + spent limit window_ms t (consume w amount limit).0 calls
unfolding rate_consume
spent-within limit window_ms t now amount w calls e =
    ap
      (λ v.
        counted t window_ms now (granted (consume v amount limit) amount)
        + spent limit window_ms t (consume v amount limit).0 calls)
      (renewed-same w window_ms now e)

spent-renewed :
    (limit window_ms t now amount : ℕ) (w : RateWindow) (calls : List (ℕ × ℕ))
    → expired w window_ms now ≡ true
    → spent limit window_ms t w ((now, amount) ∷ calls)
      ≡ spent limit window_ms t (opened now) ((now, amount) ∷ calls)
unfolding rate_consume renewed
spent-renewed limit window_ms t now amount w calls e =
    ap
      (λ v.
        counted t window_ms now (granted (consume v amount limit) amount)
        + spent limit window_ms t (consume v amount limit).0 calls)
      (renewed-expired w window_ms now e ∙ sym (renewed-fresh window_ms now))

counted_le : (t window_ms now amount : ℕ) → counted t window_ms now amount ≤ amount
counted_le t window_ms now amount = ground arith

-- Nothing counts after the span.
spent_late :
    (limit window_ms t from : ℕ) (w : RateWindow) (calls : List (ℕ × ℕ))
    → Ordered from calls
    → t + window_ms ≤ from
    → spent limit window_ms t w calls ≡ 0
spent_late limit window_ms t from w [] o past = refl
spent_late limit window_ms t from w ((now, amount) ∷ calls) (le, o) past =
    let r = rate_consume w amount limit window_ms now in
    let rest = spent_late limit window_ms t now r.0 calls o (omega arith) in
    let outside = counted_late t window_ms now (granted r amount) (omega arith) in omega arith

-- From the span's start on within one window.
spent_within :
    (limit window_ms t from : ℕ) (w : RateWindow) (calls : List (ℕ × ℕ))
    → 1 ≤ w.started_ms
    → t ≤ w.started_ms
    → w.started_ms ≤ from
    → w.used ≤ limit
    → Ordered from calls
    → spent limit window_ms t w calls + w.used ≤ limit
spent_within limit window_ms t from w [] one start in_order u o = omega arith
spent_within limit window_ms t from w ((now, amount) ∷ calls) one start in_order u (le, o) =
    elim (Bool-cases (expired w window_ms now)) [
      | inl e ↦
          let none =
            spent_late limit window_ms t now w ((now, amount) ∷ calls) ((omega arith), o)
              (expired_late w window_ms t now one start (omega arith) e) in
          omega arith
      | inr e ↦
          let call = consume-Consumes w amount limit u in
          let v = (consume w amount limit).0 in
          let same = call.same_start in
          let more = call.more_used in
          let rest =
            spent_within limit window_ms t now v calls (omega arith) (omega arith) (omega arith)
              call.bounded o in
          let step = spent-within limit window_ms t now amount w calls e in
          let part = counted_le t window_ms now (granted (consume w amount limit) amount) in
          omega arith
    ]

-- From the span's start on.
spent_from :
    (limit window_ms t from : ℕ) (w : RateWindow) (calls : List (ℕ × ℕ))
    → 1 ≤ from
    → t ≤ from
    → w.used ≤ limit
    → Ordered from calls
    → spent limit window_ms t w calls + w.used ≤ limit + limit
spent_from limit window_ms t from w [] one start u o = omega arith
spent_from limit window_ms t from w ((now, amount) ∷ calls) one start u (le, o) =
    elim (Bool-cases (expired w window_ms now)) [
      | inl e ↦
          let step = spent-renewed limit window_ms t now amount w calls e in
          let new =
            spent_within limit window_ms t now (opened now) ((now, amount) ∷ calls) (omega arith)
              (omega arith) (omega arith) (omega arith) ((omega arith), o) in
          omega arith
      | inr e ↦
          let call = consume-Consumes w amount limit u in
          let v = (consume w amount limit).0 in
          let more = call.more_used in
          let rest =
            spent_from limit window_ms t now v calls (omega arith) (omega arith) call.bounded o in
          let step = spent-within limit window_ms t now amount w calls e in
          let part = counted_le t window_ms now (granted (consume w amount limit) amount) in
          omega arith
    ]

renewed_used :
    (limit window_ms now : ℕ) (w : RateWindow)
    → w.used ≤ limit
    → (renewed w window_ms now).used ≤ limit
unfolding renewed
renewed_used limit window_ms now w u = ground arith

rate_consume_used :
    (limit window_ms now amount : ℕ) (w : RateWindow)
    → w.used ≤ limit
    → (rate_consume w amount limit window_ms now).0.used ≤ limit
unfolding rate_consume
rate_consume_used limit window_ms now amount w u =
    (consume-Consumes (renewed w window_ms now) amount limit
      (renewed_used limit window_ms now w u)).bounded

-- From a window within its limit, calls of `rate_consume` at times from 1 on that do not go back
-- are granted at most twice the limit in any span of the window's length.
pub rate_consume_ceiling :
    (limit window_ms t from : ℕ) (w : RateWindow) (calls : List (ℕ × ℕ))
    → 1 ≤ from
    → w.used ≤ limit
    → Ordered from calls
    → spent limit window_ms t w calls ≤ 2 * limit
rate_consume_ceiling limit window_ms t from w [] one u o = omega arith
rate_consume_ceiling limit window_ms t from w ((now, amount) ∷ calls) one u (le, o) =
    elim (Bool-cases (leb t now)) [
      | inl e ↦
          let all =
            spent_from limit window_ms t now w ((now, amount) ∷ calls) (omega arith)
              (leb→le t now e) u ((omega arith), o) in
          omega arith
      | inr e ↦
          let r = rate_consume w amount limit window_ms now in
          let rest =
            rate_consume_ceiling limit window_ms t now r.0 calls (omega arith)
              (rate_consume_used limit window_ms now amount w u) o in
          let outside = counted_early t window_ms now (granted r amount) e in omega arith
    ]

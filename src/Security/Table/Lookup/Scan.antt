-- ===== src/Security/Table/Lookup/Scan.antt =====
-- How the search of `peer_record_for` and `account_record_for` ends.
use telnet_tls_server.Common.{
  ℕ, zero, suc, ◌+◌, ◌≤◌, ◌<◌, ◌≡◌, ◌≢◌, refl, ap, ◌∙◌, ltb, ◌==◌, if◌then◌else◌, Bool, true, false,
  ◌||◌, List, [], ◌∷◌, same, Bytes, arith, length, ◌⊎◌, inl, inr, Bool-cases,
}
use telnet_tls_server.Security.Table.{Slot, Found, hit, miss, scan, is_free}
use telnet_tls_server.Security.Table.Lookup.{IsFirst, IsAbsent}

pub free-same : (k key : Bytes) → is_free k ≡ true → key ≢ [] → same k key ≡ false
unfolding is_free same
free-same [] [] f h = absurd (h refl)
free-same [] (c ∷ cs) f h = refl
free-same (x ∷ xs) key f h = cc

module _ {ℓ} {A : Type ℓ} where
  abbrev pub has_free : List (Slot A) → Bool
  has_free [] = false
  has_free (r ∷ rs) = is_free r.key || has_free rs

  abbrev pub free_at : List (Slot A) → ℕ → Bool
  free_at [] k = false
  free_at (r ∷ rs) zero = is_free r.key
  free_at (r ∷ rs) (suc k) = free_at rs k

module _ {ℓ} {A : Type ℓ} (size : ℕ) (key : Bytes) where
  abbrev pub Hits : List (Slot A) → ℕ → Found → Type 0
  Hits rs i f = (k : ℕ) × (f ≡ hit (i + k)) × IsFirst key rs k

  abbrev pub Misses : List (Slot A) → Found → Type 0
  Misses rs f = (j : ℕ) × (f ≡ miss j) × (j < size) × IsAbsent key rs

  -- One more record in front that has another key.
  skip :
      (r : Slot A) (rs : List (Slot A)) (i : ℕ) (g f : Found)
      → g ≡ f
      → same r.key key ≡ false
      → Hits rs (suc i) f ⊎ Misses rs f
      → Hits (r ∷ rs) i g ⊎ Misses (r ∷ rs) g
  skip r rs i g f q h (inl (k, e, at)) = inl (suc k, q ∙ e ∙ ap hit (omega arith), (h, at))
  skip r rs i g f q h (inr (j, e, b, a)) = inr (j, q ∙ e, b, (h, a))

  pub scan-cases :
      (rs : List (Slot A)) (i e o s : ℕ)
      → key ≢ []
      → i + length rs ≤ size
      → (e ≡ size) ⊎ (e < size)
      → o < size
      → Hits rs i (scan size key rs i e o s) ⊎ Misses rs (scan size key rs i e o s)
  unfolding scan
  scan-cases [] i e o s n b c d = inr ((if e == size then o else e), refl, ground arith, tt)
  scan-cases (r ∷ rs) i e o s n b c d = elim (Bool-cases (is_free r.key)) [
    | inl f ↦
        skip r rs i _ _ (ground arith) (free-same r.key key f n)
          (scan-cases rs (suc i) (if e == size then i else e) o s n (omega arith) (ground arith) d)
    | inr f ↦ elim (Bool-cases (same r.key key)) [
      | inl t ↦ inl (zero, ground arith, t)
      | inr t ↦ elim (Bool-cases (ltb r.last_seen_ms s)) [
        | inl l ↦
            skip r rs i _ _ (ground arith) t
              (scan-cases rs (suc i) e i r.last_seen_ms n (omega arith) c (omega arith))
        | inr l ↦ skip r rs i _ _ (ground arith) t (scan-cases rs (suc i) e o s n (omega arith) c d)
      ]
    ]
  ]

  -- The first free record seen is kept to the end.
  scan_keeps_empty :
      (rs : List (Slot A)) (i e o s j : ℕ) → e ≢ size → scan size key rs i e o s ≡ miss j → j ≡ e
  unfolding scan
  scan_keeps_empty [] i e o s j h m = ground arith
  scan_keeps_empty (r ∷ rs) i e o s j h m = ground (
    arith,
    scan_keeps_empty rs (suc i) e o s j h,
    scan_keeps_empty rs (suc i) e i r.last_seen_ms j h,
  )

  abbrev FreeMiss : List (Slot A) → ℕ → ℕ → Type 0
  FreeMiss rs i j = (k : ℕ) × (j ≡ i + k) × (free_at rs k ≡ true)

  skip_free :
      (r : Slot A) (rs : List (Slot A)) (i j : ℕ) → FreeMiss rs (suc i) j → FreeMiss (r ∷ rs) i j
  skip_free r rs i j (k, e, f) = (suc k, omega arith, f)

  -- With a free record among those left, and none before, a miss is at a free record.
  pub scan_free :
      (rs : List (Slot A)) (i o s j : ℕ)
      → i + length rs ≤ size
      → has_free rs ≡ true
      → scan size key rs i size o s ≡ miss j
      → FreeMiss rs i j
  unfolding scan
  scan_free [] i o s j b f m = cc
  scan_free (r ∷ rs) i o s j b f m = elim (Bool-cases (is_free r.key)) [
    | inl t ↦
        (zero, omega (arith, scan_keeps_empty rs (suc i) i o s j (omega arith) (ground arith)), t)
    | inr t ↦ elim (Bool-cases (ltb r.last_seen_ms s)) [
      | inl l ↦
          skip_free r rs i j
            (scan_free rs (suc i) i r.last_seen_ms j (omega arith) (ground arith) (ground arith))
      | inr l ↦
          skip_free r rs i j
            (scan_free rs (suc i) o s j (omega arith) (ground arith) (ground arith))
    ]
  ]

-- ===== src/Security/Policy/Backoff.antt =====
-- The delays of src/security_policy.c against closed forms.
use telnet_tls_server.Common.{
  ℕ, zero, suc, ◌+◌, ◌-◌, ◌*◌, ◌≡◌, refl, ltb, leb, if◌then◌else◌, false, arith, ap, sym, ◌∙◌,
}
use telnet_tls_server.Security.Policy.{peer_backoff_ms, account_backoff_ms}

-- One second from the third failure on, doubled with each further one, one minute at most.
pub backoff_spec : ℕ → ℕ
backoff_spec zero = 1000
backoff_spec (suc n) = if leb (2 * backoff_spec n) 60000 then 2 * backoff_spec n else 60000

backoff_spec_late : (n : ℕ) → backoff_spec (n + 6) ≡ 60000
unfolding backoff_spec
backoff_spec_late zero = refl
backoff_spec_late (suc n) =
    let e : suc n + 6 ≡ suc (n + 6) = omega arith in rw (e, backoff_spec_late n) refl

peer_backoff_late : (n : ℕ) → peer_backoff_ms (n + 9) ≡ 60000
unfolding peer_backoff_ms
peer_backoff_late n =
    let early : ltb (n + 9) 3 ≡ false = ground arith in
    let shift : (if ltb 6 (n + 9 - 3) then 6 else n + 9 - 3) ≡ 6 = ground arith in
    rw (early, shift) refl

peer_backoff-spec : (n : ℕ) → peer_backoff_ms (n + 3) ≡ backoff_spec n
unfolding peer_backoff_ms backoff_spec
peer_backoff-spec zero = refl
peer_backoff-spec (suc zero) = refl
peer_backoff-spec (suc (suc zero)) = refl
peer_backoff-spec (suc (suc (suc zero))) = refl
peer_backoff-spec (suc (suc (suc (suc zero)))) = refl
peer_backoff-spec (suc (suc (suc (suc (suc zero))))) = refl
peer_backoff-spec (suc (suc (suc (suc (suc (suc n)))))) =
    ap peer_backoff_ms {x = suc (suc (suc (suc (suc (suc n))))) + 3} {y = n + 9} (omega arith)
    ∙ peer_backoff_late n
    ∙ sym (backoff_spec_late n)
    ∙ ap backoff_spec {x = n + 6} {y = suc (suc (suc (suc (suc (suc n)))))} (omega arith)

-- Two failures of a peer cost nothing; from the third on the delay is one second, doubled with
-- every further failure up to one minute. An account is locked for five minutes from its third
-- failure on.
pub backoff_lem :
    (n : ℕ)
    → (peer_backoff_ms 0 ≡ 0)
      × (peer_backoff_ms 1 ≡ 0)
      × (peer_backoff_ms 2 ≡ 0)
      × (peer_backoff_ms (n + 3) ≡ backoff_spec n)
      × (account_backoff_ms n ≡ (if ltb n 3 then 0 else 300000))
unfolding peer_backoff_ms account_backoff_ms
backoff_lem n = (refl, refl, refl, peer_backoff-spec n, ground arith)

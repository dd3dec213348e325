-- ===== src/Security/Table/Lookup.antt =====
-- The tables of src/security_policy.c seen as maps from keys to bodies.
pub mod Scan
pub mod Record
use telnet_tls_server.Common.{
  ℕ, zero, suc, ◌≡◌, refl, if◌then◌else◌, Bool, true, false, List, [], ◌∷◌, same, Bytes, arith,
  length, ap, All,
}
use telnet_tls_server.Security.Table.{Slot, touch, put_body, body_at}

module _ {ℓ} {A : Type ℓ} where
  -- The body under a key; `blank` for a key that has no record.
  unfoldable pub lookup : A → Bytes → List (Slot A) → A
  unfolding same
  lookup blank key [] = blank
  lookup blank key (r ∷ rs) = if same r.key key then r.body else lookup blank key rs

  -- The first record with the key stands at this index.
  abbrev pub IsFirst : Bytes → List (Slot A) → ℕ → Type 0
  IsFirst key [] k = ⊥
  IsFirst key (r ∷ rs) zero = same r.key key ≡ true
  IsFirst key (r ∷ rs) (suc k) = (same r.key key ≡ false) × IsFirst key rs k

  abbrev pub IsAbsent : Bytes → List (Slot A) → Type 0
  IsAbsent key [] = Unit {0}
  IsAbsent key (r ∷ rs) = (same r.key key ≡ false) × IsAbsent key rs

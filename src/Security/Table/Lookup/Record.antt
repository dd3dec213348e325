-- ===== src/Security/Table/Lookup/Record.antt =====
-- `peer_record_for` and `account_record_for` refine a map: they find the key's body, or a cleared
-- one, and a write through the pointer returned changes what the key maps to.
use telnet_tls_server.Common.{
  ℕ, zero, suc, ◌<◌, ◌≡◌, ◌≢◌, refl, sym, ap, ◌∙◌, true, false, List, [], ◌∷◌, same, same_refl,
  same→eq, Bytes, arith, length, set, inl, inr, Bool-cases,
}
use telnet_tls_server.Security.Table.{Slot, touch, put_body, body_at}
use telnet_tls_server.Security.Table.Lookup.{lookup, IsFirst, IsAbsent}
use telnet_tls_server.Security.Table.Lookup.Scan.{free_at, free-same}

same-ne : (k key other : Bytes) → same k key ≡ true → key ≢ other → same k other ≡ false
same-ne k key other h n = elim (Bool-cases (same k other)) [
  | inl t ↦ absurd (n (sym (same→eq k key h) ∙ same→eq k other t))
  | inr f ↦ f
]

module _ {ℓ} {A : Type ℓ} where
  pub length-touch : (now : ℕ) (t : List (Slot A)) (k : ℕ) → length (touch now t k) ≡ length t
  unfolding touch
  length-touch now [] k = refl
  length-touch now (r ∷ rs) zero = refl
  length-touch now (r ∷ rs) (suc k) = ap suc (length-touch now rs k)

  pub length-put_body : (t : List (Slot A)) (k : ℕ) (b : A) → length (put_body t k b) ≡ length t
  unfolding put_body
  length-put_body [] k b = refl
  length-put_body (r ∷ rs) zero b = refl
  length-put_body (r ∷ rs) (suc k) b = ap suc (length-put_body rs k b)

  pub IsFirst-touch :
      (key : Bytes) (now : ℕ) (t : List (Slot A)) (k : ℕ)
      → IsFirst key t k
      → IsFirst key (touch now t k) k
  unfolding touch
  IsFirst-touch key now [] k h = h
  IsFirst-touch key now (r ∷ rs) zero h = h
  IsFirst-touch key now (r ∷ rs) (suc k) h = (h.0, IsFirst-touch key now rs k h.1)

  pub lookup-touch :
      (blank : A) (key : Bytes) (now : ℕ) (t : List (Slot A)) (k : ℕ)
      → lookup blank key (touch now t k) ≡ lookup blank key t
  unfolding touch lookup
  lookup-touch blank key now [] k = refl
  lookup-touch blank key now (r ∷ rs) zero = refl
  lookup-touch blank key now (r ∷ rs) (suc k) = rw (lookup-touch blank key now rs k) refl

  pub lookup-absent :
      (blank : A) (key : Bytes) (t : List (Slot A)) → IsAbsent key t → lookup blank key t ≡ blank
  unfolding lookup
  lookup-absent blank key [] h = refl
  lookup-absent blank key (r ∷ rs) h = rw h.0 (lookup-absent blank key rs h.1)

  pub IsFirst-set :
      (key : Bytes) (t : List (Slot A)) (j : ℕ) (r : Slot A)
      → j < length t
      → IsAbsent key t
      → r.key ≡ key
      → IsFirst key (set t j r) j
  IsFirst-set key [] j r b a e = absurd (omega arith)
  IsFirst-set key (x ∷ xs) zero r b a e = rw e (same_refl key)
  IsFirst-set key (x ∷ xs) (suc j) r b a e = (a.0, IsFirst-set key xs j r (omega arith) a.1 e)

  -- A new record over a free one, or any record with another key, hides no other key.
  pub lookup-set_free :
      (blank : A) (other : Bytes) (t : List (Slot A)) (j : ℕ) (r : Slot A)
      → other ≢ []
      → free_at t j ≡ true
      → r.key ≢ other
      → lookup blank other (set t j r) ≡ lookup blank other t
  unfolding lookup
  lookup-set_free blank other [] j r n f e = refl
  lookup-set_free blank other (x ∷ xs) zero r n f e =
      rw (same-ne r.key r.key other (same_refl r.key) e, free-same x.key other f n) refl
  lookup-set_free blank other (x ∷ xs) (suc j) r n f e =
      rw (lookup-set_free blank other xs j r n f e) refl

  pub lookup-IsFirst :
      (blank : A) (key : Bytes) (t : List (Slot A)) (k : ℕ)
      → IsFirst key t k
      → body_at blank t k ≡ lookup blank key t
  unfolding lookup body_at
  lookup-IsFirst blank key [] k h = absurd h
  lookup-IsFirst blank key (r ∷ rs) zero h = rw h refl
  lookup-IsFirst blank key (r ∷ rs) (suc k) h = rw h.0 (lookup-IsFirst blank key rs k h.1)

  pub lookup-put_body :
      (blank : A) (key : Bytes) (t : List (Slot A)) (k : ℕ) (b : A)
      → IsFirst key t k
      → lookup blank key (put_body t k b) ≡ b
  unfolding lookup put_body
  lookup-put_body blank key [] k b h = absurd h
  lookup-put_body blank key (r ∷ rs) zero b h = rw h refl
  lookup-put_body blank key (r ∷ rs) (suc k) b h = rw h.0 (lookup-put_body blank key rs k b h.1)

  pub lookup-put_body_ne :
      (blank : A) (key other : Bytes) (t : List (Slot A)) (k : ℕ) (b : A)
      → IsFirst key t k
      → key ≢ other
      → lookup blank other (put_body t k b) ≡ lookup blank other t
  unfolding lookup put_body
  lookup-put_body_ne blank key other [] k b h n = refl
  lookup-put_body_ne blank key other (r ∷ rs) zero b h n = rw (same-ne r.key key other h n) refl
  lookup-put_body_ne blank key other (r ∷ rs) (suc k) b h n =
      rw (lookup-put_body_ne blank key other rs k b h.1 n) refl

-- ===== src/Security/Table/Refine.antt =====
-- `record_for` refines a map: whatever the table holds, the record returned is the key's own, with
-- its body as before or cleared, and no other key is disturbed while there is room.
use telnet_tls_server.Common.{
  ℕ, zero, suc, ◌<◌, ◌≡◌, ◌≢◌, refl, sym, ap, ◌∙◌, Bool, true, false, ◌||◌, List, [], ◌∷◌, same,
  Bytes, arith, length, set, some, ◌⊎◌, inl, inr, length-set, subst,
}
use telnet_tls_server.Security.Keys.{copy_key}
use telnet_tls_server.Security.Table.{
  Slot, Found, hit, miss, scan, record_for, found_record, read, write, u64_max,
}
use telnet_tls_server.Security.Table.Lookup.{lookup, IsFirst, IsAbsent}
use telnet_tls_server.Security.Table.Lookup.Scan.{
  scan-cases, scan_free, has_free, free_at, Hits, Misses,
}
use telnet_tls_server.Security.Table.Lookup.Record.{
  length-touch, length-put_body, IsFirst-touch, lookup-touch, lookup-absent, IsFirst-set,
  lookup-set_free, lookup-IsFirst, lookup-put_body, lookup-put_body_ne,
}

-- The key has a record.
abbrev pub has_key {ℓ} : {A : Type ℓ} → Bytes → List (Slot A) → Bool
has_key key [] = false
has_key key (r ∷ rs) = same r.key key || has_key key rs

-- A key that can be found again: not empty, and copied whole.
pub record IsKey (key_bytes : ℕ) (key : Bytes) : Type 0 where
  pub ne_nil : key ≢ []
  pub fits : copy_key key_bytes (some key) ≡ key

module _ {ℓ} {A : Type ℓ} (blank : A) (size key_bytes : ℕ) (key : Bytes) (now : ℕ)
    (table : List (Slot A)) where
  abbrev fresh : Slot A
  fresh = record { key = copy_key key_bytes (some key); last_seen_ms = now; body = blank }

  abbrev result : Found → ℕ × List (Slot A)
  result f = found_record blank key_bytes key now table f

  module _ (is_key : IsKey key_bytes key) (sized : length table ≡ size) (pos : 0 < size) where
    outcome :
        Hits size key table 0 (scan size key table 0 size 0 u64_max)
        ⊎ Misses size key table (scan size key table 0 size 0 u64_max)
    outcome = scan-cases size key table 0 size 0 u64_max is_key.ne_nil (omega arith) (inl refl) pos

    located_hit :
        (f : Found) (k : ℕ)
        → f ≡ hit k
        → IsFirst key table k
        → IsFirst key (result f).1 (result f).0
    unfolding found_record
    located_hit f k e h = rw e (IsFirst-touch key now table k h)

    located_miss :
        (f : Found) (j : ℕ)
        → f ≡ miss j
        → j < size
        → IsAbsent key table
        → IsFirst key (result f).1 (result f).0
    unfolding found_record
    located_miss f j e b a = rw e (IsFirst-set key table j fresh (omega arith) a is_key.fits)

    -- The record returned is the first with the key.
    pub record_for-IsFirst :
        IsFirst key
          (record_for blank size key_bytes key now table).1
          (record_for blank size key_bytes key now table).0
    unfolding record_for
    record_for-IsFirst = elim outcome [
      | inl (k, e, h) ↦ located_hit _ k (e ∙ ap hit (omega arith)) h
      | inr (j, e, b, a) ↦ located_miss _ j e b a
    ]

    body_hit :
        (f : Found) (k : ℕ) → f ≡ hit k → lookup blank key (result f).1 ≡ lookup blank key table
    unfolding found_record
    body_hit f k e = rw e (lookup-touch blank key now table k)

    lookup-fresh :
        (t : List (Slot A)) (j : ℕ)
        → IsFirst key (set t j fresh) j
        → j < length t
        → lookup blank key (set t j fresh) ≡ blank
    unfolding lookup
    lookup-fresh [] j h b = absurd h
    lookup-fresh (r ∷ rs) zero h b = rw h refl
    lookup-fresh (r ∷ rs) (suc j) h b = rw h.0 (lookup-fresh rs j h.1 (omega arith))

    body_miss :
        (f : Found) (j : ℕ)
        → f ≡ miss j
        → j < size
        → IsAbsent key table
        → lookup blank key (result f).1 ≡ lookup blank key table
    unfolding found_record
    body_miss f j e b a = rw e (
        lookup-fresh table j (IsFirst-set key table j fresh (omega arith) a is_key.fits)
          (omega arith)
        ∙ sym (lookup-absent blank key table a))

    record_for-lookup :
        lookup blank key (record_for blank size key_bytes key now table).1 ≡ lookup blank key table
    unfolding record_for
    record_for-lookup = elim outcome [
      | inl (k, e, h) ↦ body_hit _ k (e ∙ ap hit (omega arith))
      | inr (j, e, b, a) ↦ body_miss _ j e b a
    ]

    -- The body behind the pointer is what the key maps to.
    pub read-record_for :
        read blank (record_for blank size key_bytes key now table) ≡ lookup blank key table
    unfolding read
    read-record_for = lookup-IsFirst blank key _ _ record_for-IsFirst ∙ record_for-lookup

    -- A write through the pointer sets what the key maps to.
    pub write-record_for :
        (b : A) → lookup blank key (write (record_for blank size key_bytes key now table) b) ≡ b
    unfolding write
    write-record_for b = lookup-put_body blank key _ _ b record_for-IsFirst

    module _ (other : Bytes) (other_ne : other ≢ []) (ne : key ≢ other) where
      other_hit :
          (f : Found) (k : ℕ)
          → f ≡ hit k
          → lookup blank other (result f).1 ≡ lookup blank other table
      unfolding found_record
      other_hit f k e = rw e (lookup-touch blank other now table k)

      other_miss :
          (f : Found) (j : ℕ)
          → f ≡ miss j
          → free_at table j ≡ true
          → lookup blank other (result f).1 ≡ lookup blank other table
      unfolding found_record
      other_miss f j e free =
          rw e (
            lookup-set_free blank other table j fresh other_ne free (λ q. ne (sym is_key.fits ∙ q)))

      absent-has_key : (t : List (Slot A)) → IsAbsent key t → has_key key t ≡ false
      absent-has_key [] a = refl
      absent-has_key (r ∷ rs) a = rw a.0 (absent-has_key rs a.1)

      record_for-other :
          (has_key key table || has_free table) ≡ true
          → lookup blank other (record_for blank size key_bytes key now table).1
            ≡ lookup blank other table
      unfolding record_for
      record_for-other room = elim outcome [
        | inl (k, e, h) ↦ other_hit _ k (e ∙ ap hit (omega arith))
        | inr (j, e, b, a) ↦
            let (k, q, free) =
              scan_free size key table 0 0 u64_max j (omega arith)
                (ground (arith, absent-has_key table a)) e in
            other_miss _ j e (subst (λ x. free_at table x ≡ true) (omega arith) free)
      ]

      -- Neither finding the record nor writing to it changes what another key maps to, while the
      -- key has a record already or the table has a free one.
      pub write-record_for_other :
          (b : A)
          → (has_key key table || has_free table) ≡ true
          → lookup blank other (write (record_for blank size key_bytes key now table) b)
            ≡ lookup blank other table
      unfolding write
      write-record_for_other b room =
          lookup-put_body_ne blank key other _ _ b record_for-IsFirst ne ∙ record_for-other room

-- The table never grows or shrinks.
pub length-write-record_for {ℓ} :
    {A : Type ℓ} (blank : A) (size key_bytes : ℕ) (key : Bytes) (now : ℕ) (table : List (Slot A))
    (b : A)
    → length (write (record_for blank size key_bytes key now table) b) ≡ length table
unfolding write record_for found_record
length-write-record_for blank size key_bytes key now table b =
    elim (scan size key table 0 size 0 u64_max)
      as (λ f. length (write (found_record blank key_bytes key now table f) b) ≡ length table) [
        | hit k ↦ length-put_body _ k b ∙ length-touch now table k
        | miss j ↦ length-put_body _ j b ∙ length-set table j _
      ]

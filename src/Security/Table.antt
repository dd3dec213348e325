-- ===== src/Security/Table.antt =====
-- The two fixed tables of src/security_policy.c and the search that `peer_record_for` and
-- `account_record_for` share word for word. A record is its key, its `last_seen_ms` and the rest,
-- the body; an empty key marks a free record.
pub mod Lookup
pub mod Refine
use telnet_tls_server.Common.{
  ℕ, zero, suc, ◌-◌, ◌^◌, ltb, ◌==◌, if◌then◌else◌, Bool, true, false, List, [], ◌∷◌, Option, none,
  some, same, Bytes, get_elem?, set, replicate,
}
use telnet_tls_server.Security.Keys.{copy_key}

pub record Slot {ℓ} (A : Type ℓ) : Type ℓ where
  pub key : Bytes
  pub last_seen_ms : ℕ
  pub body : A

-- `record->key[0] == '\0'`
unfoldable pub is_free : Bytes → Bool
is_free [] = true
is_free (c ∷ cs) = false

-- How the loop ends: at the record with the key, or with the index to write a new one to.
pub data Found : Type 0 where
  hit miss : ℕ → Found

abbrev pub u64_max : ℕ
u64_max = 2 ^ 64 - 1

module _ {ℓ} {A : Type ℓ} where
  -- The loop, at `index`, over the records left; `size` stands for "no free record seen".
  unfoldable pub scan : ℕ → Bytes → List (Slot A) → ℕ → ℕ → ℕ → ℕ → Found
  unfolding is_free same
  scan size key [] index empty oldest oldest_seen = miss (if empty == size then oldest else empty)
  scan size key (r ∷ rs) index empty oldest oldest_seen = elim (is_free r.key) [
    | true ↦
        scan size key rs (suc index) (if empty == size then index else empty) oldest oldest_seen
    | false ↦ elim (same r.key key) [
      | true ↦ hit index
      | false ↦ elim (ltb r.last_seen_ms oldest_seen) [
        | true ↦ scan size key rs (suc index) empty index r.last_seen_ms
        | false ↦ scan size key rs (suc index) empty oldest oldest_seen
      ]
    ]
  ]

  -- `record->last_seen_ms = now_ms` at an index.
  unfoldable pub touch : ℕ → List (Slot A) → ℕ → List (Slot A)
  touch now [] index = []
  touch now (r ∷ rs) zero = record r { last_seen_ms = now } ∷ rs
  touch now (r ∷ rs) (suc index) = r ∷ touch now rs index

  -- The record returned, as its index, and the table. `blank` is the body of a cleared record.
  unfoldable pub found_record : A → ℕ → Bytes → ℕ → List (Slot A) → Found → ℕ × List (Slot A)
  unfolding touch
  found_record blank key_bytes key now table (hit index) = (index, touch now table index)
  found_record blank key_bytes key now table (miss index) = (
    index,
    set table index
        (record { key = copy_key key_bytes (some key); last_seen_ms = now; body = blank }),
  )

  unfoldable pub record_for : A → ℕ → ℕ → Bytes → ℕ → List (Slot A) → ℕ × List (Slot A)
  unfolding found_record scan
  record_for blank size key_bytes key now table =
      found_record blank key_bytes key now table (scan size key table 0 size 0 u64_max)

  -- Reading and writing the body through the pointer returned.
  body_or : A → Option (Slot A) → A
  body_or blank none = blank
  body_or blank (some r) = r.body

  unfoldable pub body_at : A → List (Slot A) → ℕ → A
  unfolding body_or
  body_at blank table index = body_or blank (get_elem? table index)

  unfoldable pub put_body : List (Slot A) → ℕ → A → List (Slot A)
  put_body [] index b = []
  put_body (r ∷ rs) zero b = record r { body = b } ∷ rs
  put_body (r ∷ rs) (suc index) b = r ∷ put_body rs index b

  -- `*record` and a write to it, for the pair that `record_for` returns.
  unfoldable pub read : A → ℕ × List (Slot A) → A
  unfolding body_at
  read blank (index, table) = body_at blank table index

  unfoldable pub write : ℕ × List (Slot A) → A → List (Slot A)
  unfolding put_body
  write (index, table) b = put_body table index b

  -- A table after `calloc`.
  unfoldable pub empty_table : A → ℕ → List (Slot A)
  empty_table blank size = replicate size (record { key = []; last_seen_ms = 0; body = blank })

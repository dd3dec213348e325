-- ===== src/Security/Keys.antt =====
-- The keys of src/security_policy.c: `copy_key` and `normalize_account`, with the terminator left
-- off. A source that is NULL is `none`.
use telnet_tls_server.Common.{
  ℕ, zero, suc, ◌+◌, ◌-◌, ◌<◌, ◌≡◌, refl, leb, if◌then◌else◌, ◌&&◌, [], ◌∷◌, map, Option, none,
  some, Bytes, codes, take, take_all, length, length-take-le, arith, ◌≢◌,
}

unfoldable pub ascii_lower : ℕ → ℕ
ascii_lower ch = if leb b'A' ch && leb ch b'Z' then ch + (b'a' - b'A') else ch

abbrev unknown : Bytes
unknown = codes "unknown"

or_unknown : Option Bytes → Bytes
or_unknown none = unknown
or_unknown (some []) = unknown
or_unknown (some (c ∷ cs)) = c ∷ cs

unfoldable pub copy_key : ℕ → Option Bytes → Bytes
unfolding or_unknown
copy_key size source = take (size - 1) (or_unknown source)

or_empty : Option Bytes → Bytes
or_empty none = []
or_empty (some cs) = cs

unfoldable pub normalize_account : ℕ → Option Bytes → Bytes
unfolding ascii_lower or_empty
normalize_account size source = take (size - 1) (map ascii_lower (or_empty source))

-- A key that fits is copied whole.
pub copy_key-fits :
    (size : ℕ) (key : Bytes) → key ≢ [] → length key < size → copy_key size (some key) ≡ key
unfolding copy_key
copy_key-fits size [] h f = absurd (h refl)
copy_key-fits size (c ∷ cs) h f = take_all (size - 1) (c ∷ cs) (omega arith)

pub length-copy_key :
    (size : ℕ) (source : Option Bytes) → 0 < size → length (copy_key size source) < size
unfolding copy_key
length-copy_key size source h = omega (arith, length-take-le (size - 1) (or_unknown source))

pub length-normalize_account :
    (size : ℕ) (source : Option Bytes) → 0 < size → length (normalize_account size source) < size
unfolding normalize_account
length-normalize_account size source h =
    omega (arith, length-take-le (size - 1) (map ascii_lower (or_empty source)))

take-ne-nil : (n : ℕ) (c : ℕ) (cs : Bytes) → 0 < n → take n (c ∷ cs) ≢ []
take-ne-nil zero c cs h = absurd (omega arith)
take-ne-nil (suc n) c cs h = ground arith

-- A key is never the empty string, which marks a free record.
pub copy_key-ne-nil : (size : ℕ) (source : Option Bytes) → 1 < size → copy_key size source ≢ []
unfolding copy_key
copy_key-ne-nil size none h = take-ne-nil (size - 1) _ _ (omega arith)
copy_key-ne-nil size (some []) h = take-ne-nil (size - 1) _ _ (omega arith)
copy_key-ne-nil size (some (c ∷ cs)) h = take-ne-nil (size - 1) c cs (omega arith)

pub normalize_account-ne-nil :
    (size c : ℕ) (cs : Bytes) → 1 < size → normalize_account size (some (c ∷ cs)) ≢ []
unfolding normalize_account
normalize_account-ne-nil size c cs h = take-ne-nil (size - 1) _ _ (omega arith)

-- ===== src/Text/Sanitize/Plain.antt =====
-- The ASCII filter.
use telnet_tls_server.Common.{
  ℕ, zero, suc, ◌-◌, ◌≤◌, ◌<◌, ◌≡◌, true, false, ◌⊎◌, inl, inr, [], ◌∷◌, some, Bytes, length, arith,
  Bool-cases, take,
}
use telnet_tls_server.Text.Sanitize.{is_plain, sanitize_from, terminal_text_sanitize}

-- A printable ASCII character, CR, LF or TAB.
pub IsPlain : ℕ → Type 0
IsPlain b = ((32 ≤ b) × (b ≤ 126)) ⊎ ((b ≡ 13) ⊎ ((b ≡ 10) ⊎ (b ≡ 9)))

-- The second sequence holds the bytes of the first, and `?` for those that are not plain.
pub data Filtered : Bytes → Bytes → Type 0 where
  end : Filtered [] []
  kept : {b : ℕ} {bs out : Bytes} → IsPlain b → Filtered bs out → Filtered (b ∷ bs) (b ∷ out)
  marked : {b : ℕ} {bs out : Bytes} → ¬ IsPlain b → Filtered bs out → Filtered (b ∷ bs) (63 ∷ out)

is_plain-IsPlain : (b : ℕ) → is_plain b ≡ true → IsPlain b
unfolding IsPlain
is_plain-IsPlain b e = ground arith

is_plain-other : (b : ℕ) → is_plain b ≡ false → ¬ IsPlain b
unfolding IsPlain
is_plain-other b e p = ground arith

sanitize_from-Filtered : (room : ℕ) (bs : Bytes) → Filtered (take room bs) (sanitize_from room bs)
unfolding sanitize_from
sanitize_from-Filtered zero [] = end
sanitize_from-Filtered zero (b ∷ bs) = end
sanitize_from-Filtered (suc room) [] = end
sanitize_from-Filtered (suc room) (b ∷ bs) = elim (Bool-cases (is_plain b)) [
  | inl p ↦ rw p (kept (is_plain-IsPlain b p) (sanitize_from-Filtered room bs))
  | inr n ↦ rw n (marked (is_plain-other b n) (sanitize_from-Filtered room bs))
]

sanitize_from-short : (room : ℕ) (bs : Bytes) → length (sanitize_from room bs) ≤ room
unfolding sanitize_from
sanitize_from-short zero [] = omega arith
sanitize_from-short zero (b ∷ bs) = omega arith
sanitize_from-short (suc room) [] = omega arith
sanitize_from-short (suc room) (b ∷ bs) = omega (arith, sanitize_from-short room bs)

-- With a buffer of at least one byte the output keeps the input's bytes one for one, as many as
-- fit before the terminator, with `?` for each that is neither of 32 to 126 nor CR, LF or TAB, and
-- never fills the byte of the terminator.
pub sanitize_plain :
    (input : Bytes) (output_size : ℕ)
    → 0 < output_size
    → Filtered (take (output_size - 1) input) (terminal_text_sanitize (some input) output_size)
      × (length (terminal_text_sanitize (some input) output_size) < output_size)
unfolding terminal_text_sanitize
sanitize_plain input output_size h = (
  sanitize_from-Filtered (output_size - 1) input,
  omega (arith, sanitize_from-short (output_size - 1) input),
)

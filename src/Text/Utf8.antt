-- ===== src/Text/Utf8.antt =====
-- `decode_utf8` and `terminal_text_utf8_valid` of src/terminal_text.c. A buffer with its length is
-- the list of its bytes. `b & 0x3f` and the like are remainders, `(b & 0xc0) == 0x80` says that
-- bits 7 and 6 are 1 and 0, and `|` of shifted fields that do not overlap is their sum.
pub mod Encode
pub mod Valid
use telnet_tls_server.Common.{
  ℕ, zero, suc, ◌+◌, ◌*◌, ◌/◌, ◌%◌, ltb, leb, ◌==◌, if◌then◌else◌, Bool, true, false, not, ◌&&◌,
  ◌||◌, List, [], ◌∷◌, Option, none, some, Bytes, drop, length,
}

abbrev pub is_continuation : ℕ → Bool
is_continuation b = (b / 64 % 4) == 2

abbrev pub low6 : ℕ → ℕ
low6 b = b % 64

-- The number of bytes consumed and the codepoint.
abbrev pub Decoded : Type 0
Decoded = Option (ℕ × ℕ)

two_bytes : ℕ → Bytes → Decoded
two_bytes first (b ∷ rest) = if is_continuation b then some (2, first % 32 * 64 + low6 b) else none
two_bytes first [] = none

three_bytes : ℕ → Bytes → Decoded
three_bytes first (b ∷ c ∷ rest) =
    if not (is_continuation b) || not (is_continuation c)
    then none
    else if (first == 0xe0 && ltb b 0xa0) || (first == 0xed && leb 0xa0 b)
    then none
    else some (3, first % 16 * 4096 + low6 b * 64 + low6 c)
three_bytes first (b ∷ []) = none
three_bytes first [] = none

four_bytes : ℕ → Bytes → Decoded
four_bytes first (b ∷ c ∷ d ∷ rest) =
    if not (is_continuation b) || not (is_continuation c) || not (is_continuation d)
    then none
    else if (first == 0xf0 && ltb b 0x90) || (first == 0xf4 && ltb 0x8f b)
    then none
    else some (4, first % 8 * 262144 + low6 b * 4096 + low6 c * 64 + low6 d)
four_bytes first (b ∷ c ∷ []) = none
four_bytes first (b ∷ []) = none
four_bytes first [] = none

unfoldable pub decode_utf8 : Bytes → Decoded
unfolding two_bytes three_bytes four_bytes
decode_utf8 [] = none
decode_utf8 (first ∷ rest) =
    if leb first 0x7f
    then some (1, first)
    else if leb 0xc2 first && leb first 0xdf
    then two_bytes first rest
    else if leb 0xe0 first && leb first 0xef
    then three_bytes first rest
    else if leb 0xf0 first && leb first 0xf4
    then four_bytes first rest
    else none

-- The loop of `terminal_text_utf8_valid` on the input from `offset` on. Each round consumes a
-- byte at least, so as many rounds as there are bytes are enough.
unfoldable pub valid_from : ℕ → Bytes → Bool
valid_from fuel [] = true
valid_from zero (b ∷ bs) = false
valid_from (suc fuel) (b ∷ bs) = elim (decode_utf8 (b ∷ bs)) [
  | none ↦ false
  | some (consumed, codepoint) ↦ valid_from fuel (drop consumed (b ∷ bs))
]

unfoldable pub terminal_text_utf8_valid : Bytes → Bool
unfolding valid_from
terminal_text_utf8_valid input = valid_from (length input) input

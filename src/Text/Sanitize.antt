-- ===== src/Text/Sanitize.antt =====
-- `terminal_text_sanitize`, `codepoint_safe` and `terminal_text_sanitize_utf8` of
-- src/terminal_text.c. The result is what is written before the NUL, its length the value
-- returned. `room` stands for `output_size - 1 - output_index`; with `output_size` 0 nothing is
-- written, and the NULL output, which returns 0 as well, is not modelled.
pub mod Plain
pub mod Safe
use telnet_tls_server.Common.{
  ℕ, zero, suc, ◌-◌, ltb, leb, ◌==◌, if◌then◌else◌, Bool, true, false, ◌&&◌, ◌||◌, List, [], ◌∷◌,
  ◌++◌, Option, none, some, Bytes, take, drop, length,
}
use telnet_tls_server.Text.Utf8.{decode_utf8}

abbrev pub question_mark : ℕ
question_mark = 63

-- The bytes that `terminal_text_sanitize` lets through.
abbrev pub is_plain : ℕ → Bool
is_plain ch = (leb 32 ch && leb ch 126) || (ch == b'\r' || (ch == b'\n' || ch == b'\t'))

unfoldable pub sanitize_from : ℕ → Bytes → Bytes
sanitize_from room [] = []
sanitize_from zero (ch ∷ rest) = []
sanitize_from (suc room) (ch ∷ rest) =
    (if is_plain ch then ch else question_mark) ∷ sanitize_from room rest

-- The input may be NULL.
unfoldable pub terminal_text_sanitize : Option Bytes → ℕ → Bytes
unfolding sanitize_from
terminal_text_sanitize none output_size = []
terminal_text_sanitize (some input) output_size = sanitize_from (output_size - 1) input

unfoldable pub codepoint_safe : ℕ → Bool
codepoint_safe c =
    if c == b'\r' || (c == b'\n' || c == b'\t')
    then true
    else if ltb c 0x20 || (leb 0x7f c && leb c 0x9f)
    then false
    else if c == 0x2028 || c == 0x2029
    then false
    else if (leb 0x202a c && leb c 0x202e) || (leb 0x2066 c && leb c 0x2069)
    then false
    else true

-- The loop, a round consumes one byte of the input at least.
unfoldable pub sanitize_utf8_from : ℕ → ℕ → Bytes → Bytes
sanitize_utf8_from fuel room [] = []
sanitize_utf8_from fuel zero (b ∷ bs) = []
sanitize_utf8_from zero (suc room) (b ∷ bs) = []
sanitize_utf8_from (suc fuel) (suc room) (b ∷ bs) = elim (decode_utf8 (b ∷ bs)) [
  | none ↦ question_mark ∷ sanitize_utf8_from fuel room bs
  | some (consumed, codepoint) ↦ elim (codepoint_safe codepoint) [
    | false ↦ question_mark ∷ sanitize_utf8_from fuel room (drop consumed (b ∷ bs))
    | true ↦ elim (ltb (suc room) consumed) [
      | true ↦ []
      | false ↦
          take consumed (b ∷ bs)
          ++ sanitize_utf8_from fuel (suc room - consumed) (drop consumed (b ∷ bs))
    ]
  ]
]

unfoldable pub terminal_text_sanitize_utf8 : Option Bytes → ℕ → Bytes
unfolding sanitize_utf8_from
terminal_text_sanitize_utf8 none output_size = []
terminal_text_sanitize_utf8 (some input) output_size =
    sanitize_utf8_from (length input) (output_size - 1) input

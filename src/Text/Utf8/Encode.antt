-- ===== src/Text/Utf8/Encode.antt =====
-- The encoding of RFC 3629, and `decode_utf8` as its exact inverse.
use telnet_tls_server.Common.{
  ℕ, ◌+◌, ◌/◌, ◌%◌, ◌≤◌, ◌<◌, ◌≡◌, ltb, if◌then◌else◌, ◌⊎◌, [], ◌∷◌, ◌++◌, some, Bytes, take,
  length, All, arith,
}
use telnet_tls_server.Text.Utf8.{decode_utf8, two_bytes, three_bytes, four_bytes}

-- A Unicode scalar value: a code point that is no surrogate.
abbrev pub IsScalar : ℕ → Type 0
IsScalar c = (c < 0x110000) × ((c < 0xd800) ⊎ (0xe000 ≤ c))

unfoldable pub encode : ℕ → Bytes
encode c =
    if ltb c 0x80
    then c ∷ []
    else if ltb c 0x800
    then (0xc0 + c / 64) ∷ (0x80 + c % 64) ∷ []
    else if ltb c 0x10000
    then (0xe0 + c / 4096) ∷ (0x80 + c / 64 % 64) ∷ (0x80 + c % 64) ∷ []
    else (0xf0 + c / 262144) ∷ (0x80 + c / 4096 % 64) ∷ (0x80 + c / 64 % 64) ∷ (0x80 + c % 64) ∷ []

-- Decoding the encoding of a scalar value, whatever follows it, gives the value back and consumes
-- exactly the encoding.
pub decode-encode :
    (c : ℕ) (rest : Bytes)
    → IsScalar c
    → decode_utf8 (encode c ++ rest) ≡ some (length (encode c), c)
unfolding decode_utf8 encode
decode-encode c rest h = ground arith

abbrev pub IsBytes : Bytes → Type 0
IsBytes bs = All (λ b. b < 256) bs

abbrev Encodes : Bytes → ℕ → ℕ → Type 0
Encodes bs n c = IsScalar c × (take n bs ≡ encode c) × (length (encode c) ≡ n)

one_byte :
    (first : ℕ) (rest : Bytes) (n c : ℕ)
    → first ≤ 0x7f
    → n ≡ 1
    → c ≡ first
    → Encodes (first ∷ rest) n c
unfolding encode
one_byte first rest n c u e f = ground arith

two_bytes-Encodes :
    (first : ℕ) (rest : Bytes) (n c : ℕ)
    → 0xc2 ≤ first
    → first ≤ 0xdf
    → IsBytes rest
    → two_bytes first rest ≡ some (n, c)
    → Encodes (first ∷ rest) n c
unfolding two_bytes encode
two_bytes-Encodes first [] n c l u a h = cc
two_bytes-Encodes first (b ∷ rest) n c l u a h = ground arith

three_bytes-Encodes :
    (first : ℕ) (rest : Bytes) (n c : ℕ)
    → 0xe0 ≤ first
    → first ≤ 0xef
    → IsBytes rest
    → three_bytes first rest ≡ some (n, c)
    → Encodes (first ∷ rest) n c
unfolding three_bytes encode
three_bytes-Encodes first [] n c l u a h = cc
three_bytes-Encodes first (b ∷ []) n c l u a h = cc
three_bytes-Encodes first (b ∷ d ∷ rest) n c l u a h = ground arith

four_bytes-Encodes :
    (first : ℕ) (rest : Bytes) (n c : ℕ)
    → 0xf0 ≤ first
    → first ≤ 0xf4
    → IsBytes rest
    → four_bytes first rest ≡ some (n, c)
    → Encodes (first ∷ rest) n c
unfolding four_bytes encode
four_bytes-Encodes first [] n c l u a h = cc
four_bytes-Encodes first (b ∷ []) n c l u a h = cc
four_bytes-Encodes first (b ∷ d ∷ []) n c l u a h = cc
four_bytes-Encodes first (b ∷ d ∷ e ∷ rest) n c l u a h = ground arith

-- What `decode_utf8` accepts at the front of bytes is a scalar value, and the bytes consumed are
-- its encoding: nothing overlong, no surrogate, nothing above U+10FFFF.
pub decode_sound :
    (bs : Bytes) (n c : ℕ)
    → IsBytes bs
    → decode_utf8 bs ≡ some (n, c)
    → IsScalar c × (take n bs ≡ encode c) × (length (encode c) ≡ n)
unfolding decode_utf8
decode_sound [] n c a h = cc
decode_sound (first ∷ rest) n c a h = ground (
  arith,
  one_byte first rest n c,
  two_bytes-Encodes first rest n c,
  three_bytes-Encodes first rest n c,
  four_bytes-Encodes first rest n c,
)

-- ===== src/Examples/TextExamples.antt =====
-- Text filters at concrete inputs.
use telnet_tls_server.Common.{
  ℕ, ◌-◌, ◌<◌, ◌≡◌, ◌≢◌, ◌↔◌, refl, inl, true, List, [], ◌∷◌, ◌++◌, some, Bytes, codes, take,
  length, All, arith,
}
use telnet_tls_server.Text.Utf8.{decode_utf8, terminal_text_utf8_valid}
use telnet_tls_server.Text.Utf8.Encode.{IsScalar, encode, decode-encode, decode_sound}
use telnet_tls_server.Text.Utf8.Valid.{encode_all, Encoded, utf8_valid_iff}
use telnet_tls_server.Text.Sanitize.{
  terminal_text_sanitize, terminal_text_sanitize_utf8, codepoint_safe,
}
use telnet_tls_server.Text.Sanitize.Plain.{sanitize_plain, Filtered}
use telnet_tls_server.Text.Sanitize.Safe.{IsSafe, sanitize_utf8-IsSafe, sanitize_utf8_keeps}

-- U+20AC, the euro sign.
decode-encode_example :
    decode_utf8 (encode 0x20ac ++ 65 ∷ []) ≡ some (length (encode 0x20ac), 0x20ac)
decode-encode_example = decode-encode 0x20ac (65 ∷ []) (omega arith, inl (omega arith))

abbrev euro : Bytes
euro = 0xe2 ∷ 0x82 ∷ 0xac ∷ []

euro_decodes : decode_utf8 euro ≡ some (3, 0x20ac)
unfolding decode_utf8
euro_decodes = refl

decode_sound_example :
    IsScalar 0x20ac × (take 3 euro ≡ encode 0x20ac) × (length (encode 0x20ac) ≡ 3)
decode_sound_example = decode_sound euro 3 0x20ac (omega arith) euro_decodes

utf8_valid_iff_example : (terminal_text_utf8_valid euro ≡ true) ↔ Encoded euro
utf8_valid_iff_example = utf8_valid_iff euro (omega arith)

-- An overlong slash and a surrogate are refused.
overlong_refused : terminal_text_utf8_valid (0xc0 ∷ 0xaf ∷ []) ≢ true
unfolding terminal_text_utf8_valid decode_utf8
overlong_refused e = cc

sanitize_plain_example :
    Filtered
      (take (3 - 1) (65 ∷ 27 ∷ 66 ∷ []))
      (terminal_text_sanitize (some (65 ∷ 27 ∷ 66 ∷ [])) 3)
    × (length (terminal_text_sanitize (some (65 ∷ 27 ∷ 66 ∷ [])) 3) < 3)
sanitize_plain_example = sanitize_plain (65 ∷ 27 ∷ 66 ∷ []) 3 (omega arith)

-- A right-to-left override between two letters is replaced.
abbrev spoof : Bytes
spoof = 65 ∷ 0xe2 ∷ 0x80 ∷ 0xae ∷ 66 ∷ []

spoof_filtered : terminal_text_sanitize_utf8 (some spoof) 16 ≡ codes "A?B"
unfolding terminal_text_sanitize_utf8 decode_utf8 codepoint_safe
spoof_filtered = refl

sanitize_utf8-IsSafe_example :
    (cs : List ℕ) × All IsSafe cs
    × (terminal_text_sanitize_utf8 (some spoof) 16 ≡ encode_all cs)
    × (length (terminal_text_sanitize_utf8 (some spoof) 16) < 16)
sanitize_utf8-IsSafe_example = sanitize_utf8-IsSafe spoof 16 (omega arith) (omega arith)

letter-IsSafe : IsSafe 65
unfolding codepoint_safe
letter-IsSafe = ((omega arith, inl (omega arith)), refl)

euro-IsSafe : IsSafe 0x20ac
unfolding codepoint_safe
euro-IsSafe = ((omega arith, inl (omega arith)), refl)

short_text : length (encode_all (65 ∷ 0x20ac ∷ [])) < 16
unfolding encode
short_text = omega arith

sanitize_utf8_keeps_example :
    terminal_text_sanitize_utf8 (some (encode_all (65 ∷ 0x20ac ∷ []))) 16
    ≡ encode_all (65 ∷ 0x20ac ∷ [])
sanitize_utf8_keeps_example =
    sanitize_utf8_keeps (65 ∷ 0x20ac ∷ []) 16 (letter-IsSafe, (euro-IsSafe, tt)) short_text

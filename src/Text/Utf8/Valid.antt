-- ===== src/Text/Utf8/Valid.antt =====
-- `terminal_text_utf8_valid` decides whether the bytes are encoded scalar values.
use telnet_tls_server.Common.{
  ℕ, zero, suc, ◌-◌, ◌≤◌, ◌≡◌, refl, sym, ap, ◌∙◌, true, false, inl, inr, List, [], ◌∷◌, ◌++◌, none,
  some, Bytes, take, drop, length, length-append, All, arith, Option-cases, ◌↔◌,
}
use mathlib.Core.Bool.{false≢true}
use telnet_tls_server.Text.Utf8.{decode_utf8, valid_from, terminal_text_utf8_valid}
use telnet_tls_server.Text.Utf8.Encode.{IsScalar, IsBytes, encode, decode-encode, decode_sound}

abbrev pub encode_all : List ℕ → Bytes
encode_all [] = []
encode_all (c ∷ cs) = encode c ++ encode_all cs

pub length-encode-pos : (c : ℕ) → 1 ≤ length (encode c)
unfolding encode
length-encode-pos c = ground arith

pub drop-append : (xs ys : Bytes) → drop (length xs) (xs ++ ys) ≡ ys
drop-append [] ys = refl
drop-append (x ∷ xs) ys = drop-append xs ys

pub take-append : (xs ys : Bytes) → take (length xs) (xs ++ ys) ≡ xs
take-append [] ys = refl
take-append (x ∷ xs) ys = ap (◌∷◌ x) (take-append xs ys)

pub take-drop : (n : ℕ) (xs : Bytes) → xs ≡ take n xs ++ drop n xs
take-drop zero xs = refl
take-drop (suc n) [] = refl
take-drop (suc n) (x ∷ xs) = ap (◌∷◌ x) (take-drop n xs)

pub IsBytes-drop : (n : ℕ) (bs : Bytes) → IsBytes bs → IsBytes (drop n bs)
IsBytes-drop zero bs a = a
IsBytes-drop (suc n) [] a = a
IsBytes-drop (suc n) (b ∷ bs) a = IsBytes-drop n bs a.1

pub length-drop-le : (n : ℕ) (bs : Bytes) → 1 ≤ n → suc (length (drop n bs)) ≤ suc (length bs - 1)
length-drop-le zero bs h = absurd (omega arith)
length-drop-le (suc n) [] h = omega arith
length-drop-le (suc zero) (b ∷ bs) h = omega arith
length-drop-le (suc (suc n)) (b ∷ bs) h = omega (arith, length-drop-le (suc n) bs (omega arith))

pub decode-pos : (bs : Bytes) (n c : ℕ) → decode_utf8 bs ≡ some (n, c) → 1 ≤ n
unfolding decode_utf8
decode-pos [] n c h = cc
decode-pos (a ∷ []) n c h = ground arith
decode-pos (a ∷ b ∷ []) n c h = ground arith
decode-pos (a ∷ b ∷ d ∷ []) n c h = ground arith
decode-pos (a ∷ b ∷ d ∷ e ∷ rest) n c h = ground arith

-- One round of the loop.
valid_from-step :
    (fuel : ℕ) (bs : Bytes) (n c : ℕ)
    → decode_utf8 bs ≡ some (n, c)
    → valid_from (suc fuel) bs ≡ valid_from fuel (drop n bs)
unfolding valid_from
valid_from-step fuel [] n c h = unfold decode_utf8 in cc
valid_from-step fuel (b ∷ bs) n c h = rw (h, valid_from) refl

valid_from-encode :
    (fuel : ℕ) (cs : List ℕ)
    → length (encode_all cs) ≤ fuel
    → All IsScalar cs
    → valid_from fuel (encode_all cs) ≡ true
valid_from-encode zero [] h a = unfold valid_from in refl
valid_from-encode (suc fuel) [] h a = unfold valid_from in refl
valid_from-encode zero (c ∷ cs) h a =
    absurd (omega (arith, length-append (encode c) (encode_all cs), length-encode-pos c))
valid_from-encode (suc fuel) (c ∷ cs) h a =
    let room : length (encode_all cs) ≤ fuel =
      omega (arith, length-append (encode c) (encode_all cs), length-encode-pos c) in
    valid_from-step fuel (encode c ++ encode_all cs) (length (encode c)) c
      (decode-encode c (encode_all cs) a.0)
    ∙ ap (valid_from fuel) (drop-append (encode c) (encode_all cs))
    ∙ valid_from-encode fuel cs room a.1

abbrev pub Encoded : Bytes → Type 0
Encoded bs = (cs : List ℕ) × All IsScalar cs × (bs ≡ encode_all cs)

-- The first codepoint of encoded bytes is put in front.
Encoded-cons :
    (bs : Bytes) (n c : ℕ)
    → IsBytes bs
    → decode_utf8 bs ≡ some (n, c)
    → Encoded (drop n bs)
    → Encoded bs
Encoded-cons bs n c a h (cs, s, e) =
    let sound = decode_sound bs n c a h in
    (c ∷ cs, (sound.0, s), take-drop n bs ∙ rw (sound.1, e) refl)

valid_from-refuses :
    (fuel b : ℕ) (bs : Bytes) → decode_utf8 (b ∷ bs) ≡ none → valid_from (suc fuel) (b ∷ bs) ≡ false
unfolding valid_from
valid_from-refuses fuel b bs e = rw (e, valid_from) refl

valid_from_sound : (fuel : ℕ) (bs : Bytes) → IsBytes bs → valid_from fuel bs ≡ true → Encoded bs
valid_from_sound fuel [] a h = ([], tt, refl)
valid_from_sound zero (b ∷ bs) a h = unfold valid_from in cc
valid_from_sound (suc fuel) (b ∷ bs) a h = elim (Option-cases (decode_utf8 (b ∷ bs))) [
  | inl e ↦ absurd (false≢true (sym (valid_from-refuses fuel b bs e) ∙ h))
  | inr ((n, c), e) ↦ Encoded-cons (b ∷ bs) n c a e (
      valid_from_sound fuel (drop n (b ∷ bs)) (IsBytes-drop n (b ∷ bs) a)
        (sym (valid_from-step fuel (b ∷ bs) n c e) ∙ h))
]

-- `terminal_text_utf8_valid` accepts bytes exactly when they are the RFC 3629 encodings of some
-- Unicode scalar values, one after the other.
pub utf8_valid_iff : (bs : Bytes) → IsBytes bs → (terminal_text_utf8_valid bs ≡ true) ↔ Encoded bs
unfolding terminal_text_utf8_valid
utf8_valid_iff bs a = (valid_from_sound (length bs) bs a, back)
  where
    back : Encoded bs → valid_from (length bs) bs ≡ true
    back (cs, s, e) = rw e (valid_from-encode (length (encode_all cs)) cs (omega arith) s)

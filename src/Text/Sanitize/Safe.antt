-- ===== src/Text/Sanitize/Safe.antt =====
-- The UTF-8 filter: its output is well-formed text with safe codepoints only, and text that is
-- already so passes unchanged.
use telnet_tls_server.Common.{
  ℕ, zero, suc, ◌-◌, ◌≤◌, ◌<◌, ◌≡◌, refl, ap, ◌∙◌, ltb, true, false, List, [], ◌∷◌, ◌++◌, none,
  some, Bytes, take, drop, length, length-append, All, arith, Bool-cases, Option-cases, inl, inr,
}
use telnet_tls_server.Text.Utf8.{decode_utf8}
use telnet_tls_server.Text.Utf8.Encode.{IsScalar, IsBytes, encode, decode-encode, decode_sound}
use telnet_tls_server.Text.Utf8.Valid.{
  encode_all, length-encode-pos, drop-append, take-append, IsBytes-drop, length-drop-le, decode-pos,
}
use telnet_tls_server.Text.Sanitize.{
  codepoint_safe, sanitize_utf8_from, terminal_text_sanitize_utf8, question_mark,
}

-- A scalar value that a terminal may be shown.
abbrev pub IsSafe : ℕ → Type 0
IsSafe c = IsScalar c × (codepoint_safe c ≡ true)

-- Encoded safe codepoints that take at most `room` bytes.
abbrev pub SafeText : Bytes → ℕ → Type 0
SafeText bs room = (cs : List ℕ) × All IsSafe cs × (bs ≡ encode_all cs) × (length bs ≤ room)

SafeText-nil : (room : ℕ) → SafeText [] room
SafeText-nil room = ([], tt, refl, omega arith)

SafeText-mark :
    (bs : Bytes) (room : ℕ) → SafeText bs room → SafeText (question_mark ∷ bs) (suc room)
unfolding codepoint_safe encode
SafeText-mark bs room (cs, a, e, l) = (
  question_mark ∷ cs,
  (((omega arith, inl (omega arith)), refl), a),
  ap (◌∷◌ question_mark) e,
  omega arith,
)

SafeText-append :
    (c : ℕ) (front bs : Bytes) (room : ℕ)
    → IsSafe c
    → front ≡ encode c
    → length front ≤ room
    → SafeText bs (room - length front)
    → SafeText (front ++ bs) room
SafeText-append c front bs room s f fits (cs, a, e, l) =
    (c ∷ cs, (s, a), rw (f, e) refl, omega (arith, length-append front bs))

-- The loop in one round, by how the input starts.
module _ (fuel room b : ℕ) (bs : Bytes) where
  abbrev round : Bytes
  round = sanitize_utf8_from (suc fuel) (suc room) (b ∷ bs)

  round_bad : decode_utf8 (b ∷ bs) ≡ none → round ≡ question_mark ∷ sanitize_utf8_from fuel room bs
  unfolding sanitize_utf8_from
  round_bad e = rw (e, sanitize_utf8_from) refl

  round_unsafe :
      (n c : ℕ)
      → decode_utf8 (b ∷ bs) ≡ some (n, c)
      → codepoint_safe c ≡ false
      → round ≡ question_mark ∷ sanitize_utf8_from fuel room (drop n (b ∷ bs))
  unfolding sanitize_utf8_from
  round_unsafe n c e s = rw (e, s, sanitize_utf8_from) refl

  round_full :
      (n c : ℕ)
      → decode_utf8 (b ∷ bs) ≡ some (n, c)
      → codepoint_safe c ≡ true
      → ltb (suc room) n ≡ true
      → round ≡ []
  unfolding sanitize_utf8_from
  round_full n c e s f = rw (e, s, f, sanitize_utf8_from) refl

  round_copy :
      (n c : ℕ)
      → decode_utf8 (b ∷ bs) ≡ some (n, c)
      → codepoint_safe c ≡ true
      → ltb (suc room) n ≡ false
      → round ≡ take n (b ∷ bs) ++ sanitize_utf8_from fuel (suc room - n) (drop n (b ∷ bs))
  unfolding sanitize_utf8_from
  round_copy n c e s f = rw (e, s, f, sanitize_utf8_from) refl

-- The copying round, given the rest.
copy_SafeText :
    (fuel room b : ℕ) (bs : Bytes) (n c : ℕ)
    → IsBytes (b ∷ bs)
    → decode_utf8 (b ∷ bs) ≡ some (n, c)
    → codepoint_safe c ≡ true
    → ltb (suc room) n ≡ false
    → SafeText (sanitize_utf8_from fuel (suc room - n) (drop n (b ∷ bs))) (suc room - n)
    → SafeText (sanitize_utf8_from (suc fuel) (suc room) (b ∷ bs)) (suc room)
copy_SafeText fuel room b bs n c a e s f rest =
    let sound = decode_sound (b ∷ bs) n c a e in
    let len : length (take n (b ∷ bs)) ≡ n = ap length sound.1 ∙ sound.2 in
    rw (round_copy fuel room b bs n c e s f) (
      SafeText-append c (take n (b ∷ bs)) _ (suc room) (sound.0, s) sound.1 (ground (arith, len))
        (rw len rest))

sanitize-SafeText :
    (fuel room : ℕ) (bs : Bytes) → IsBytes bs → SafeText (sanitize_utf8_from fuel room bs) room
sanitize-SafeText fuel room [] a = unfold sanitize_utf8_from in SafeText-nil room
sanitize-SafeText zero zero (b ∷ bs) a = unfold sanitize_utf8_from in SafeText-nil zero
sanitize-SafeText zero (suc room) (b ∷ bs) a = unfold sanitize_utf8_from in SafeText-nil (suc room)
sanitize-SafeText (suc fuel) zero (b ∷ bs) a = unfold sanitize_utf8_from in SafeText-nil zero
sanitize-SafeText (suc fuel) (suc room) (b ∷ bs) a = elim (Option-cases (decode_utf8 (b ∷ bs))) [
  | inl e ↦
      rw (round_bad fuel room b bs e) (SafeText-mark _ room (sanitize-SafeText fuel room bs a.1))
  | inr ((n, c), e) ↦ elim (Bool-cases (codepoint_safe c)) [
    | inr s ↦ rw (round_unsafe fuel room b bs n c e s) (
        SafeText-mark _ room
          (sanitize-SafeText fuel room (drop n (b ∷ bs)) (IsBytes-drop n (b ∷ bs) a)))
    | inl s ↦ elim (Bool-cases (ltb (suc room) n)) [
      | inl f ↦ rw (round_full fuel room b bs n c e s f) (SafeText-nil (suc room))
      | inr f ↦
          copy_SafeText fuel room b bs n c a e s f
            (sanitize-SafeText fuel (suc room - n) (drop n (b ∷ bs)) (IsBytes-drop n (b ∷ bs) a))
    ]
  ]
]

-- For any bytes and a buffer of at least one byte, what `terminal_text_sanitize_utf8` writes is a
-- whole number of encoded scalar values, each safe to show, and leaves room for the terminator.
pub sanitize_utf8-IsSafe :
    (input : Bytes) (output_size : ℕ)
    → IsBytes input
    → 0 < output_size
    → (cs : List ℕ) × All IsSafe cs
      × (terminal_text_sanitize_utf8 (some input) output_size ≡ encode_all cs)
      × (length (terminal_text_sanitize_utf8 (some input) output_size) < output_size)
unfolding terminal_text_sanitize_utf8
sanitize_utf8-IsSafe input output_size a h =
    let (cs, s, e, l) = sanitize-SafeText (length input) (output_size - 1) input a in
    (cs, s, e, omega arith)

-- A safe codepoint at the front is copied.
copy_encoded :
    (fuel room c : ℕ) (rest : Bytes)
    → IsSafe c
    → length (encode c ++ rest) ≤ suc room
    → sanitize_utf8_from (suc fuel) (suc room) (encode c ++ rest)
      ≡ encode c ++ sanitize_utf8_from fuel (suc room - length (encode c)) rest
copy_encoded fuel room c rest s l = go (encode c ++ rest) refl
  where
    go :
        (bs : Bytes)
        → bs ≡ encode c ++ rest
        → sanitize_utf8_from (suc fuel) (suc room) bs
          ≡ encode c ++ sanitize_utf8_from fuel (suc room - length (encode c)) rest
    go [] e =
        absurd (omega (arith, ap length e, length-append (encode c) rest, length-encode-pos c))
    go (b ∷ bs) e =
        round_copy fuel room b bs (length (encode c)) c
          (ap decode_utf8 e ∙ decode-encode c rest s.0) s.1
          (ground (arith, length-append (encode c) rest))
        ∙ rw (e, take-append (encode c) rest, drop-append (encode c) rest) refl

sanitize_id :
    (fuel room : ℕ) (cs : List ℕ)
    → All IsSafe cs
    → length (encode_all cs) ≤ fuel
    → length (encode_all cs) ≤ room
    → sanitize_utf8_from fuel room (encode_all cs) ≡ encode_all cs
sanitize_id fuel room [] a f r = unfold sanitize_utf8_from in refl
sanitize_id zero room (c ∷ cs) a f r =
    absurd (omega (arith, length-append (encode c) (encode_all cs), length-encode-pos c))
sanitize_id (suc fuel) zero (c ∷ cs) a f r =
    absurd (omega (arith, length-append (encode c) (encode_all cs), length-encode-pos c))
sanitize_id (suc fuel) (suc room) (c ∷ cs) a f r =
    let split = length-append (encode c) (encode_all cs) in
    let pos = length-encode-pos c in
    copy_encoded fuel room c (encode_all cs) a.0 r
    ∙ ap (◌++◌ (encode c))
        (sanitize_id fuel (suc room - length (encode c)) cs a.1 (omega arith) (omega arith))

-- Text of safe codepoints that fits with its terminator is written unchanged.
pub sanitize_utf8_keeps :
    (cs : List ℕ) (output_size : ℕ)
    → All IsSafe cs
    → length (encode_all cs) < output_size
    → terminal_text_sanitize_utf8 (some (encode_all cs)) output_size ≡ encode_all cs
unfolding terminal_text_sanitize_utf8
sanitize_utf8_keeps cs output_size a h =
    sanitize_id (length (encode_all cs)) (output_size - 1) cs a (omega arith) (omega arith)

-- As many rounds as there are input bytes are enough: more change nothing.
sanitize_fuel :
    (f g room : ℕ) (bs : Bytes)
    → length bs ≤ f
    → length bs ≤ g
    → sanitize_utf8_from f room bs ≡ sanitize_utf8_from g room bs
sanitize_fuel f g room [] p q = unfold sanitize_utf8_from in refl
sanitize_fuel zero g room (b ∷ bs) p q = absurd (omega arith)
sanitize_fuel (suc f) zero room (b ∷ bs) p q = absurd (omega arith)
sanitize_fuel (suc f) (suc g) zero (b ∷ bs) p q = unfold sanitize_utf8_from in refl
sanitize_fuel (suc f) (suc g) (suc room) (b ∷ bs) p q = elim (Option-cases (decode_utf8 (b ∷ bs))) [
  | inl e ↦
      rw (round_bad f room b bs e, round_bad g room b bs e)
        (ap (◌∷◌ question_mark) (sanitize_fuel f g room bs (omega arith) (omega arith)))
  | inr ((n, c), e) ↦
      let less = length-drop-le n (b ∷ bs) (decode-pos (b ∷ bs) n c e) in
      elim (Bool-cases (codepoint_safe c)) [
        | inr s ↦
            rw (round_unsafe f room b bs n c e s, round_unsafe g room b bs n c e s)
              (ap (◌∷◌ question_mark)
                (sanitize_fuel f g room (drop n (b ∷ bs)) (omega arith) (omega arith)))
        | inl s ↦ elim (Bool-cases (ltb (suc room) n)) [
          | inl t ↦ rw (round_full f room b bs n c e s t, round_full g room b bs n c e s t) refl
          | inr t ↦
              rw (round_copy f room b bs n c e s t, round_copy g room b bs n c e s t)
                (ap (◌++◌ (take n (b ∷ bs)))
                  (sanitize_fuel f g (suc room - n) (drop n (b ∷ bs)) (omega arith) (omega arith)))
        ]
      ]
]

-- The number of rounds that the model allows the loop, the input's length, is enough: with more
-- the output is the same, so it is cut short by the buffer alone.
sanitize_utf8_rounds :
    (fuel output_size : ℕ) (input : Bytes)
    → length input ≤ fuel
    → sanitize_utf8_from fuel (output_size - 1) input
      ≡ terminal_text_sanitize_utf8 (some input) output_size
unfolding terminal_text_sanitize_utf8
sanitize_utf8_rounds fuel output_size input h =
    sanitize_fuel fuel (length input) (output_size - 1) input h (omega arith)

-- ===== src/Telnet/Payloads/Environ/Fields.antt =====
-- Reading an environment as RFC 1572 writes it.
use telnet_tls_server.Common.{
  ℕ, zero, suc, ◌+◌, ◌≤◌, ◌<◌, ◌≡◌, ◌≢◌, refl, sym, ap, ◌∙◌, ltb, ◌==◌, if◌then◌else◌, true, false,
  ◌||◌, List, [], ◌∷◌, ◌++◌, append_assoc, append-nil, Option, none, some, Bytes, length,
  length-append, All, arith, Bool-cases, inl, inr,
}
use telnet_tls_server.Telnet.Session.{Session}
use telnet_tls_server.Telnet.Options.{Peripherals, update_option_metadata}
use telnet_tls_server.Telnet.Payloads.Environ.{
  Field, ended, valued, is_token, roomed, read_name, read_value, value_of, variable_of,
  read_variable, applied, environ_loop, environ_payload,
}

-- A text with ESC before each of the four bytes that mean something.
unfoldable pub quote : Bytes → Bytes
quote [] = []
quote (b ∷ bs) = (if ltb b 4 then 2 ∷ b ∷ [] else b ∷ []) ++ quote bs

-- A variable of a report: the token, the name, and the value if it has one.
pub record Report : Type 0 where
  pub token : ℕ
  pub name : Bytes
  pub value : Option Bytes

abbrev pub value_text : Option Bytes → Bytes
value_text none = []
value_text (some value) = value

abbrev quoted_value : Option Bytes → Bytes
quoted_value none = []
quoted_value (some value) = 1 ∷ quote value

unfoldable pub write_reports : List Report → Bytes
unfolding quote
write_reports [] = []
write_reports (r ∷ rs) = r.token ∷ (quote r.name ++ (quoted_value r.value ++ write_reports rs))

-- A token and fields that fit the buffers.
pub record IsReport (r : Report) : Type 0 where
  pub tokened : is_token r.token ≡ true
  pub name_fits : length r.name ≤ 64
  pub value_fits : length (value_text r.value) ≤ 128

-- What the session is to become.
unfoldable pub apply_reports : List Report → Session → Session
apply_reports [] s = s
apply_reports (r ∷ rs) s = apply_reports rs (applied r.token r.name (value_text r.value) s)

-- What may follow a field: the end, or a token.
data Follows : Bytes → Type 0 where
  at_end : Follows []
  at_token : (b : ℕ) (bs : Bytes) → is_token b ≡ true → Follows (b ∷ bs)

roomed-free : (size : ℕ) (text : Bytes) (f : Field) → length text < size → roomed size text f ≡ f
unfolding roomed
roomed-free size text f h = ground arith

read_name-plain :
    (text : Bytes) (b : ℕ) (bs : Bytes)
    → ltb b 4 ≡ false
    → length text < 64
    → read_name text (b ∷ bs) ≡ read_name (text ++ b ∷ []) bs
unfolding read_name
read_name-plain text b [] p h = ground arith
read_name-plain text b (c ∷ cs) p h = ground arith

read_name-quoted :
    (text : Bytes) (b : ℕ) (bs : Bytes)
    → length text < 64
    → read_name text (2 ∷ b ∷ bs) ≡ read_name (text ++ b ∷ []) bs
unfolding read_name
read_name-quoted text b bs h = ground arith

read_name-quote :
    (text name rest : Bytes)
    → length text + length name ≤ 64
    → read_name text (quote name ++ rest) ≡ read_name (text ++ name) rest
unfolding quote
read_name-quote text [] rest h = ap (λ t. read_name t rest) (sym (append-nil text))
read_name-quote text (b ∷ bs) rest h =
    let ih =
      read_name-quote (text ++ b ∷ []) bs rest
        (let more = length-append text (b ∷ []) in omega arith)
      ∙ ap (λ t. read_name t rest) (append_assoc text (b ∷ []) bs) in
    elim (Bool-cases (ltb b 4)) [
      | inl t ↦ rw t (read_name-quoted text b (quote bs ++ rest) (omega arith) ∙ ih)
      | inr f ↦ rw f (read_name-plain text b (quote bs ++ rest) f (omega arith) ∙ ih)
    ]

read_value-plain :
    (text : Bytes) (b : ℕ) (bs : Bytes)
    → ltb b 4 ≡ false
    → length text < 128
    → read_value text (b ∷ bs) ≡ read_value (text ++ b ∷ []) bs
unfolding read_value
read_value-plain text b [] p h = ground arith
read_value-plain text b (c ∷ cs) p h = ground arith

read_value-quoted :
    (text : Bytes) (b : ℕ) (bs : Bytes)
    → length text < 128
    → read_value text (2 ∷ b ∷ bs) ≡ read_value (text ++ b ∷ []) bs
unfolding read_value
read_value-quoted text b bs h = ground arith

read_value-quote :
    (text value rest : Bytes)
    → length text + length value ≤ 128
    → read_value text (quote value ++ rest) ≡ read_value (text ++ value) rest
unfolding quote
read_value-quote text [] rest h = ap (λ t. read_value t rest) (sym (append-nil text))
read_value-quote text (b ∷ bs) rest h =
    let ih =
      read_value-quote (text ++ b ∷ []) bs rest
        (let more = length-append text (b ∷ []) in omega arith)
      ∙ ap (λ t. read_value t rest) (append_assoc text (b ∷ []) bs) in
    elim (Bool-cases (ltb b 4)) [
      | inl t ↦ rw t (read_value-quoted text b (quote bs ++ rest) (omega arith) ∙ ih)
      | inr f ↦ rw f (read_value-plain text b (quote bs ++ rest) f (omega arith) ∙ ih)
    ]

read_name-ended : (text rest : Bytes) → Follows rest → read_name text rest ≡ ended text rest
unfolding read_name
read_name-ended text [] f = refl
read_name-ended text (b ∷ []) (Follows.at_token _ _ t) = ground arith
read_name-ended text (b ∷ c ∷ cs) (Follows.at_token _ _ t) = ground arith

read_name-valued : (text rest : Bytes) → read_name text (1 ∷ rest) ≡ valued text rest
unfolding read_name
read_name-valued text [] = refl
read_name-valued text (c ∷ cs) = refl

read_value-ended : (text rest : Bytes) → Follows rest → read_value text rest ≡ ended text rest
unfolding read_value
read_value-ended text [] f = refl
read_value-ended text (b ∷ []) (Follows.at_token _ _ t) = ground arith
read_value-ended text (b ∷ c ∷ cs) (Follows.at_token _ _ t) = ground arith

read_variable-quoted :
    (name : Bytes) (value : Option Bytes) (rest : Bytes)
    → length name ≤ 64
    → length (value_text value) ≤ 128
    → Follows rest
    → read_variable (quote name ++ (quoted_value value ++ rest))
      ≡ some (name, value_text value, rest)
unfolding read_variable variable_of value_of
read_variable-quoted name none rest n v f =
    ap variable_of (read_name-quote [] name rest (omega arith) ∙ read_name-ended name rest f)
read_variable-quoted name (some value) rest n v f =
    ap variable_of (
      read_name-quote [] name (1 ∷ (quote value ++ rest)) (omega arith)
      ∙ read_name-valued name (quote value ++ rest))
    ∙ ap (value_of name)
        (read_value-quote [] value rest (omega arith) ∙ read_value-ended value rest f)

write_reports-Follows : (rs : List Report) → All IsReport rs → Follows (write_reports rs)
unfolding write_reports
write_reports-Follows [] a = Follows.at_end
write_reports-Follows (r ∷ rs) (p, a) = Follows.at_token r.token _ p.tokened

-- One round of the loop.
environ_loop-round :
    (host : Peripherals) (rounds token : ℕ) (payload name value rest : Bytes) (s : Session)
    → is_token token ≡ true
    → read_variable payload ≡ some (name, value, rest)
    → environ_loop host (suc rounds) (token ∷ payload) s
      ≡ environ_loop host rounds rest (applied token name value s)
unfolding environ_loop
environ_loop-round host rounds token payload name value rest s t e = rw (t, e, environ_loop) refl

none_left : (r : Report) (rs : List Report) → length (write_reports (r ∷ rs)) ≢ 0
unfolding write_reports
none_left r rs e = absurd (omega arith)

shorter :
    (r : Report) (rs : List Report) (rounds : ℕ)
    → length (write_reports (r ∷ rs)) ≤ suc rounds
    → length (write_reports rs) ≤ rounds
unfolding write_reports
shorter r rs rounds h =
    let outer = length-append (quote r.name) (quoted_value r.value ++ write_reports rs) in
    let inner = length-append (quoted_value r.value) (write_reports rs) in omega arith

environ_loop-none :
    (host : Peripherals) (rounds : ℕ) (s : Session)
    → environ_loop host rounds [] s ≡ update_option_metadata host s
unfolding environ_loop
environ_loop-none host zero s = refl
environ_loop-none host (suc rounds) s = refl

environ_loop-reports :
    (host : Peripherals) (rounds : ℕ) (rs : List Report) (s : Session)
    → All IsReport rs
    → length (write_reports rs) ≤ rounds
    → environ_loop host rounds (write_reports rs) s
      ≡ update_option_metadata host (apply_reports rs s)
unfolding apply_reports write_reports
environ_loop-reports host rounds [] s a fits = environ_loop-none host rounds s
environ_loop-reports host zero (r ∷ rs) s a fits = absurd (none_left r rs (omega arith))
environ_loop-reports host (suc rounds) (r ∷ rs) s (p, a) fits =
    environ_loop-round host rounds r.token _ r.name (value_text r.value) (write_reports rs) s
      p.tokened
      (read_variable-quoted r.name r.value (write_reports rs) p.name_fits p.value_fits
        (write_reports-Follows rs a))
    ∙ environ_loop-reports host rounds rs _ a (shorter r rs rounds fits)

-- The handler of a report that quotes as RFC 1572 asks, with names of at most 64 bytes and values
-- of at most 128, applies exactly the variables reported, in order, and then renews the metadata.
pub environ_payload-reports :
    (host : Peripherals) (command : ℕ) (rs : List Report) (s : Session)
    → (command == 0 || command == 2) ≡ true
    → All IsReport rs
    → environ_payload host (command ∷ write_reports rs) s
      ≡ update_option_metadata host (apply_reports rs s)
unfolding environ_payload
environ_payload-reports host command rs s c a =
    rw c (environ_loop-reports host (length (write_reports rs)) rs s a (omega arith))

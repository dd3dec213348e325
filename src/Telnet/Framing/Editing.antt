-- ===== src/Telnet/Framing/Editing.antt =====
-- A line typed and edited on a terminal.
use telnet_tls_server.Common.{
  ℕ, ◌≡◌, ◌≤◌, ◌+◌, ◌-◌, ◌<◌, ◌^◌, refl, sym, ap, ◌∙◌, false, true, List, [], ◌∷◌, ◌++◌,
  append_assoc, Bytes, length, length-append, All, arith, take,
}
use telnet_tls_server.Telnet.Session.{Session, iac}
use telnet_tls_server.Telnet.Line.{
  line_limit, drop_last, append_line_byte, data_byte, receive_data_byte, handle_control_command,
  clear_current_input, process_complete_line,
}
use telnet_tls_server.Telnet.Line.Bounds.{drop_last-take, line_limit_small}
use telnet_tls_server.Telnet.Framing.{Handlers, parse_byte, byte_after_iac, parse_bytes}
use telnet_tls_server.Telnet.Framing.Chunks.{parse_bytes-open}
use telnet_tls_server.Telnet.Framing.Typing.{
  graphic, typing, parse_byte-graphic, room_left, parse_bytes-crlf,
}

-- What is typed: a character, BS, DEL, or the commands EC (erase character) and EL (erase line).
pub data Key : Type 0 where
  character : ℕ → Key
  backspace delete erase_character erase_line : Key

unfoldable pub key_bytes : Key → Bytes
key_bytes (character b) = b ∷ []
key_bytes backspace = 8 ∷ []
key_bytes delete = 127 ∷ []
key_bytes erase_character = iac ∷ 247 ∷ []
key_bytes erase_line = iac ∷ 248 ∷ []

unfoldable pub keys_bytes : List Key → Bytes
unfolding key_bytes
keys_bytes [] = []
keys_bytes (k ∷ ks) = key_bytes k ++ keys_bytes ks

abbrev but_newest : Bytes → Bytes
but_newest [] = []
but_newest (b ∷ bs) = bs

-- The characters that stand after a key, the newest first.
abbrev pub pressed : Key → Bytes → Bytes
pressed (character b) stack = b ∷ stack
pressed backspace stack = but_newest stack
pressed delete stack = but_newest stack
pressed erase_character stack = but_newest stack
pressed erase_line stack = []

abbrev pub edited : List Key → Bytes → Bytes
edited [] stack = stack
edited (k ∷ ks) stack = edited ks (pressed k stack)

-- The characters never outnumber the limit.
abbrev pub Stays : ℕ → List Key → Bytes → Type 0
Stays limit [] stack = Unit
Stays limit (k ∷ ks) stack = (length (pressed k stack) ≤ limit) × Stays limit ks (pressed k stack)

abbrev pub oldest_first : Bytes → Bytes
oldest_first [] = []
oldest_first (b ∷ bs) = oldest_first bs ++ b ∷ []

-- The key is no control character and no IAC.
abbrev pub IsText : Key → Type 0
IsText (character b) = graphic b ≡ true
IsText k = Unit

length-oldest_first : (bs : Bytes) → length (oldest_first bs) ≡ length bs
length-oldest_first [] = refl
length-oldest_first (b ∷ bs) =
    omega (arith, length-append (oldest_first bs) (b ∷ []), length-oldest_first bs)

take-append : (xs ys : Bytes) → take (length xs) (xs ++ ys) ≡ xs
take-append [] [] = refl
take-append [] (y ∷ ys) = refl
take-append (x ∷ xs) ys = ap (◌∷◌ x) (take-append xs ys)

-- `drop_last` takes the newest character away.
drop_last-oldest_first :
    (stack : Bytes)
    → length stack < 2 ^ 64
    → drop_last (oldest_first stack) ≡ oldest_first (but_newest stack)
drop_last-oldest_first [] h = drop_last-take [] h
drop_last-oldest_first (b ∷ bs) h =
    let more = length-append (oldest_first bs) (b ∷ []) in
    let same_size = length-oldest_first bs in
    drop_last-take (oldest_first bs ++ b ∷ []) (omega arith)
    ∙ ap (λ n. take n (oldest_first bs ++ b ∷ []))
        (one_more (length (oldest_first bs ++ b ∷ [])) (length (oldest_first bs)) more)
    ∙ take-append (oldest_first bs) (b ∷ [])
  where
    one_more : (n m : ℕ) → n ≡ m + 1 → n - 1 ≡ m
    one_more n m e = omega arith

erase_byte :
    (h : Handlers) (now : ℕ) (line : Bytes) (s : Session)
    → (parse_byte h now 8 (typing line s) ≡ typing (drop_last line) s)
      × (parse_byte h now 127 (typing line s) ≡ typing (drop_last line) s)
unfolding parse_byte receive_data_byte data_byte append_line_byte
erase_byte h now line s = (refl, refl)

parse_bytes-erase_character :
    (h : Handlers) (now : ℕ) (rest line : Bytes) (s : Session)
    → s.close_requested ≡ false
    → parse_bytes h now (iac ∷ 247 ∷ rest) (typing line s)
      ≡ parse_bytes h now rest (typing (drop_last line) s)
parse_bytes-erase_character h now rest line s o =
    parse_bytes-open h now iac (247 ∷ rest) (typing line s) o
    ∙ unfold parse_byte byte_after_iac handle_control_command in parse_bytes-open h now 247 rest _ o

parse_bytes-erase_line :
    (h : Handlers) (now : ℕ) (rest line : Bytes) (s : Session)
    → s.close_requested ≡ false
    → s.line_overflow ≡ false
    → parse_bytes h now (iac ∷ 248 ∷ rest) (typing line s) ≡ parse_bytes h now rest (typing [] s)
parse_bytes-erase_line h now rest line s o v =
    parse_bytes-open h now iac (248 ∷ rest) (typing line s) o
    ∙ unfold parse_byte byte_after_iac handle_control_command clear_current_input in
      parse_bytes-open h now 248 rest _ o
      ∙ ap (λ flag. parse_bytes h now rest (record (typing [] s) { line_overflow = flag })) (sym v)

backspace_key :
    (h : Handlers) (now b : ℕ) (rest stack : Bytes) (s : Session)
    → s.close_requested ≡ false
    → length stack ≤ line_limit s.login
    → parse_byte h now b (typing (oldest_first stack) s) ≡ typing (drop_last (oldest_first stack)) s
    → parse_bytes h now (b ∷ rest) (typing (oldest_first stack) s)
      ≡ parse_bytes h now rest (typing (oldest_first (but_newest stack)) s)
backspace_key h now b rest stack s o fits e =
    let small = line_limit_small s.login in
    parse_bytes-open h now b rest (typing (oldest_first stack) s) o
    ∙ ap (parse_bytes h now rest)
        (e ∙ ap (λ l. typing l s) (drop_last-oldest_first stack (omega arith)))

parse_bytes-key :
    (h : Handlers) (now : ℕ) (k : Key) (rest stack : Bytes) (s : Session)
    → s.close_requested ≡ false
    → s.line_overflow ≡ false
    → IsText k
    → length stack ≤ line_limit s.login
    → length (pressed k stack) ≤ line_limit s.login
    → parse_bytes h now (key_bytes k ++ rest) (typing (oldest_first stack) s)
      ≡ parse_bytes h now rest (typing (oldest_first (pressed k stack)) s)
unfolding key_bytes
parse_bytes-key h now (character b) rest stack s o v t held fits =
    let size = length-oldest_first stack in
    parse_bytes-open h now b rest (typing (oldest_first stack) s) o
    ∙ ap (parse_bytes h now rest) (
        parse_byte-graphic h now b (oldest_first stack) s t
          (room_left (line_limit s.login) (length (oldest_first stack)) 0 (omega arith)))
parse_bytes-key h now backspace rest stack s o v t held fits =
    backspace_key h now 8 rest stack s o held (erase_byte h now (oldest_first stack) s).0
parse_bytes-key h now delete rest stack s o v t held fits =
    backspace_key h now 127 rest stack s o held (erase_byte h now (oldest_first stack) s).1
parse_bytes-key h now erase_character rest stack s o v t held fits =
    let small = line_limit_small s.login in
    parse_bytes-erase_character h now rest (oldest_first stack) s o
    ∙ ap (λ l. parse_bytes h now rest (typing l s)) (drop_last-oldest_first stack (omega arith))
parse_bytes-key h now erase_line rest stack s o v t held fits =
    parse_bytes-erase_line h now rest (oldest_first stack) s o v

parse_bytes-keys :
    (h : Handlers) (now : ℕ) (ks : List Key) (rest stack : Bytes) (s : Session)
    → s.close_requested ≡ false
    → s.line_overflow ≡ false
    → All IsText ks
    → length stack ≤ line_limit s.login
    → Stays (line_limit s.login) ks stack
    → parse_bytes h now (keys_bytes ks ++ rest) (typing (oldest_first stack) s)
      ≡ parse_bytes h now rest (typing (oldest_first (edited ks stack)) s)
unfolding keys_bytes
parse_bytes-keys h now [] rest stack s o v text held fits = refl
parse_bytes-keys h now (k ∷ ks) rest stack s o v (t, text) held (fit, fits) =
    ap (λ bytes. parse_bytes h now bytes (typing (oldest_first stack) s))
      (append_assoc (key_bytes k) (keys_bytes ks) rest)
    ∙ parse_bytes-key h now k (keys_bytes ks ++ rest) stack s o v t held fit
    ∙ parse_bytes-keys h now ks rest (pressed k stack) s o v text fit fits

-- An open session between commands, with nothing typed and no overflow, that reads characters (no
-- control character and no IAC), BS, DEL, EC and EL in any order, of which there are never more
-- characters standing than the limit of the login state, and then CR LF, completes exactly the line
-- in which BS, DEL and EC took the newest character away, if there was one, and EL all of them.
pub parse_bytes-edited_line :
    (h : Handlers) (now : ℕ) (ks : List Key) (s : Session)
    → s.close_requested ≡ false
    → s.line_overflow ≡ false
    → All IsText ks
    → Stays (line_limit s.login) ks []
    → parse_bytes h now (keys_bytes ks ++ (b'\r' ∷ b'\n' ∷ [])) (typing [] s)
      ≡ process_complete_line h.dialogue now (typing (oldest_first (edited ks [])) s)
parse_bytes-edited_line h now ks s o v text fits =
    parse_bytes-keys h now ks (b'\r' ∷ b'\n' ∷ []) [] s o v text (omega arith) fits
    ∙ parse_bytes-crlf h now (oldest_first (edited ks [])) s o

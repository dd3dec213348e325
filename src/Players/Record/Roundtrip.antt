-- ===== src/Players/Record/Roundtrip.antt =====
-- Reading a record that was written.
use telnet_tls_server.Common.{
  ℕ, zero, suc, ◌+◌, ◌-◌, ◌<◌, ◌≡◌, refl, ap, ◌∙◌, leb, ◌==◌, Bool, true, false, not, ◌||◌, [], ◌∷◌,
  ◌++◌, some, Bytes, codes, length, length-append, All, All-append, same, c_string, arith,
}
use telnet_tls_server.Players.Names.{
  every, name_byte, player_store_name_valid, ascii_equal_ignore_case,
}
use telnet_tls_server.Players.Names.Rules.{valid-IsName, every-All}
use telnet_tls_server.Players.Record.{
  record_version, newline, record_text, read_line, fgets, strip_before, strip_line_ending, line_of,
  check_lines, parse_record,
}

-- A byte that neither ends a line nor a string.
abbrev pub line_byte : ℕ → Bool
line_byte b = not (b == 0 || (b == 10 || b == 13))

abbrev pub IsLine : Bytes → Type 0
IsLine = All (λ b. line_byte b ≡ true)

read_line-newline :
    (room : ℕ) (text rest : Bytes)
    → IsLine text
    → length text < room
    → read_line room (text ++ (newline ++ rest)) ≡ (text ++ newline, rest)
unfolding read_line
read_line-newline zero text rest l fits = absurd (omega arith)
read_line-newline (suc room) [] rest l fits = refl
read_line-newline (suc room) (b ∷ bs) rest (p, l) fits =
    ground (arith, read_line-newline room bs rest l (omega arith))

fgets-newline :
    (size : ℕ) (text rest : Bytes)
    → IsLine text
    → length text + 1 < size
    → fgets size (text ++ (newline ++ rest)) ≡ some (text ++ newline, rest)
unfolding fgets
fgets-newline size [] rest l fits = ap some (read_line-newline (size - 1) [] rest l (omega arith))
fgets-newline size (b ∷ bs) rest l fits =
    ap some (read_line-newline (size - 1) (b ∷ bs) rest l (omega arith))

c_string-line : (text : Bytes) → IsLine text → c_string (text ++ newline) ≡ text ++ newline
unfolding c_string
c_string-line [] l = refl
c_string-line (b ∷ bs) (p, l) = ground (arith, c_string-line bs l)

strip_before-line : (b : ℕ) (text : Bytes) → line_byte b ≡ true → strip_before b text ≡ b ∷ text
unfolding strip_before
strip_before-line b [] p = ground arith
strip_before-line b (c ∷ cs) p = refl

strip-newline : (text : Bytes) → IsLine text → strip_line_ending (text ++ newline) ≡ text
unfolding strip_line_ending
strip-newline [] l = refl
strip-newline (b ∷ bs) (p, l) = ap (strip_before b) (strip-newline bs l) ∙ strip_before-line b bs p

line_of-newline : (text : Bytes) → IsLine text → line_of (text ++ newline) ≡ text
line_of-newline text l = ap strip_line_ending (c_string-line text l) ∙ strip-newline text l

parse_lines :
    (strbytes : ℕ) (name file version_line rest name_line rest' hash_line rest'' : Bytes)
    → fgets 64 file ≡ some (version_line, rest)
    → fgets 64 rest ≡ some (name_line, rest')
    → fgets (strbytes + 16) rest' ≡ some (hash_line, rest'')
    → parse_record strbytes name file
      ≡ check_lines strbytes name (line_of version_line) (line_of name_line) (line_of hash_line)
unfolding parse_record
parse_lines strbytes name file v rest n rest' h rest'' e f g = rw (e, f, g, parse_record) refl

lt→leb_false : (a b : ℕ) → a < b → leb b a ≡ false
lt→leb_false a b h = ground arith

check_lines-written :
    (strbytes : ℕ) (name written hash : Bytes)
    → player_store_name_valid written ≡ true
    → ascii_equal_ignore_case written name ≡ true
    → length hash < strbytes
    → check_lines strbytes name record_version (codes "name=" ++ written) (codes "hash=" ++ hash)
      ≡ some (record { name = written; password_hash = hash })
unfolding check_lines same
check_lines-written strbytes name written hash v e fits =
    rw (v, e, lt→leb_false (length hash) strbytes fits) refl

check_lines_cong :
    (strbytes : ℕ) (name : Bytes) {a a' b b' c c' : Bytes}
    → a ≡ a'
    → b ≡ b'
    → c ≡ c'
    → check_lines strbytes name a b c ≡ check_lines strbytes name a' b' c'
check_lines_cong strbytes name p q r = cc

name_line_byte : (b : ℕ) → name_byte b ≡ true → line_byte b ≡ true
name_line_byte b p = ground arith

unbroken : (bs : Bytes) → All (λ b. name_byte b ≡ true) bs → IsLine bs
unbroken [] a = tt
unbroken (b ∷ bs) (p, a) = (name_line_byte b p, unbroken bs a)

literal-IsLine : (text : Bytes) → every line_byte text ≡ true → IsLine text
literal-IsLine text e = every-All line_byte text e

-- A hash that libsodium can have written: it fits, and no byte of it ends a line or a string.
pub record IsHash (strbytes : ℕ) (hash : Bytes) : Type 0 where
  pub fits : length hash < strbytes
  pub one_line : IsLine hash

-- A record written under a valid name reads back, under any name equal to it but for case, as the
-- name and the hash written.
pub parse_record-record_text :
    (strbytes : ℕ) (name written hash : Bytes)
    → player_store_name_valid written ≡ true
    → ascii_equal_ignore_case written name ≡ true
    → IsHash strbytes hash
    → parse_record strbytes name (record_text written hash)
      ≡ some (record { name = written; password_hash = hash })
unfolding every
parse_record-record_text strbytes name written hash v e h =
    let valid = valid-IsName written v in
    let version_line = literal-IsLine record_version refl in
    let name_line =
      All-append (λ b. line_byte b ≡ true) (codes "name=") written
        (literal-IsLine (codes "name=") refl)
        (unbroken written (every-All name_byte written valid.plain)) in
    let hash_line =
      All-append (λ b. line_byte b ≡ true) (codes "hash=") hash
        (literal-IsLine (codes "hash=") refl) h.one_line in
    let short = valid.at_most in
    let fits = h.fits in
    let rest = codes "hash=" ++ (hash ++ newline) in
    let first =
      fgets-newline 64 record_version (codes "name=" ++ (written ++ (newline ++ rest))) version_line
        (omega arith) in
    let second =
      fgets-newline 64 (codes "name=" ++ written) rest name_line
        (let l = length-append (codes "name=") written in omega arith) in
    let third =
      fgets-newline (strbytes + 16) (codes "hash=" ++ hash) [] hash_line
        (let l = length-append (codes "hash=") hash in omega arith) in
    parse_lines strbytes name (record_text written hash) _ _ _ _ _ _ first second third
    ∙ check_lines_cong strbytes name (line_of-newline record_version version_line)
        (line_of-newline (codes "name=" ++ written) name_line)
        (line_of-newline (codes "hash=" ++ hash) hash_line)
    ∙ check_lines-written strbytes name written hash v e h.fits

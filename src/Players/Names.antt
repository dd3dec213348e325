-- ===== src/Players/Names.antt =====
-- The rules for names and passwords of src/player_store.c. A name and a password are the bytes of
-- a C string.
pub mod Rules
use telnet_tls_server.Common.{
  ℕ, ◌+◌, ◌-◌, ◌%◌, ltb, leb, ◌==◌, if◌then◌else◌, Bool, true, false, not, ◌&&◌, ◌||◌, List, [],
  ◌∷◌, Option, none, some, Bytes, codes, length, map, same,
}
use telnet_tls_server.Security.Keys.{ascii_lower}

abbrev pub player_name_min : ℕ
player_name_min = 3

abbrev pub player_name_max : ℕ
player_name_max = 15

abbrev pub player_password_min : ℕ
player_password_min = 8

abbrev pub player_password_max : ℕ
player_password_max = 128

-- The two loops that stop where either text ends.
unfoldable pub ascii_equal_ignore_case : Bytes → Bytes → Bool
unfolding ascii_lower
ascii_equal_ignore_case [] [] = true
ascii_equal_ignore_case [] (y ∷ ys) = false
ascii_equal_ignore_case (x ∷ xs) [] = false
ascii_equal_ignore_case (x ∷ xs) (y ∷ ys) =
    (ascii_lower x == ascii_lower y) && ascii_equal_ignore_case xs ys

unfoldable pub every : (ℕ → Bool) → Bytes → Bool
every p [] = true
every p (b ∷ bs) = p b && every p bs

abbrev pub is_digit : ℕ → Bool
is_digit ch = leb b'0' ch && leb ch b'9'

abbrev pub is_letter : ℕ → Bool
is_letter ch = (leb b'A' ch && leb ch b'Z') || (leb b'a' ch && leb ch b'z')

abbrev pub name_byte : ℕ → Bool
name_byte ch = is_letter ch || (is_digit ch || (ch == b'_' || ch == b'-'))

unfoldable pub player_store_name_valid : Bytes → Bool
unfolding every
player_store_name_valid name =
    leb player_name_min (length name) && (leb (length name) player_name_max && every name_byte name)

unfoldable pub password_is_repeated_character : Bytes → Bool
unfolding every
password_is_repeated_character [] = false
password_is_repeated_character (b ∷ bs) = every (λ c. c == b) bs

-- The loop of `password_is_digit_sequence` behind the first byte, with the byte before.
unfoldable pub digits_from : Bool → Bool → ℕ → Bytes → Bool
digits_from ascending descending before [] = ascending || descending
digits_from ascending descending before (b ∷ bs) =
    let previous = before - b'0' in
    let current = b - b'0' in
    is_digit b
    && digits_from (ascending && (current == (previous + 1) % 10))
        (descending && (current == (previous + 9) % 10)) b bs

unfoldable pub password_is_digit_sequence : Bytes → Bool
unfolding digits_from
password_is_digit_sequence [] = false
password_is_digit_sequence (b ∷ bs) =
    if ltb (length (b ∷ bs)) player_password_min
    then false
    else is_digit b && digits_from true true b bs

abbrev pub blocked_passwords : List Bytes
blocked_passwords =
    codes "password"
    ∷ codes "password1"
    ∷ codes "12345678"
    ∷ codes "qwerty123"
    ∷ codes "letmein123"
    ∷ codes "changeme"
    ∷ []

unfoldable pub listed : Bytes → List Bytes → Bool
listed text [] = false
listed text (word ∷ words) = same text word || listed text words

-- `none` is the result -1.
unfoldable pub player_store_password_allowed : Bytes → Bytes → Option Bool
unfolding ascii_equal_ignore_case password_is_repeated_character password_is_digit_sequence listed
player_store_password_allowed player_name password =
    let lowered = map ascii_lower password in
    if ltb player_password_max (length password)
    then none
    else if ltb (length password) player_password_min
    then some false
    else if ascii_equal_ignore_case lowered player_name
        || (password_is_repeated_character password || password_is_digit_sequence password)
    then some false
    else some (not (listed lowered blocked_passwords))

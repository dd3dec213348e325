-- ===== src/Players/Record.antt =====
-- The text of a player record, src/player_store.c: writing and reading it.
pub mod Roundtrip
use telnet_tls_server.Common.{
  ℕ, zero, suc, ◌+◌, ◌-◌, ltb, leb, ◌==◌, if◌then◌else◌, Bool, true, false, not, ◌&&◌, ◌||◌, List,
  [], ◌∷◌, ◌++◌, Option, none, some, Bytes, codes, length, drop, same, c_string,
}
use telnet_tls_server.Players.Names.{player_store_name_valid, ascii_equal_ignore_case}

abbrev pub record_version : Bytes
record_version = codes "player-record-v1"

abbrev pub newline : Bytes
newline = 10 ∷ []

-- The text that `snprintf` is to write.
abbrev pub record_text : Bytes → Bytes → Bytes
record_text name hash =
    record_version
    ++ (newline ++ (codes "name=" ++ (name ++ (newline ++ (codes "hash=" ++ (hash ++ newline))))))

-- `none` is the result -1: the text does not fit with its terminator.
unfoldable pub build_record_text : ℕ → Bytes → Bytes → Option Bytes
build_record_text record_size name hash =
    if leb record_size (length (record_text name hash)) then none else some (record_text name hash)

-- The part of `fgets` that reads at most the given number of bytes, a newline the last of them.
unfoldable pub read_line : ℕ → Bytes → Bytes × Bytes
read_line zero bytes = ([], bytes)
read_line (suc room) [] = ([], [])
read_line (suc room) (b ∷ bs) =
    let (line, rest) = read_line room bs in if b == 10 then (b ∷ [], bs) else (b ∷ line, rest)

-- `fgets` of the C library, with the rest of the file; `none` is NULL, at the end of the file.
unfoldable pub fgets : ℕ → Bytes → Option (Bytes × Bytes)
unfolding read_line
fgets size [] = none
fgets size (b ∷ bs) = some (read_line (size - 1) (b ∷ bs))

abbrev line_end : ℕ → Bool
line_end b = b == 10 || b == 13

-- A byte before a stripped text: it goes as well if it ends the line and nothing is left behind.
unfoldable pub strip_before : ℕ → Bytes → Bytes
strip_before b [] = if line_end b then [] else b ∷ []
strip_before b (c ∷ cs) = b ∷ c ∷ cs

unfoldable pub strip_line_ending : Bytes → Bytes
unfolding strip_before
strip_line_ending [] = []
strip_line_ending (b ∷ bs) = strip_before b (strip_line_ending bs)

-- `strncmp(line, prefix, strlen(prefix)) == 0`
unfoldable pub starts_with : Bytes → Bytes → Bool
starts_with [] line = true
starts_with (p ∷ ps) [] = false
starts_with (p ∷ ps) (b ∷ bs) = (p == b) && starts_with ps bs

pub record LoadedRecord : Type 0 where
  pub name : Bytes
  pub password_hash : Bytes

-- The checks of `load_record` on its three lines.
unfoldable pub check_lines : ℕ → Bytes → Bytes → Bytes → Bytes → Option LoadedRecord
unfolding starts_with player_store_name_valid ascii_equal_ignore_case
check_lines strbytes name version_line name_line hash_line =
    if not (same version_line record_version)
      || (not (starts_with (codes "name=") name_line)
          || not (starts_with (codes "hash=") hash_line))
    then none
    else if not (player_store_name_valid (drop 5 name_line))
        || not (ascii_equal_ignore_case (drop 5 name_line) name)
    then none
    else if leb strbytes (length (drop 5 hash_line))
    then none
    else some (record { name = drop 5 name_line; password_hash = drop 5 hash_line })

abbrev line_of : Bytes → Bytes
line_of raw = strip_line_ending (c_string raw)

-- The part of `load_record` that reads the opened file; `none` is the result -1. `strbytes` is
-- libsodium's `crypto_pwhash_STRBYTES`.
unfoldable pub parse_record : ℕ → Bytes → Bytes → Option LoadedRecord
unfolding fgets check_lines strip_line_ending c_string
parse_record strbytes name file = elim (fgets 64 file) [
  | none ↦ none
  | some (version_line, rest) ↦ elim (fgets 64 rest) [
    | none ↦ none
    | some (name_line, rest') ↦ elim (fgets (strbytes + 16) rest') [
      | none ↦ none
      | some (hash_line, rest'') ↦
          check_lines strbytes name (line_of version_line) (line_of name_line) (line_of hash_line)
    ]
  ]
]

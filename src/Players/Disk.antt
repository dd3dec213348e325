-- ===== src/Players/Disk.antt =====
-- The records of src/player_store.c as files: what the system calls and libsodium answer, the paths,
-- and the two ways to write a record. An operation that asks the host takes the next answers.
pub mod Writes
use telnet_tls_server.Common.{
  ℕ, suc, ◌+◌, ltb, leb, ◌==◌, if◌then◌else◌, Bool, true, false, not, ◌&&◌, ◌||◌, List, [], ◌∷◌,
  ◌++◌, Option, none, some, Bytes, codes, length, map, same,
}
use telnet_tls_server.Security.Keys.{ascii_lower}
use telnet_tls_server.Players.Names.{
  player_store_name_valid, player_password_min, player_password_max,
}
use telnet_tls_server.Players.Record.{LoadedRecord, build_record_text, parse_record}

-- What stands at a path: nothing, a regular file of the server's user that no one else may open, with
-- its text, such a file that `fdopen`, reading or `fclose` fails on, or anything else, which `open`
-- or the checks behind it refuse. A record whose writing succeeded is one that can be read.
pub data Entry : Type 0 where
  missing : Entry
  private_file : Bytes → Entry
  unreadable_file : Bytes → Entry
  unsafe_entry : Entry

-- What the system calls of one write answer.
pub record Answers : Type 0 where
  -- what `mkstemp` puts in place of XXXXXX, if it makes the temporary file
  pub temporary : Option Bytes
  -- what the temporary file is where `fchmod`, `write_all`, `fsync` or `close` of it fails; `none`
  -- where they succeed
  pub spoiled : Option Entry
  -- `link` where nothing stands in the way, or `rename`
  pub published : Bool
  -- `sync_directory`
  pub synced : Bool
  -- `unlink` of the record, after a failure
  pub removed : Bool
  -- `unlink` of the temporary file
  pub cleaned : Bool

pub record Host : Type 0 where
  pub strbytes : ℕ
  pub path_max : ℕ
  -- `crypto_pwhash_str_alg`, with a salt of its own at each call
  pub crypto_pwhash_str : ℕ → Bytes → Option Bytes
  pub crypto_pwhash_str_verify : Bytes → Bytes → Bool
  pub needs_rehash : Bytes → Bool
  pub answers : ℕ → Answers

pub record PlayerStore : Type 0 where
  pub directory : Bytes
  pub files : Bytes → Entry
  -- the operations that have asked the host so far
  pub asked : ℕ

pub data Created : Type 0 where
  created already_there not_created : Created

unfoldable pub put : Bytes → Entry → PlayerStore → PlayerStore
put path entry s = record s { files = λ other. if same other path then entry else s.files other }

unfoldable pub next : PlayerStore → PlayerStore
next s = record s { asked = s.asked + 1 }

abbrev pub record_path : Bytes → Bytes → Bytes
record_path directory name = directory ++ (b'/' ∷ (map ascii_lower name ++ codes ".player"))

-- `none` is the result -1.
unfoldable pub build_player_path : Host → PlayerStore → Bytes → Option Bytes
unfolding player_store_name_valid
build_player_path host s name =
    if not (player_store_name_valid name)
      || leb host.path_max (length (record_path s.directory name))
    then none
    else some (record_path s.directory name)

unfoldable pub unlinked : Bool → Bytes → PlayerStore → PlayerStore
unfolding put
unlinked true path s = put path missing s
unlinked false path s = s

-- The `unlink` of the temporary file at the end, whose own result is ignored.
unfoldable pub tidied {ℓ} : {A : Type ℓ} → Answers → Bytes → PlayerStore × A → PlayerStore × A
unfolding unlinked
tidied answers temp r = (unlinked answers.cleaned temp r.0, r.1)

abbrev pub temporary_path : Bytes → Bytes → Bytes → Bytes
temporary_path directory prefix characters = directory ++ (b'/' ∷ (prefix ++ characters))

abbrev pub write_prefix : Bytes
write_prefix = codes ".player-write-"

abbrev pub rehash_prefix : Bytes
rehash_prefix = codes ".player-rehash-"

-- The temporary path does not fit its buffer.
unfoldable pub template_too_long : Host → Bytes → PlayerStore → Bool
template_too_long host prefix s =
    leb host.path_max (length (temporary_path s.directory prefix (codes "XXXXXX")))

-- `link` of the complete file, and the directory's `fsync`, after whose failure the link is removed.
unfoldable pub publish_new : Answers → Bytes → Bytes → Entry → PlayerStore → PlayerStore × Created
unfolding put unlinked
publish_new answers path text missing s =
    if not answers.published
    then (s, not_created)
    else if answers.synced
    then (put path (private_file text) s, created)
    else (unlinked answers.removed path (put path (private_file text) s), not_created)
publish_new answers path text (private_file old) s = (s, already_there)
publish_new answers path text (unreadable_file old) s = (s, already_there)
publish_new answers path text unsafe_entry s = (s, already_there)

-- From `fchmod` of the temporary file to the label `cleanup`.
unfoldable pub link_written :
    Answers → Bytes → Bytes → Bytes → Option Entry → PlayerStore → PlayerStore × Created
unfolding publish_new put
link_written answers temp path text (some left) s = (put temp left s, not_created)
link_written answers temp path text none s =
    let written = put temp (private_file text) s in
    publish_new answers path text (written.files path) written

-- From `mkstemp` on.
unfoldable pub write_temporary :
    Answers → Bytes → Bytes → Option Bytes → PlayerStore → PlayerStore × Created
unfolding link_written tidied
write_temporary answers path text none s = (s, not_created)
write_temporary answers path text (some characters) s =
    let temp = temporary_path s.directory write_prefix characters in
    tidied answers temp (link_written answers temp path text answers.spoiled s)

-- With the text of the record, if it fits.
unfoldable pub write_text_new : Host → Bytes → Option Bytes → PlayerStore → PlayerStore × Created
unfolding write_temporary next
write_text_new host path none s = (s, not_created)
write_text_new host path (some text) s =
    let answers = host.answers s.asked in
    write_temporary answers path text answers.temporary (next s)

unfoldable pub write_new_at :
    Host → Bytes → Bytes → Option Bytes → PlayerStore → PlayerStore × Created
unfolding write_text_new build_record_text template_too_long
write_new_at host name hash none s = (s, not_created)
write_new_at host name hash (some path) s =
    if template_too_long host write_prefix s
    then (s, not_created)
    else write_text_new host path (build_record_text 512 name hash) s

unfoldable pub write_new_record_atomic : Host → Bytes → Bytes → PlayerStore → PlayerStore × Created
unfolding build_player_path write_new_at
write_new_record_atomic host name hash s =
    write_new_at host name hash (build_player_path host s name) s

-- The Boolean is true where the result is 0. A failed `fsync` leaves the new text in place.
unfoldable pub publish_over : Answers → Bytes → Bytes → Bytes → PlayerStore → PlayerStore × Bool
unfolding put
publish_over answers temp path text s =
    if answers.published
    then (put temp missing (put path (private_file text) s), answers.synced)
    else (s, false)

-- From `fchmod` of the temporary file to the label `cleanup`.
unfoldable pub rename_written :
    Answers → Bytes → Bytes → Bytes → Option Entry → PlayerStore → PlayerStore × Bool
unfolding publish_over put
rename_written answers temp path text (some left) s = (put temp left s, false)
rename_written answers temp path text none s =
    publish_over answers temp path text (put temp (private_file text) s)

-- From `mkstemp` on.
unfoldable pub replace_temporary :
    Answers → Bytes → Bytes → Option Bytes → PlayerStore → PlayerStore × Bool
unfolding rename_written tidied
replace_temporary answers path text none s = (s, false)
replace_temporary answers path text (some characters) s =
    let temp = temporary_path s.directory rehash_prefix characters in
    tidied answers temp (rename_written answers temp path text answers.spoiled s)

-- With the text of the record, if it fits.
unfoldable pub replace_text : Host → Bytes → Option Bytes → PlayerStore → PlayerStore × Bool
unfolding replace_temporary next
replace_text host path none s = (s, false)
replace_text host path (some text) s =
    let answers = host.answers s.asked in
    replace_temporary answers path text answers.temporary (next s)

unfoldable pub replace_at : Host → Bytes → Bytes → Option Bytes → PlayerStore → PlayerStore × Bool
unfolding replace_text build_record_text template_too_long
replace_at host name hash none s = (s, false)
replace_at host name hash (some path) s =
    if template_too_long host rehash_prefix s
    then (s, false)
    else replace_text host path (build_record_text 512 name hash) s

unfoldable pub replace_record_atomic : Host → Bytes → Bytes → PlayerStore → PlayerStore × Bool
unfolding build_player_path replace_at
replace_record_atomic host name hash s = replace_at host name hash (build_player_path host s name) s

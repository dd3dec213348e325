-- ===== src/Players/Store.antt =====
-- The operations of src/player_store.c on accounts: loading, creating and verifying.
pub mod Create
pub mod Verify
use telnet_tls_server.Common.{
  ℕ, suc, ◌+◌, ltb, leb, ◌==◌, if◌then◌else◌, Bool, true, false, not, ◌&&◌, ◌||◌, List, [], ◌∷◌,
  ◌++◌, Option, none, some, Bytes, codes, length, map, same,
}
use telnet_tls_server.Security.Keys.{ascii_lower}
use telnet_tls_server.Players.Names.{
  player_store_name_valid, player_password_min, player_password_max,
}
use telnet_tls_server.Players.Record.{LoadedRecord, build_record_text, parse_record}
use telnet_tls_server.Players.Disk.{
  Entry, missing, private_file, unreadable_file, unsafe_entry, Host, PlayerStore, Created, created,
  not_created, next, build_player_path, write_new_record_atomic, replace_record_atomic,
}

-- 0 with the record, 1 or -1 of `load_record`.
pub data Loaded : Type 0 where
  loaded : LoadedRecord → Loaded
  no_record not_loaded : Loaded

unfoldable pub checked : Option LoadedRecord → Loaded
checked none = not_loaded
checked (some found) = loaded found

unfoldable pub load_entry : Host → Bytes → Entry → Loaded
unfolding parse_record checked
load_entry host name missing = no_record
load_entry host name unsafe_entry = not_loaded
load_entry host name (unreadable_file text) = not_loaded
load_entry host name (private_file text) = checked (parse_record host.strbytes name text)

unfoldable pub load_at : Host → PlayerStore → Bytes → Option Bytes → Loaded
unfolding load_entry
load_at host s name none = not_loaded
load_at host s name (some path) = load_entry host name (s.files path)

unfoldable pub load_record : Host → PlayerStore → Bytes → Loaded
unfolding load_at build_player_path
load_record host s name = load_at host s name (build_player_path host s name)

-- `none` is the result -1.
unfoldable pub presence : Loaded → Option Bool
presence (loaded found) = some true
presence no_record = some false
presence not_loaded = none

unfoldable pub player_store_exists : Host → PlayerStore → Bytes → Option Bool
unfolding load_record presence
player_store_exists host s name = presence (load_record host s name)

-- A token is the C string in its 256 bytes, empty when it is cleared. A NULL token is no case.
unfoldable pub player_store_create : Host → PlayerStore → Bytes → Bytes → PlayerStore × Created
player_store_create host s name token =
    if not (player_store_name_valid name)
      || (length token == 0 || (leb 256 (length token) || leb host.strbytes (length token)))
    then (s, not_created)
    else write_new_record_atomic host name token s

-- `none` is the result -1.
unfoldable pub player_store_prepare_password :
    Host → PlayerStore → Bytes → PlayerStore × Option Bytes
unfolding next
player_store_prepare_password host s password =
    if ltb (length password) player_password_min || ltb player_password_max (length password)
    then (s, none)
    else (next s, host.crypto_pwhash_str s.asked password)

unfoldable pub player_store_password_matches : Host → Bytes → Bytes → Option Bool
player_store_password_matches host token password =
    if ltb player_password_max (length password) || (length token == 0 || leb 256 (length token))
    then none
    else some (host.crypto_pwhash_str_verify token password)

-- What `player_store_verify_password` leaves, returns and reports in `rehashed`.
pub record Verified : Type 0 where
  pub store : PlayerStore
  pub result : Option Bool
  pub rehashed : Bool

unfoldable pub upgraded : Host → LoadedRecord → Option Bytes → PlayerStore → Verified
unfolding replace_record_atomic
upgraded host found none s = record { store = s; result = some true; rehashed = false }
upgraded host found (some hash) s =
    let (after, done) = replace_record_atomic host found.name hash s in
    record { store = after; result = some true; rehashed = done }

unfoldable pub verify_loaded : Host → PlayerStore → Bytes → LoadedRecord → Verified
unfolding upgraded next
verify_loaded host s password found =
    if not (host.crypto_pwhash_str_verify found.password_hash password)
    then record { store = s; result = some false; rehashed = false }
    else if host.needs_rehash found.password_hash
    then upgraded host found (host.crypto_pwhash_str s.asked password) (next s)
    else record { store = s; result = some true; rehashed = false }

abbrev not_verified : PlayerStore → Verified
not_verified s = record { store = s; result = none; rehashed = false }

unfoldable pub verify_found : Host → PlayerStore → Bytes → Loaded → Verified
unfolding verify_loaded
verify_found host s password (loaded found) = verify_loaded host s password found
verify_found host s password no_record = not_verified s
verify_found host s password not_loaded = not_verified s

unfoldable pub player_store_verify_password : Host → PlayerStore → Bytes → Bytes → Verified
unfolding load_record verify_found
player_store_verify_password host s name password =
    if ltb player_password_max (length password)
    then not_verified s
    else verify_found host s password (load_record host s name)

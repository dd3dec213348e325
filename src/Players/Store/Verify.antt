-- ===== src/Players/Store/Verify.antt =====
-- A password and the record it was stored in.
use telnet_tls_server.Common.{
  ℕ, ◌≡◌, refl, ap, ◌∙◌, ltb, if◌then◌else◌, Bool, true, false, Option, none, some, Bool-cases, inl,
  inr, Bytes, length, arith,
}
use telnet_tls_server.Players.Names.{
  player_password_max, player_store_name_valid, ascii_equal_ignore_case,
}
use telnet_tls_server.Players.Record.{LoadedRecord}
use telnet_tls_server.Players.Record.Roundtrip.{IsHash}
use telnet_tls_server.Players.Disk.{Host, PlayerStore, created, next}
use telnet_tls_server.Players.Store.{
  Loaded, loaded, no_record, not_loaded, load_record, upgraded, verify_loaded, verify_found,
  player_store_create, player_store_prepare_password, player_store_verify_password,
}
use telnet_tls_server.Players.Store.Create.{create_created}

-- What libsodium documents of its password strings: one that it made verifies with the password
-- it was made of, is a single line of text, and fits `crypto_pwhash_STRBYTES` with its terminator.
pub record SodiumLaws (host : Host) : Type 0 where
  pub verifies :
      (call : ℕ) (password hash : Bytes)
      → host.crypto_pwhash_str call password ≡ some hash
      → host.crypto_pwhash_str_verify hash password ≡ true
  pub well_formed :
      (call : ℕ) (password hash : Bytes)
      → host.crypto_pwhash_str call password ≡ some hash
      → IsHash host.strbytes hash

upgraded-result :
    (host : Host) (found : LoadedRecord) (hash : Option Bytes) (s : PlayerStore)
    → (upgraded host found hash s).result ≡ some true
unfolding upgraded
upgraded-result host found none s = refl
upgraded-result host found (some hash) s = refl

verify_loaded-result :
    (host : Host) (s : PlayerStore) (password : Bytes) (found : LoadedRecord)
    → (verify_loaded host s password found).result
      ≡ some (host.crypto_pwhash_str_verify found.password_hash password)
unfolding verify_loaded
verify_loaded-result host s password found =
    elim (Bool-cases (host.crypto_pwhash_str_verify found.password_hash password)) [
      | inr f ↦ rw f refl
      | inl t ↦ elim (Bool-cases (host.needs_rehash found.password_hash)) [
        | inl y ↦ rw (t, y) (upgraded-result host found _ (next s))
        | inr n ↦ rw (t, n) refl
      ]
    ]

-- What libsodium says of the password and a record loaded.
abbrev pub verdict : Host → Bytes → Loaded → Option Bool
verdict host password (loaded found) =
    some (host.crypto_pwhash_str_verify found.password_hash password)
verdict host password no_record = none
verdict host password not_loaded = none

verify_found-result :
    (host : Host) (s : PlayerStore) (password : Bytes) (found : Loaded)
    → (verify_found host s password found).result ≡ verdict host password found
unfolding verify_found
verify_found-result host s password (loaded found) = verify_loaded-result host s password found
verify_found-result host s password no_record = refl
verify_found-result host s password not_loaded = refl

-- Whether a hash upgrade succeeds or not, the result of `player_store_verify_password` is that of
-- libsodium on the stored hash; without a record that can be loaded, or with more than 128 bytes,
-- it is an error.
pub verify_password-result :
    (host : Host) (s : PlayerStore) (name password : Bytes)
    → (player_store_verify_password host s name password).result ≡ (
        if ltb player_password_max (length password)
        then none
        else verdict host password (load_record host s name))
unfolding player_store_verify_password
verify_password-result host s name password =
    elim (Bool-cases (ltb player_password_max (length password))) [
      | inl t ↦ rw t refl
      | inr f ↦ rw f (verify_found-result host s password (load_record host s name))
    ]

-- A password is prepared only if its length is allowed, by libsodium.
pub prepared_lem :
    (host : Host) (s : PlayerStore) (password token : Bytes)
    → (player_store_prepare_password host s password).1 ≡ some token
    → (ltb player_password_max (length password) ≡ false)
      × (host.crypto_pwhash_str s.asked password ≡ some token)
unfolding player_store_prepare_password
prepared_lem host s password token p = ground arith

-- A password that was prepared and stored is accepted afterwards, under every way to write the
-- name, given what libsodium documents.
pub stored_password :
    (host : Host) (s : PlayerStore) (name other password token : Bytes)
    → SodiumLaws host
    → (player_store_prepare_password host s password).1 ≡ some token
    → (player_store_create host (player_store_prepare_password host s password).0 name token).1
      ≡ created
    → player_store_name_valid other ≡ true
    → ascii_equal_ignore_case other name ≡ true
    → (player_store_verify_password host
        (player_store_create host (player_store_prepare_password host s password).0 name token).0
        other
        password).result
      ≡ some true
stored_password host s name other password token laws p c v e =
    let made = prepared_lem host s password token p in
    let kept =
      create_created host (player_store_prepare_password host s password).0 name token other c
        (laws.well_formed s.asked password token made.1) v e in
    verify_password-result host _ other password
    ∙ rw (made.0, kept.1) (ap some (laws.verifies s.asked password token made.1))

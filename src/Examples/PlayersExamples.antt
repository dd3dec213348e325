-- ===== src/Examples/PlayersExamples.antt =====
-- The player store at concrete accounts.
use telnet_tls_server.Common.{
  same, ◌≡◌, ◌≢◌, refl, sym, ◌∙◌, true, false, none, some, Bytes, codes, arith,
}
use telnet_tls_server.Security.Keys.{ascii_lower}
use telnet_tls_server.Players.Names.{
  every, ascii_equal_ignore_case, player_store_name_valid, player_store_password_allowed,
}
use telnet_tls_server.Players.Names.Rules.{every-All}
use telnet_tls_server.Players.Record.{record_text, parse_record}
use telnet_tls_server.Players.Record.Roundtrip.{IsHash, line_byte, parse_record-record_text}
use telnet_tls_server.Players.Disk.{
  Host, PlayerStore, created, not_created, missing, write_new_record_atomic,
}
use telnet_tls_server.Players.Store.{
  no_record, loaded, load_record, player_store_create, player_store_prepare_password,
  player_store_verify_password,
}
use telnet_tls_server.Players.Store.Create.{create_created, create_failed}
use telnet_tls_server.Players.Store.Verify.{stored_password}
use telnet_tls_server.Examples.Fixtures.{toy_hash, toy_host, toy_host-SodiumLaws, empty_store}

abbrev ada : Bytes
ada = codes "Ada"

abbrev ada_shouted : Bytes
ada_shouted = codes "ADA"

abbrev secret : Bytes
secret = codes "lovelace-1843"

secret-IsHash : IsHash 128 secret
unfolding every
secret-IsHash = record { fits = omega arith; one_line = every-All line_byte secret refl }

-- A host that cannot sync the directory of the records.
abbrev unsynced_host : Host
unsynced_host = record toy_host {
  answers = λ call. record {
    temporary = some (codes "a1b2c3");
    spoiled = none;
    published = true;
    synced = false;
    removed = true;
    cleaned = true;
  };
}

not_synced : (player_store_create unsynced_host empty_store ada secret).1 ≡ not_created
unfolding player_store_create player_store_name_valid write_new_record_atomic same ascii_lower
not_synced = refl

failure : not_created ≢ created
failure e = cc

create_failed_example :
    (player_store_create unsynced_host empty_store ada secret).0.files
      (codes "players/.player-write-a1b2c3")
    ≡ missing
create_failed_example =
    create_failed unsynced_host empty_store ada secret refl refl refl
      (λ e. failure (sym not_synced ∙ e)) (codes "players/.player-write-a1b2c3")

ada-created : (player_store_create toy_host empty_store ada secret).1 ≡ created
unfolding player_store_create player_store_name_valid write_new_record_atomic same ascii_lower
ada-created = refl

create_created_example :
    (load_record toy_host empty_store ada_shouted ≡ no_record)
    × (load_record toy_host (player_store_create toy_host empty_store ada secret).0 ada_shouted
        ≡ loaded (record { name = ada; password_hash = secret }))
unfolding player_store_name_valid ascii_equal_ignore_case
create_created_example =
    create_created toy_host empty_store ada secret ada_shouted ada-created secret-IsHash refl refl

parse_record-record_text_example :
    parse_record 128 ada_shouted (record_text ada secret)
    ≡ some (record { name = ada; password_hash = secret })
unfolding player_store_name_valid ascii_equal_ignore_case
parse_record-record_text_example =
    parse_record-record_text 128 ada_shouted ada secret refl refl secret-IsHash

abbrev prepared : PlayerStore
prepared = (player_store_prepare_password toy_host empty_store secret).0

secret-prepared : (player_store_prepare_password toy_host empty_store secret).1 ≡ some secret
unfolding player_store_prepare_password toy_hash every
secret-prepared = refl

ada-stored : (player_store_create toy_host prepared ada secret).1 ≡ created
unfolding player_store_create player_store_prepare_password player_store_name_valid
    write_new_record_atomic same ascii_lower
ada-stored = refl

stored_password_example :
    (player_store_verify_password toy_host
      (player_store_create toy_host prepared ada secret).0
      ada_shouted
      secret).result
    ≡ some true
unfolding player_store_name_valid ascii_equal_ignore_case
stored_password_example =
    stored_password toy_host empty_store ada ada_shouted secret secret toy_host-SodiumLaws
      secret-prepared ada-stored refl refl

-- Ten digits in order are refused, and so is the name.
digits_refused : player_store_password_allowed ada (codes "1234567890") ≡ some false
unfolding player_store_password_allowed
digits_refused = refl

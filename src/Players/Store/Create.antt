-- ===== src/Players/Store/Create.antt =====
-- What `player_store_create` leaves on the disk.
use telnet_tls_server.Common.{
  ℕ, ◌≡◌, ◌≢◌, refl, sym, ap, ◌∙◌, subst, ◌∷◌, ◌++◌, codes, leb, ◌==◌, if◌then◌else◌, true, ◌||◌,
  Option, none, some, Bool-cases, inl, inr, Bytes, ◌⊎◌, length, arith,
}
use telnet_tls_server.Players.Names.{player_store_name_valid, ascii_equal_ignore_case}
use telnet_tls_server.Players.Names.Rules.{ignore_case→eq, eq→ignore_case}
use telnet_tls_server.Players.Record.{LoadedRecord, record_text, build_record_text, parse_record}
use telnet_tls_server.Players.Record.Roundtrip.{IsHash, parse_record-record_text}
use telnet_tls_server.Players.Disk.{
  missing, private_file, Answers, Host, PlayerStore, Created, created, not_created, next,
  record_path, build_player_path, temporary_path, write_prefix, template_too_long, write_temporary,
  write_text_new, write_new_at, write_new_record_atomic,
}
use telnet_tls_server.Players.Disk.Writes.{
  Written, record_path-temporary_path, link_written-Written,
}
use telnet_tls_server.Players.Store.{
  loaded, no_record, load_entry, load_record, load_at, checked, player_store_create,
}

path-valid :
    (host : Host) (s : PlayerStore) (name : Bytes)
    → player_store_name_valid name ≡ true
    → build_player_path host s name ≡ (
        if leb host.path_max (length (record_path s.directory name))
        then none
        else some (record_path s.directory name))
unfolding build_player_path
path-valid host s name v = rw v refl

-- The path of a valid name, if there is one.
path_lem :
    (host : Host) (s : PlayerStore) (name path : Bytes)
    → player_store_name_valid name ≡ true
    → build_player_path host s name ≡ some path
    → path ≡ record_path s.directory name
path_lem host s name path v e = let f = path-valid host s name v in ground arith

-- The temporary file of the next write does not stand there yet: `mkstemp` makes a new file.
abbrev pub IsNewName : PlayerStore → Option Bytes → Type 0
IsNewName s none = Unit
IsNewName s (some characters) =
    s.files (temporary_path s.directory write_prefix characters) ≡ missing

-- How `player_store_create` ends: before it makes the temporary file, or by writing the record of a
-- valid name.
data Ends (host : Host) (s : PlayerStore) (name token : Bytes) (r : PlayerStore × Created)
    : Type 0 where
  early :
      r.1 ≡ not_created
      → ((other : Bytes) → r.0.files other ≡ s.files other)
      → Ends host s name token r
  written :
      (path characters : Bytes)
      → player_store_name_valid name ≡ true
      → build_player_path host s name ≡ some path
      → (host.answers s.asked).temporary ≡ some characters
      → Written
          (host.answers s.asked)
          path
          (record_text name token)
          (temporary_path s.directory write_prefix characters)
          s
          r
      → Ends host s name token r

built :
    (size : ℕ) (name hash : Bytes)
    → (build_record_text size name hash ≡ none)
      ⊎ (build_record_text size name hash ≡ some (record_text name hash))
unfolding build_record_text
built size name hash = elim (Bool-cases (leb size (length (record_text name hash)))) [
  | inl t ↦ inl (rw t refl)
  | inr f ↦ inr (rw f refl)
]

-- The count of operations aside, the store is as it was.
Written-next :
    {answers : Answers} {path text temp : Bytes} {s : PlayerStore} {r : PlayerStore × Created}
    → Written answers path text temp (next s) r
    → Written answers path text temp s r
unfolding next
Written-next w = record { done = w.done; kept = w.kept }

write_temporary-Ends :
    (host : Host) (s : PlayerStore) (name token path : Bytes) (temporary : Option Bytes)
    → player_store_name_valid name ≡ true
    → build_player_path host s name ≡ some path
    → (host.answers s.asked).temporary ≡ temporary
    → Ends host s name token
        (write_temporary (host.answers s.asked) path (record_text name token) temporary (next s))
unfolding write_temporary next
write_temporary-Ends host s name token path none v e t = Ends.early refl (λ other. refl)
write_temporary-Ends host s name token path (some characters) v e t =
    Ends.written path characters v e t (
      Written-next (
        link_written-Written (host.answers s.asked)
          (temporary_path s.directory write_prefix characters) path (record_text name token)
          (host.answers s.asked).spoiled (next s)
          (λ same_path.
            record_path-temporary_path s.directory name characters v
              (sym (path_lem host s name path v e) ∙ same_path))))

write_text_new-Ends :
    (host : Host) (s : PlayerStore) (name token path : Bytes)
    → player_store_name_valid name ≡ true
    → build_player_path host s name ≡ some path
    → Ends host s name token (write_text_new host path (some (record_text name token)) s)
unfolding write_text_new
write_text_new-Ends host s name token path v e =
    write_temporary-Ends host s name token path (host.answers s.asked).temporary v e refl

write_new_at-Ends :
    (host : Host) (s : PlayerStore) (name token : Bytes) (at : Option Bytes)
    → player_store_name_valid name ≡ true
    → build_player_path host s name ≡ at
    → Ends host s name token (write_new_at host name token at s)
unfolding write_new_at
write_new_at-Ends host s name token none v e = Ends.early refl (λ other. refl)
write_new_at-Ends host s name token (some path) v e =
    elim (Bool-cases (template_too_long host write_prefix s)) [
      | inl long ↦ rw long (Ends.early refl (λ other. refl))
      | inr short ↦ elim (built 512 name token) [
        | inl f ↦ rw (short, f) (Ends.early refl (λ other. refl))
        | inr t ↦ rw (short, t) (write_text_new-Ends host s name token path v e)
      ]
    ]

write_new-Ends :
    (host : Host) (s : PlayerStore) (name token : Bytes)
    → player_store_name_valid name ≡ true
    → Ends host s name token (write_new_record_atomic host name token s)
unfolding write_new_record_atomic
write_new-Ends host s name token v =
    write_new_at-Ends host s name token (build_player_path host s name) v refl

create-Ends :
    (host : Host) (s : PlayerStore) (name token : Bytes)
    → Ends host s name token (player_store_create host s name token)
unfolding player_store_create
create-Ends host s name token = elim (Bool-cases (player_store_name_valid name)) [
  | inr f ↦ rw f (Ends.early refl (λ other. refl))
  | inl v ↦
      elim (Bool-cases
        (length token == 0 || (leb 256 (length token) || leb host.strbytes (length token)))) [
          | inl t ↦ rw (v, t) (Ends.early refl (λ other. refl))
          | inr f ↦ rw (v, f) (write_new-Ends host s name token v)
        ]
]

kept_of :
    {host : Host} {s : PlayerStore} {name token : Bytes} {r : PlayerStore × Created}
    → Ends host s name token r
    → (host.answers s.asked).removed ≡ true
    → (host.answers s.asked).cleaned ≡ true
    → IsNewName s (host.answers s.asked).temporary
    → r.1 ≢ created
    → (other : Bytes) → r.0.files other ≡ s.files other
kept_of (Ends.early e kept) r y fresh n other = kept other
kept_of {s = s} (Ends.written path characters v e t w) r y fresh n other =
    w.kept r y (subst (IsNewName s) t fresh) n other

-- Whatever else fails: if the result is not 0, every file is as it was before, the temporary file
-- included, provided that `mkstemp` chose a name where nothing stood, that the temporary file can
-- be removed, and the record as well when the directory could not be synced.
pub create_failed :
    (host : Host) (s : PlayerStore) (name token : Bytes)
    → (host.answers s.asked).removed ≡ true
    → (host.answers s.asked).cleaned ≡ true
    → IsNewName s (host.answers s.asked).temporary
    → (player_store_create host s name token).1 ≢ created
    → (other : Bytes) → (player_store_create host s name token).0.files other ≡ s.files other
create_failed host s name token r y fresh n = kept_of (create-Ends host s name token) r y fresh n

-- One path for all the ways to write a name.
path-ignore_case :
    (host : Host) (s : PlayerStore) (name other : Bytes)
    → player_store_name_valid name ≡ true
    → player_store_name_valid other ≡ true
    → ascii_equal_ignore_case other name ≡ true
    → build_player_path host s other ≡ build_player_path host s name
path-ignore_case host s name other v w e =
    path-valid host s other w
    ∙ ap
        (λ text.
          let path = s.directory ++ (b'/' ∷ (text ++ codes ".player")) in
          if leb host.path_max (length path) then none else some path)
        (ignore_case→eq other name e)
    ∙ sym (path-valid host s name v)

path-directory :
    (host : Host) (s v : PlayerStore) (name : Bytes)
    → v.directory ≡ s.directory
    → build_player_path host v name ≡ build_player_path host s name
unfolding build_player_path
path-directory host s v name e = rw e refl

load_record-at :
    (host : Host) (s : PlayerStore) (name path : Bytes)
    → build_player_path host s name ≡ some path
    → load_record host s name ≡ load_entry host name (s.files path)
unfolding load_record
load_record-at host s name path e = ap (load_at host s name) e

load_entry-parsed :
    (host : Host) (name text : Bytes) (found : LoadedRecord)
    → parse_record host.strbytes name text ≡ some found
    → load_entry host name (private_file text) ≡ loaded found
unfolding load_entry
load_entry-parsed host name text found e = ap checked e

not_both : not_created ≢ created
not_both e = cc

created_of :
    {host : Host} {s : PlayerStore} {name token : Bytes} {r : PlayerStore × Created} (other : Bytes)
    → Ends host s name token r
    → r.1 ≡ created
    → IsHash host.strbytes token
    → player_store_name_valid other ≡ true
    → ascii_equal_ignore_case other name ≡ true
    → (load_record host s other ≡ no_record)
      × (load_record host r.0 other ≡ loaded (record { name = name; password_hash = token }))
unfolding load_entry
created_of other (Ends.early n kept) c h v e = absurd (not_both (sym n ∙ c))
created_of {host} {s} {name} {token} {r} other (Ends.written path characters w at t z) c h v e =
    let text = record_text name token in
    let there = path-ignore_case host s name other w v e ∙ at in
    let (fresh, same_directory, stands) = z.done c in
    (
      load_record-at host s other path there ∙ ap (load_entry host other) fresh,
      load_record-at host r.0 other path (path-directory host s r.0 other same_directory ∙ there)
          ∙ ap (load_entry host other) stands
          ∙ load_entry-parsed host other text _ (
              parse_record-record_text host.strbytes other name token w
                (eq→ignore_case name other (sym (ignore_case→eq other name e))) h),
    )

-- If a record is created from a token that is one line and fits, then every valid name that equals the
-- player's but for case loaded no record before, and loads the name and the token afterwards.
pub create_created :
    (host : Host) (s : PlayerStore) (name token other : Bytes)
    → (player_store_create host s name token).1 ≡ created
    → IsHash host.strbytes token
    → player_store_name_valid other ≡ true
    → ascii_equal_ignore_case other name ≡ true
    → (load_record host s other ≡ no_record)
      × (load_record host (player_store_create host s name token).0 other
          ≡ loaded (record { name = name; password_hash = token }))
create_created host s name token other c h v e =
    created_of other (create-Ends host s name token) c h v e

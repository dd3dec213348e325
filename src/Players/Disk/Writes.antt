-- ===== src/Players/Disk/Writes.antt =====
-- What the writing of a new record leaves in the files, the temporary one included.
use telnet_tls_server.Common.{
  ℕ, ◌≡◌, ◌≢◌, refl, sym, ap, ◌∙◌, [], ◌∷◌, ◌++◌, Bool, true, false, ◌&&◌, Option, none, some,
  Bool-cases, inl, inr, Bytes, same, same→eq, same_refl, get_elem?, arith,
}
use telnet_tls_server.Security.Keys.{ascii_lower}
use telnet_tls_server.Players.Names.{every, name_byte, player_store_name_valid}
use telnet_tls_server.Players.Disk.{
  Entry, missing, private_file, unreadable_file, unsafe_entry, Answers, PlayerStore, Created,
  created, put, unlinked, tidied, record_path, temporary_path, write_prefix, publish_new,
  link_written,
}

put_self : (path : Bytes) (entry : Entry) (s : PlayerStore) → (put path entry s).files path ≡ entry
unfolding put
put_self path entry s = rw (same_refl path) refl

put_off :
    (path other : Bytes) (entry : Entry) (s : PlayerStore)
    → same other path ≡ false
    → (put path entry s).files other ≡ s.files other
unfolding put
put_off path other entry s f = rw f refl

put_other :
    (path other : Bytes) (entry : Entry) (s : PlayerStore)
    → other ≢ path
    → (put path entry s).files other ≡ s.files other
put_other path other entry s ne = elim (Bool-cases (same other path)) [
  | inl t ↦ absurd (ne (same→eq other path t))
  | inr f ↦ put_off path other entry s f
]

-- A file that was not there is put and taken away, with nothing else done to the others.
put_back :
    (path other : Bytes) (entry : Entry) (s v : PlayerStore)
    → s.files path ≡ missing
    → v.files other ≡ (put path entry s).files other
    → (put path missing v).files other ≡ s.files other
put_back path other entry s v fresh e = elim (Bool-cases (same other path)) [
  | inl t ↦
      ap (put path missing v).files (same→eq other path t)
      ∙ put_self path missing v
      ∙ sym fresh
      ∙ ap s.files (sym (same→eq other path t))
  | inr f ↦ put_off path other missing v f ∙ e ∙ put_off path other entry s f
]

unlinked_other :
    (done : Bool) (path other : Bytes) (s : PlayerStore)
    → other ≢ path
    → (unlinked done path s).files other ≡ s.files other
unfolding unlinked
unlinked_other true path other s ne = put_other path other missing s ne
unlinked_other false path other s ne = refl

unlinked-directory :
    (done : Bool) (path : Bytes) (s : PlayerStore) → (unlinked done path s).directory ≡ s.directory
unfolding unlinked put
unlinked-directory true path s = refl
unlinked-directory false path s = refl

append_cancel : (front xs ys : Bytes) → front ++ xs ≡ front ++ ys → xs ≡ ys
append_cancel [] xs ys e = e
append_cancel (b ∷ bs) xs ys e = append_cancel bs xs ys (ap behind e)
  where
    behind : Bytes → Bytes
    behind [] = []
    behind (c ∷ cs) = cs

no_dot : (c : ℕ) (rest : Bool) → (name_byte c && rest) ≡ true → some (ascii_lower c) ≢ some b'.'
unfolding ascii_lower
no_dot c rest v e = ground arith

-- The path of a record is never that of a temporary file.
pub record_path-temporary_path :
    (directory name characters : Bytes)
    → player_store_name_valid name ≡ true
    → record_path directory name ≢ temporary_path directory write_prefix characters
unfolding player_store_name_valid every
record_path-temporary_path directory [] characters v e = cc
record_path-temporary_path directory (c ∷ cs) characters v e =
    no_dot c (every name_byte cs) (ground arith)
      (ap (λ bytes. get_elem? bytes 1) (append_cancel directory _ _ e))

-- `publish_new` puts the record where nothing was, and reports it, or leaves all files as before if
-- the record is removed.
record Published (answers : Answers) (path text : Bytes) (s : PlayerStore)
    (r : PlayerStore × Created) : Type 0 where
  done : r.1 ≡ created → (s.files path ≡ missing) × (r.0 ≡ put path (private_file text) s)
  kept : answers.removed ≡ true → r.1 ≢ created → (other : Bytes) → r.0.files other ≡ s.files other

not_so : {b : Bool} → b ≡ false → b ≢ true
not_so f t = cc

stands :
    {answers : Answers} {path text : Bytes} {s : PlayerStore} {c : Created}
    → c ≢ created
    → Published answers path text s (s, c)
stands n = record { done = λ c. absurd (n c); kept = λ r m other. refl }

publish_new-Published :
    (answers : Answers) (path text : Bytes) (entry : Entry) (s : PlayerStore)
    → s.files path ≡ entry
    → Published answers path text s (publish_new answers path text entry s)
unfolding publish_new unlinked
publish_new-Published answers path text (private_file old) s e = stands (λ c. cc)
publish_new-Published answers path text (unreadable_file old) s e = stands (λ c. cc)
publish_new-Published answers path text unsafe_entry s e = stands (λ c. cc)
publish_new-Published answers path text missing s e = elim (Bool-cases answers.published) [
  | inr f ↦ rw f (stands (λ c. cc))
  | inl t ↦ elim (Bool-cases answers.synced) [
    | inl y ↦ rw (t, y) (record { done = λ c. (e, refl); kept = λ r n. absurd (n refl) })
    | inr n ↦ elim (Bool-cases answers.removed) [
      | inl y ↦
          rw (t, n, y)
            (record {
              done = λ c. cc;
              kept = λ r m other.
                  put_back path other (private_file text) s (put path (private_file text) s) e refl;
            })
      | inr z ↦ rw (t, n, z) (record { done = λ c. cc; kept = λ r. absurd (not_so refl r) })
    ]
  ]
]

-- The same for the whole of the writing: a record that is reported stands where nothing was, and
-- otherwise all files are as before if the temporary file was new and both can be removed.
pub record Written (answers : Answers) (path text temp : Bytes) (s : PlayerStore)
    (r : PlayerStore × Created) : Type 0 where
  pub done :
      r.1 ≡ created
      → (s.files path ≡ missing)
        × (r.0.directory ≡ s.directory)
        × (r.0.files path ≡ private_file text)
  pub kept :
      answers.removed ≡ true
      → answers.cleaned ≡ true
      → s.files temp ≡ missing
      → r.1 ≢ created
      → (other : Bytes) → r.0.files other ≡ s.files other

pub link_written-Written :
    (answers : Answers) (temp path text : Bytes) (spoiled : Option Entry) (s : PlayerStore)
    → path ≢ temp
    → Written answers path text temp s
        (tidied answers temp (link_written answers temp path text spoiled s))
unfolding link_written tidied unlinked
link_written-Written answers temp path text (some left) s ne = record {
  done = λ c. cc;
  kept = λ r y fresh n other. rw y (put_back temp other left s (put temp left s) fresh refl);
}
link_written-Written answers temp path text none s ne =
    let written = put temp (private_file text) s in
    let r = publish_new answers path text (written.files path) written in
    let p = publish_new-Published answers path text (written.files path) written refl in
    record {
      done = λ c. (
        sym (put_other temp path (private_file text) s ne) ∙ (p.done c).0,
        unlinked-directory answers.cleaned temp r.0
            ∙ ap (λ (v : PlayerStore). v.directory) (p.done c).1
            ∙ unfold put in refl,
        unlinked_other answers.cleaned temp path r.0 ne
            ∙ ap (λ (v : PlayerStore). v.files path) (p.done c).1
            ∙ put_self path (private_file text) written,
      );
      kept = λ k y fresh n other.
          rw y (put_back temp other (private_file text) s r.0 fresh (p.kept k n other));
    }

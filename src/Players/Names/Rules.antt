-- ===== src/Players/Names/Rules.antt =====
-- What the rules for names come to.
use telnet_tls_server.Common.{
  ℕ, ◌≡◌, refl, Bool, true, ◌&&◌, [], ◌∷◌, Bytes, map, ◌==◌, ==_iff, All, length, ◌≤◌, &&-eq_true,
  leb, leb→le,
}
use telnet_tls_server.Security.Keys.{ascii_lower}
use telnet_tls_server.Players.Names.{
  ascii_equal_ignore_case, every, name_byte, player_store_name_valid, player_name_min,
  player_name_max,
}

-- Texts are equal without case exactly when their lower-case texts are equal.
pub ignore_case→eq :
    (xs ys : Bytes) → ascii_equal_ignore_case xs ys ≡ true → map ascii_lower xs ≡ map ascii_lower ys
ignore_case→eq [] [] e = refl
ignore_case→eq [] (y ∷ ys) e = unfold ascii_equal_ignore_case in cc
ignore_case→eq (x ∷ xs) [] e = unfold ascii_equal_ignore_case in cc
ignore_case→eq (x ∷ xs) (y ∷ ys) e =
    let parts =
      &&-eq_true (ascii_lower x == ascii_lower y) (ascii_equal_ignore_case xs ys)
        (unfold ascii_equal_ignore_case in e) in
    cc ((==_iff (ascii_lower x) (ascii_lower y)).0 parts.0, ignore_case→eq xs ys parts.1)

both : {a b : Bool} → a ≡ true → b ≡ true → (a && b) ≡ true
both p q = rw p q

pub eq→ignore_case :
    (xs ys : Bytes) → map ascii_lower xs ≡ map ascii_lower ys → ascii_equal_ignore_case xs ys ≡ true
unfolding ascii_equal_ignore_case
eq→ignore_case [] [] e = refl
eq→ignore_case [] (y ∷ ys) e = cc
eq→ignore_case (x ∷ xs) [] e = cc
eq→ignore_case (x ∷ xs) (y ∷ ys) e =
    let head = (==_iff (ascii_lower x) (ascii_lower y)).1 (cc) in
    let tail = eq→ignore_case xs ys (cc) in both head tail

pub every-All : (p : ℕ → Bool) (bs : Bytes) → every p bs ≡ true → All (λ b. p b ≡ true) bs
unfolding every
every-All p [] e = tt
every-All p (b ∷ bs) e =
    let parts = &&-eq_true (p b) (every p bs) e in (parts.0, every-All p bs parts.1)

-- The conditions of a valid name.
pub record IsName (name : Bytes) : Type 0 where
  pub at_least : player_name_min ≤ length name
  pub at_most : length name ≤ player_name_max
  pub plain : every name_byte name ≡ true

pub valid-IsName : (name : Bytes) → player_store_name_valid name ≡ true → IsName name
unfolding player_store_name_valid
valid-IsName name v =
    let low = leb player_name_min (length name) in
    let high = leb (length name) player_name_max in
    let outer = &&-eq_true low (high && every name_byte name) v in
    let inner = &&-eq_true high (every name_byte name) outer.1 in
    record {
      at_least = leb→le player_name_min (length name) outer.0;
      at_most = leb→le (length name) player_name_max inner.0;
      plain = inner.1;
    }

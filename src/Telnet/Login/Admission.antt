-- ===== src/Telnet/Login/Admission.antt =====
-- How a session comes into the game.
use telnet_tls_server.Common.{
  ℕ, ◌≡◌, ◌≢◌, refl, sym, ◌∙◌, subst, ltb, Bool, true, false, not, ◌⊎◌, inl, inr, [], Option, none,
  some, Bool-cases, Bytes, codes, length, arith,
}
use telnet_tls_server.Security.Policy.{security_policy_allow_account_creation}
use telnet_tls_server.Players.Names.{
  player_password_min, player_password_max, player_store_name_valid, player_store_password_allowed,
}
use telnet_tls_server.Players.Record.{LoadedRecord}
use telnet_tls_server.Players.Disk.{Host, PlayerStore, Created, created, already_there, not_created}
use telnet_tls_server.Players.Store.{
  Loaded, loaded, no_record, not_loaded, load_record, player_store_exists, player_store_create,
  player_store_password_matches, player_store_verify_password,
}
use telnet_tls_server.Players.Store.Verify.{verdict, verify_password-result}
use telnet_tls_server.Telnet.Session.{
  LoginState, login_name, login_password, login_new_password, login_confirm_password, login_in_game,
  Session, audit,
}
use telnet_tls_server.Telnet.Session.Keeps.{Keeps, Keeps-trans, branch, write_prompt_text-Keeps}
use telnet_tls_server.Telnet.Login.{
  Outside, attempt, cleared, audit_player_event, password_echo_on, password_echo_off, known_name,
  process_player_name, verified_login, attempted_login, process_existing_password,
  prepared_password, judged_password, process_new_password, created_account, confirmed_password,
  matched_password, process_password_confirmation, account_dialogue,
}
use telnet_tls_server.Telnet.Login.Steps.{
  say_and_ask, password_echo_off-Keeps, warn_insecure-Keeps, wrong_password-Keeps,
}

-- What lets a session into the game: the policy allows the attempt and the line is the password of
-- the record that the player's name loads; or the line confirms the new password, the policy allows
-- the account, and the record is created.
pub data Admitted (host : Host) (now : ℕ) (s : Session) : Type 0 where
  by_password :
      (found : LoadedRecord)
      → s.login ≡ login_password
      → (attempt now s).allowed ≡ true
      → load_record host s.store s.player_name ≡ loaded found
      → host.crypto_pwhash_str_verify found.password_hash s.line ≡ true
      → Admitted host now s
  by_creation :
      s.login ≡ login_confirm_password
      → host.crypto_pwhash_str_verify s.pending_password s.line ≡ true
      → (security_policy_allow_account_creation s.security (some s.remote_id) now).allowed ≡ true
      → (player_store_create host s.store s.player_name s.pending_password).1 ≡ created
      → Admitted host now s

-- Outside the game.
abbrev pub Waits : Session → Type 0
Waits s = s.login ≢ login_in_game

pub Waits-Keeps :
    {s t : Session} (l : LoginState) → Keeps s t → s.login ≡ l → l ≢ login_in_game → Waits t
Waits-Keeps l k e n g = n (sym (k.same_login ∙ e) ∙ g)

name_waits : login_name ≢ login_in_game
name_waits e = cc

password_waits : login_password ≢ login_in_game
password_waits e = cc

pub new_password_waits : login_new_password ≢ login_in_game
new_password_waits e = cc

confirm_waits : login_confirm_password ≢ login_in_game
confirm_waits e = cc

abbrev bad_name : Bytes
bad_name =
    codes
      "\r\nNew player names must be 3-15 characters and use only letters, numbers, '_' or '-'.\r\n"

known_name-Waits :
    (exists : Option Bool) (s : Session) → s.login ≡ login_name → Waits (known_name exists s)
unfolding known_name audit_player_event audit
known_name-Waits none s e =
    let noted = audit_player_event (codes "player_record_rejected") s in
    Waits-Keeps login_name (say_and_ask _ _ (record noted { player_name = [] })) e name_waits
known_name-Waits (some true) s e =
    let t = record s { login = login_password } in
    let k = Keeps-trans (password_echo_off-Keeps t) (warn_insecure-Keeps (password_echo_off t)) in
    Waits-Keeps login_password (Keeps-trans k (write_prompt_text-Keeps _ _)) refl password_waits
known_name-Waits (some false) s e =
    let t = record s { login = login_new_password } in
    let k = Keeps-trans (password_echo_off-Keeps t) (warn_insecure-Keeps (password_echo_off t)) in
    Waits-Keeps login_new_password (Keeps-trans k (say_and_ask _ _ _)) refl new_password_waits

process_player_name-Waits :
    (host : Host) (s : Session) → s.login ≡ login_name → Waits (process_player_name host s)
unfolding process_player_name
process_player_name-Waits host s e =
    branch Waits (not (player_store_name_valid s.line)) _ _
      (Waits-Keeps login_name (say_and_ask bad_name (codes "Player name: ") s) e name_waits)
      (known_name-Waits (player_store_exists host s.store s.line)
        (record s { player_name = s.line }) e)

verified_login-Waits :
    (out : Outside) (now : ℕ) (rehashed : Bool) (result : Option Bool) (s : Session)
    → s.login ≡ login_password
    → result ≢ some true
    → Waits (verified_login out now rehashed result s)
unfolding verified_login audit_player_event audit
verified_login-Waits out now rehashed (some true) s e n = absurd (n refl)
verified_login-Waits out now rehashed (some false) s e n =
    Waits-Keeps login_password (wrong_password-Keeps _ _) e password_waits
verified_login-Waits out now rehashed none s e n =
    Waits-Keeps login_password (wrong_password-Keeps _ _) e password_waits

Verdict-cases : (o : Option Bool) → (o ≡ some true) ⊎ (o ≢ some true)
Verdict-cases none = inr (λ e. cc)
Verdict-cases (some true) = inl refl
Verdict-cases (some false) = inr (λ e. cc)

verdict-loaded :
    (host : Host) (password : Bytes) (found : Loaded)
    → verdict host password found ≡ some true
    → (r : LoadedRecord) × (found ≡ loaded r)
      × (host.crypto_pwhash_str_verify r.password_hash password ≡ true)
verdict-loaded host password (loaded r) e = (r, refl, cc)
verdict-loaded host password no_record e = absurd (cc)
verdict-loaded host password not_loaded e = absurd (cc)

none_ne : ◌≢◌ {A = Option Bool} none (some true)
none_ne e = cc

-- A password that `player_store_verify_password` accepts is that of the record.
accepted :
    (host : Host) (s : PlayerStore) (name password : Bytes)
    → (player_store_verify_password host s name password).result ≡ some true
    → (r : LoadedRecord) × (load_record host s name ≡ loaded r)
      × (host.crypto_pwhash_str_verify r.password_hash password ≡ true)
accepted host s name password e =
    let result = sym (verify_password-result host s name password) ∙ e in
    elim (Bool-cases (ltb player_password_max (length password))) [
      | inl t ↦ absurd (none_ne (rw t at result))
      | inr f ↦ verdict-loaded host password (load_record host s name) (rw f at result)
    ]

throttled :
    (host : Host) (out : Outside) (now : ℕ) (s : Session)
    → s.login ≡ login_password
    → Waits (attempted_login host out now false s)
unfolding attempted_login audit_player_event audit
throttled host out now s e =
    Waits-Keeps login_password (say_and_ask _ _ (audit_player_event _ (cleared s))) e password_waits

attempted_login-Admitted :
    (host : Host) (out : Outside) (now : ℕ) (s : Session)
    → s.login ≡ login_password
    → (attempted_login host out now true s).login ≡ login_in_game
    → (r : LoadedRecord) × (load_record host s.store s.player_name ≡ loaded r)
      × (host.crypto_pwhash_str_verify r.password_hash s.line ≡ true)
unfolding attempted_login
attempted_login-Admitted host out now s e g =
    let checked = player_store_verify_password host s.store s.player_name s.line in
    elim (Verdict-cases checked.result) [
      | inl t ↦ accepted host s.store s.player_name s.line t
      | inr n ↦ absurd (
          verified_login-Waits out now checked.rehashed checked.result
            (record (cleared s) { store = checked.store }) e n g)
    ]

process_existing_password-Admitted :
    (host : Host) (out : Outside) (now : ℕ) (s : Session)
    → s.login ≡ login_password
    → (process_existing_password host out now s).login ≡ login_in_game
    → Admitted host now s
unfolding process_existing_password
process_existing_password-Admitted host out now s e g =
    let t = record s { security = (attempt now s).policy } in
    elim (Bool-cases (attempt now s).allowed) [
      | inl yes' ↦
          let (r, there, right) =
            attempted_login-Admitted host out now t e
              (subst (λ b. (attempted_login host out now b t).login ≡ login_in_game) yes' g) in
          Admitted.by_password r e yes' there right
      | inr no' ↦ absurd (
          throttled host out now t e
            (subst (λ b. (attempted_login host out now b t).login ≡ login_in_game) no' g))
    ]

prepared_password-Waits : (token : Option Bytes) (s : Session) → Waits (prepared_password token s)
unfolding prepared_password
prepared_password-Waits none s = Waits-Keeps login_name (say_and_ask _ _ _) refl name_waits
prepared_password-Waits (some token) s =
    Waits-Keeps login_confirm_password (say_and_ask _ _ _) refl confirm_waits

judged_password-Waits :
    (host : Host) (allowed : Option Bool) (s : Session)
    → s.login ≡ login_new_password
    → Waits (judged_password host allowed s)
unfolding judged_password audit_player_event audit
judged_password-Waits host (some true) s e = prepared_password-Waits _ _
judged_password-Waits host (some false) s e =
    Waits-Keeps login_new_password (say_and_ask _ _ (audit_player_event _ (cleared s))) e
      new_password_waits
judged_password-Waits host none s e =
    Waits-Keeps login_new_password (say_and_ask _ _ (audit_player_event _ (cleared s))) e
      new_password_waits

process_new_password-Waits :
    (host : Host) (s : Session) → s.login ≡ login_new_password → Waits (process_new_password host s)
unfolding process_new_password
process_new_password-Waits host s e =
    branch Waits (ltb (length s.line) player_password_min) _ _
      (Waits-Keeps login_new_password
        (say_and_ask (codes "\r\nPassword must contain at least 8 characters.\r\n")
          (codes "Create password: ") (cleared s))
        e new_password_waits)
      (judged_password-Waits host (player_store_password_allowed s.player_name s.line) s e)

Created-cases : (c : Created) → (c ≡ created) ⊎ (c ≢ created)
Created-cases created = inl refl
Created-cases already_there = inr (λ e. cc)
Created-cases not_created = inr (λ e. cc)

created_account-Waits :
    (out : Outside) (now : ℕ) (c : Created) (s : Session)
    → c ≢ created
    → Waits (created_account out now c s)
unfolding created_account audit_player_event audit
created_account-Waits out now created s n = absurd (n refl)
created_account-Waits out now already_there s n =
    Waits-Keeps login_name
      (say_and_ask _ _
        (record (audit_player_event _ (record (password_echo_on s) { login = login_name })) {
          player_name = [];
        }))
      refl name_waits
created_account-Waits out now not_created s n =
    Waits-Keeps login_name
      (say_and_ask _ _
        (record (audit_player_event _ (record (password_echo_on s) { login = login_name })) {
          player_name = [];
        }))
      refl name_waits

matches_verified :
    (host : Host) (token password : Bytes)
    → player_store_password_matches host token password ≡ some true
    → host.crypto_pwhash_str_verify token password ≡ true
unfolding player_store_password_matches
matches_verified host token password e = ground arith

confirmed_password-created :
    (host : Host) (out : Outside) (now : ℕ) (allowed : Bool) (s : Session)
    → (confirmed_password host out now allowed s).login ≡ login_in_game
    → (allowed ≡ true)
      × ((player_store_create host s.store s.player_name s.pending_password).1 ≡ created)
unfolding confirmed_password audit
confirmed_password-created host out now false s g =
    absurd (Waits-Keeps login_name (say_and_ask _ _ _) refl name_waits g)
confirmed_password-created host out now true s g =
    let result = player_store_create host s.store s.player_name s.pending_password in
    elim (Created-cases result.1) [
      | inl c ↦ (refl, c)
      | inr n ↦ absurd (
          created_account-Waits out now result.1
            (record s { store = result.0; pending_password = [] }) n g)
    ]

matched_password-Admitted :
    (host : Host) (out : Outside) (now : ℕ) (matched : Option Bool) (s : Session)
    → (matched_password host out now matched s).login ≡ login_in_game
    → (matched ≡ some true)
      × ((security_policy_allow_account_creation s.security (some s.remote_id) now).allowed ≡ true)
      × ((player_store_create host s.store s.player_name s.pending_password).1 ≡ created)
unfolding matched_password
matched_password-Admitted host out now (some true) s g =
    let creation = security_policy_allow_account_creation s.security (some s.remote_id) now in
    let (allowed, made) =
      confirmed_password-created host out now creation.allowed
        (record s { security = creation.policy }) g in
    (refl, allowed, made)
matched_password-Admitted host out now (some false) s g =
    absurd (Waits-Keeps login_new_password (say_and_ask _ _ _) refl new_password_waits g)
matched_password-Admitted host out now none s g =
    absurd (Waits-Keeps login_new_password (say_and_ask _ _ _) refl new_password_waits g)

process_password_confirmation-Admitted :
    (host : Host) (out : Outside) (now : ℕ) (s : Session)
    → s.login ≡ login_confirm_password
    → (process_password_confirmation host out now s).login ≡ login_in_game
    → Admitted host now s
unfolding process_password_confirmation
process_password_confirmation-Admitted host out now s e g =
    let (matched, allowed, made) = matched_password-Admitted host out now _ (cleared s) g in
    Admitted.by_creation e (matches_verified host s.pending_password s.line matched) allowed made

-- In every login state before the game, an answer that brings the session into the game is to a
-- line that admits it.
pub account_dialogue-Admitted :
    (host : Host) (out : Outside) (l : LoginState) (now : ℕ) (s : Session)
    → s.login ≡ l
    → l ≢ login_in_game
    → (account_dialogue host out l now s).login ≡ login_in_game
    → Admitted host now s
unfolding account_dialogue
account_dialogue-Admitted host out login_name now s e n g =
    absurd (process_player_name-Waits host s e g)
account_dialogue-Admitted host out login_password now s e n g =
    process_existing_password-Admitted host out now s e g
account_dialogue-Admitted host out login_new_password now s e n g =
    absurd (process_new_password-Waits host s e g)
account_dialogue-Admitted host out login_confirm_password now s e n g =
    process_password_confirmation-Admitted host out now s e g
account_dialogue-Admitted host out login_in_game now s e n g = absurd (n refl)

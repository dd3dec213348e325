-- ===== src/Telnet/Login/Progress.antt =====
-- What a right password and a confirmed one lead to.
use telnet_tls_server.Common.{
  ℕ, ◌≡◌, refl, ap, ◌∙◌, ltb, Bool, true, false, Option, none, some, codes, length,
}
use telnet_tls_server.Players.Names.{player_password_max}
use telnet_tls_server.Players.Record.{LoadedRecord}
use telnet_tls_server.Players.Disk.{Host}
use telnet_tls_server.Players.Store.{loaded, load_record, player_store_verify_password}
use telnet_tls_server.Players.Store.Verify.{verify_password-result}
use telnet_tls_server.Telnet.Session.{login_in_game, Session}
use telnet_tls_server.Telnet.Session.Keeps.{
  Keeps, Keeps-trans, write_telnet_data-Keeps, write_prompt_text-Keeps, request_close-Keeps,
}
use telnet_tls_server.Telnet.Login.{
  Outside, attempt, cleared, audit_player_event, write_untrusted_text, welcome, opened,
  start_application, enter_game, logged_in, verified_login, attempted_login,
  process_existing_password,
}
use telnet_tls_server.Telnet.Login.Steps.{audit_player_event-Keeps}

-- The hooks of an application do not change the login state: `terminal_output` gives them no way to.
pub record HooksKeep (out : Outside) : Type 0 where
  pub open_keeps :
      (hook : Session → Session × Bool) (s : Session)
      → out.open_hook ≡ some hook
      → (hook s).0.login ≡ s.login
  pub replay_keeps : (s : Session) → (out.replay_core s).login ≡ s.login

pub welcome-Keeps : (s : Session) → Keeps s (welcome s)
unfolding welcome write_untrusted_text
welcome-Keeps s =
    let a = write_telnet_data-Keeps (codes "\r\nWelcome, ") s in
    Keeps-trans a (
      Keeps-trans (write_telnet_data-Keeps _ _)
        (Keeps-trans (write_telnet_data-Keeps _ _) (write_prompt_text-Keeps _ _)))

opened-login :
    (out : Outside) (r : Session × Bool) → HooksKeep out → (opened out r).login ≡ r.0.login
unfolding opened
opened-login out (s, true) keep = keep.replay_keeps (record s { has_application = true })
opened-login out (s, false) keep =
    (request_close-Keeps (some (codes "application_open_rejected")) none
      (record s { has_application = false })).same_login

start_application-login :
    (out : Outside) (hook : Option (Session → Session × Bool)) (s : Session)
    → HooksKeep out
    → out.open_hook ≡ hook
    → (start_application out hook s).login ≡ s.login
unfolding start_application
start_application-login out none s keep e = (welcome-Keeps s).same_login
start_application-login out (some hook) s keep e =
    opened-login out (hook s) keep ∙ keep.open_keeps hook s e

enter_game-login :
    (out : Outside) (s : Session) → HooksKeep out → (enter_game out s).login ≡ login_in_game
unfolding enter_game
enter_game-login out s keep =
    let entered = record s { login = login_in_game } in
    start_application-login out out.open_hook (audit_player_event (codes "login_success") entered)
      keep refl
    ∙ (audit_player_event-Keeps (codes "login_success") entered).same_login

verified-in_game :
    (out : Outside) (now : ℕ) (rehashed : Bool) (s : Session)
    → HooksKeep out
    → (verified_login out now rehashed (some true) s).login ≡ login_in_game
unfolding verified_login logged_in
verified-in_game out now rehashed s keep = enter_game-login out _ keep

-- A line that is the password of the record loaded, of at most 128 bytes, in an attempt that the
-- policy allows, brings the session into the game, whatever becomes of an upgrade of the hash, if
-- the hooks of the application leave the login state alone.
pub right_password-in_game :
    (host : Host) (out : Outside) (now : ℕ) (s : Session) (found : LoadedRecord)
    → HooksKeep out
    → (attempt now s).allowed ≡ true
    → load_record host s.store s.player_name ≡ loaded found
    → ltb player_password_max (length s.line) ≡ false
    → host.crypto_pwhash_str_verify found.password_hash s.line ≡ true
    → (process_existing_password host out now s).login ≡ login_in_game
unfolding process_existing_password attempted_login
right_password-in_game host out now s found keep allowed there short right =
    let checked = player_store_verify_password host s.store s.player_name s.line in
    let result : checked.result ≡ some true =
      verify_password-result host s.store s.player_name s.line
      ∙ rw (short, there) (ap some right) in
    let t = record s { security = (attempt now s).policy } in
    ap (λ b. (attempted_login host out now b t).login) allowed
    ∙ ap
        (λ r.
          (verified_login out now checked.rehashed r
            (record (cleared t) { store = checked.store })).login)
        result
    ∙ verified-in_game out now checked.rehashed (record (cleared t) { store = checked.store }) keep

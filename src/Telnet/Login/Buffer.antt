-- ===== src/Telnet/Login/Buffer.antt =====
-- The dialogue does not touch the subnegotiation that the parser holds.
use telnet_tls_server.Common.{
  ℕ, ◌≡◌, refl, ◌∙◌, ltb, Bool, true, false, not, ◌==◌, [], Option, none, some, Bytes, codes,
  length,
}
use telnet_tls_server.Players.Names.{
  player_store_name_valid, player_store_password_allowed, player_password_min,
  ascii_equal_ignore_case,
}
use telnet_tls_server.Players.Disk.{Host, Created, created, already_there, not_created}
use telnet_tls_server.Players.Store.{
  player_store_exists, player_store_password_matches, player_store_verify_password,
}
use telnet_tls_server.Telnet.Rate.{rate_consume}
use telnet_tls_server.Telnet.Session.{
  LoginState, login_name, login_password, login_new_password, login_confirm_password, login_in_game,
  Session, audit,
}
use telnet_tls_server.Telnet.Session.Keeps.{
  Keeps-trans, branch, write_prompt_text-Keeps, request_close-Keeps,
}
use telnet_tls_server.Telnet.Login.{
  Outside, attempt, cleared, commands_per_window, commands_window_ms, audit_player_event, opened,
  start_application, enter_game, known_name, process_player_name, logged_in, verified_login,
  attempted_login, process_existing_password, prepared_password, judged_password,
  process_new_password, created_account, confirmed_password, matched_password,
  process_password_confirmation, own_command, answered_line, run_command, process_command,
  account_dialogue,
}
use telnet_tls_server.Telnet.Login.Steps.{
  say_and_ask, password_echo_off-Keeps, password_echo_on-Keeps, warn_insecure-Keeps,
  audit_player_event-Keeps, wrong_password-Keeps,
}
use telnet_tls_server.Telnet.Login.Progress.{welcome-Keeps}

-- The hooks of an application do not change what the parser holds: `terminal_output` gives them no
-- way to.
pub record OutsideKeeps (out : Outside) : Type 0 where
  pub open_holds :
      (hook : Session → Session × Bool) (s : Session)
      → out.open_hook ≡ some hook
      → (hook s).0.subnegotiation ≡ s.subnegotiation
  pub line_holds :
      (hook : Bytes → Session → Session × Bool) (line : Bytes) (s : Session)
      → out.line_hook ≡ some hook
      → (hook line s).0.subnegotiation ≡ s.subnegotiation
  pub replay_holds : (s : Session) → (out.replay_core s).subnegotiation ≡ s.subnegotiation

abbrev Holds : Session → Session → Type 0
Holds s t = t.subnegotiation ≡ s.subnegotiation

known_name-Holds : (exists : Option Bool) (s : Session) → Holds s (known_name exists s)
unfolding known_name audit_player_event audit
known_name-Holds none s = (say_and_ask _ _ _).same_buffer
known_name-Holds (some true) s =
    (Keeps-trans (password_echo_off-Keeps _)
      (Keeps-trans (warn_insecure-Keeps _) (write_prompt_text-Keeps _ _))).same_buffer
known_name-Holds (some false) s =
    (Keeps-trans (password_echo_off-Keeps _)
      (Keeps-trans (warn_insecure-Keeps _) (say_and_ask _ _ _))).same_buffer

process_player_name-Holds : (host : Host) (s : Session) → Holds s (process_player_name host s)
unfolding process_player_name
process_player_name-Holds host s =
    branch (Holds s) (not (player_store_name_valid s.line)) _ _ (say_and_ask _ _ s).same_buffer (
      known_name-Holds (player_store_exists host s.store s.line)
        (record s { player_name = s.line }))

prepared_password-Holds : (token : Option Bytes) (s : Session) → Holds s (prepared_password token s)
unfolding prepared_password
prepared_password-Holds none s =
    (say_and_ask _ _ _).same_buffer
    ∙ (password_echo_on-Keeps (record (cleared s) { pending_password = [] })).same_buffer
prepared_password-Holds (some token) s = (say_and_ask _ _ _).same_buffer

judged_password-Holds :
    (host : Host) (allowed : Option Bool) (s : Session) → Holds s (judged_password host allowed s)
unfolding judged_password audit_player_event audit
judged_password-Holds host (some true) s = prepared_password-Holds _ _
judged_password-Holds host (some false) s = (say_and_ask _ _ _).same_buffer
judged_password-Holds host none s = (say_and_ask _ _ _).same_buffer

process_new_password-Holds : (host : Host) (s : Session) → Holds s (process_new_password host s)
unfolding process_new_password
process_new_password-Holds host s =
    branch (Holds s) (ltb (length s.line) player_password_min) _ _ (say_and_ask _ _ _).same_buffer
      (judged_password-Holds host (player_store_password_allowed s.player_name s.line) s)

own_command-Holds : (s : Session) → Holds s (own_command s)
unfolding own_command
own_command-Holds s =
    branch (Holds s) (length s.line == 0) _ _ (write_prompt_text-Keeps _ s).same_buffer (
      branch (Holds s) (ascii_equal_ignore_case s.line (codes "PING")) _ _
        (say_and_ask _ _ s).same_buffer
        (branch (Holds s) (ascii_equal_ignore_case s.line (codes "HELP")) _ _
          (say_and_ask _ _ s).same_buffer
          (branch (Holds s) (ascii_equal_ignore_case s.line (codes "QUIT")) _ _
            (request_close-Keeps _ _ s).same_buffer (say_and_ask _ _ s).same_buffer)))

answered_line-Holds : (r : Session × Bool) → Holds r.0 (answered_line r)
unfolding answered_line
answered_line-Holds (s, true) = refl
answered_line-Holds (s, false) = (request_close-Keeps _ _ s).same_buffer

module _ (out : Outside) (keep : OutsideKeeps out) where
  opened-Holds : (r : Session × Bool) → Holds r.0 (opened out r)
  unfolding opened
  opened-Holds (s, true) = keep.replay_holds (record s { has_application = true })
  opened-Holds (s, false) =
      (request_close-Keeps _ _ (record s { has_application = false })).same_buffer

  start_application-Holds :
      (hook : Option (Session → Session × Bool)) (s : Session)
      → out.open_hook ≡ hook
      → Holds s (start_application out hook s)
  unfolding start_application
  start_application-Holds none s e = (welcome-Keeps s).same_buffer
  start_application-Holds (some hook) s e = opened-Holds (hook s) ∙ keep.open_holds hook s e

  enter_game-Holds : (s : Session) → Holds s (enter_game out s)
  unfolding enter_game
  enter_game-Holds s =
      start_application-Holds out.open_hook _ refl
      ∙ (audit_player_event-Keeps _ (record s { login = login_in_game })).same_buffer

  logged_in-Holds : (rehashed : Bool) (s : Session) → Holds s (logged_in out rehashed s)
  unfolding logged_in
  logged_in-Holds true s =
      enter_game-Holds _
      ∙ (Keeps-trans (audit_player_event-Keeps _ s) (password_echo_on-Keeps _)).same_buffer
  logged_in-Holds false s = enter_game-Holds _ ∙ (password_echo_on-Keeps s).same_buffer

  verified_login-Holds :
      (now : ℕ) (rehashed : Bool) (verdict : Option Bool) (s : Session)
      → Holds s (verified_login out now rehashed verdict s)
  unfolding verified_login audit_player_event audit
  verified_login-Holds now rehashed (some true) s = logged_in-Holds rehashed _
  verified_login-Holds now rehashed (some false) s = (wrong_password-Keeps _ _).same_buffer
  verified_login-Holds now rehashed none s = (wrong_password-Keeps _ _).same_buffer

  attempted_login-Holds :
      (host : Host) (now : ℕ) (allowed : Bool) (s : Session)
      → Holds s (attempted_login host out now allowed s)
  unfolding attempted_login audit_player_event audit
  attempted_login-Holds host now false s = (say_and_ask _ _ _).same_buffer
  attempted_login-Holds host now true s =
      let checked = player_store_verify_password host s.store s.player_name s.line in
      verified_login-Holds now checked.rehashed checked.result
        (record (cleared s) { store = checked.store })

  process_existing_password-Holds :
      (host : Host) (now : ℕ) (s : Session) → Holds s (process_existing_password host out now s)
  unfolding process_existing_password
  process_existing_password-Holds host now s =
      attempted_login-Holds host now (attempt now s).allowed
        (record s { security = (attempt now s).policy })

  created_account-Holds :
      (now : ℕ) (result : Created) (s : Session) → Holds s (created_account out now result s)
  unfolding created_account audit_player_event audit
  created_account-Holds now created s = enter_game-Holds _ ∙ (password_echo_on-Keeps _).same_buffer
  created_account-Holds now already_there s =
      (say_and_ask _ _ _).same_buffer ∙ (password_echo_on-Keeps s).same_buffer
  created_account-Holds now not_created s =
      (say_and_ask _ _ _).same_buffer ∙ (password_echo_on-Keeps s).same_buffer

  confirmed_password-Holds :
      (host : Host) (now : ℕ) (allowed : Bool) (s : Session)
      → Holds s (confirmed_password host out now allowed s)
  unfolding confirmed_password audit
  confirmed_password-Holds host now false s =
      (say_and_ask _ _ _).same_buffer
      ∙ (password_echo_on-Keeps (record s { pending_password = [] })).same_buffer
  confirmed_password-Holds host now true s = created_account-Holds now _ _

  matched_password-Holds :
      (host : Host) (now : ℕ) (matched : Option Bool) (s : Session)
      → Holds s (matched_password host out now matched s)
  unfolding matched_password
  matched_password-Holds host now (some true) s = confirmed_password-Holds host now _ _
  matched_password-Holds host now (some false) s = (say_and_ask _ _ _).same_buffer
  matched_password-Holds host now none s = (say_and_ask _ _ _).same_buffer

  run_command-Holds :
      (hook : Option (Bytes → Session → Session × Bool)) (held : Bool) (s : Session)
      → out.line_hook ≡ hook
      → Holds s (run_command hook held s)
  unfolding run_command
  run_command-Holds (some hook) true s e =
      answered_line-Holds (hook s.line s) ∙ keep.line_holds hook s.line s e
  run_command-Holds (some hook) false s e = own_command-Holds s
  run_command-Holds none held s e = own_command-Holds s

  process_command-Holds : (now : ℕ) (s : Session) → Holds s (process_command out now s)
  unfolding process_command
  process_command-Holds now s =
      let r = rate_consume s.command_window 1 commands_per_window commands_window_ms now in
      branch (Holds s) r.1 _ _
        (run_command-Holds out.line_hook s.has_application (record s { command_window = r.0 }) refl)
        (request_close-Keeps _ _ (record s { command_window = r.0 })).same_buffer

  pub account_dialogue-Holds :
      (host : Host) (l : LoginState) (now : ℕ) (s : Session)
      → (account_dialogue host out l now s).subnegotiation ≡ s.subnegotiation
  unfolding account_dialogue process_password_confirmation
  account_dialogue-Holds host login_name now s = process_player_name-Holds host s
  account_dialogue-Holds host login_password now s = process_existing_password-Holds host now s
  account_dialogue-Holds host login_new_password now s = process_new_password-Holds host s
  account_dialogue-Holds host login_confirm_password now s =
      matched_password-Holds host now (player_store_password_matches host s.pending_password s.line)
        (cleared s)
  account_dialogue-Holds host login_in_game now s = process_command-Holds now s

-- ===== src/Examples/LoginExamples.antt =====
-- The account dialogue and the payloads of the session at concrete inputs.
use telnet_tls_server.Common.{
  subst, Bool, ◌≢◌, Option, some, false, ◌≡◌, refl, true, [], ◌∷◌, ◌++◌, none, Bytes, codes, arith,
  All, ap, ◌∙◌, ◌≤◌, length, same,
}
use telnet_tls_server.Security.Policy.{security_policy_create, security_policy_allow_auth_attempt}
use telnet_tls_server.Security.Table.{read, record_for}
use telnet_tls_server.Players.Names.{player_store_name_valid, ascii_equal_ignore_case}
use telnet_tls_server.Players.Record.{record_text, parse_record}
use telnet_tls_server.Players.Disk.{PlayerStore, private_file}
use telnet_tls_server.Players.Store.{loaded, load_record}
use telnet_tls_server.Telnet.Session.{login_password, login_in_game, Session}
use telnet_tls_server.Telnet.Rate.{rate_consume}
use telnet_tls_server.Telnet.Line.{line_limit, process_complete_line, wiped}
use telnet_tls_server.Telnet.Framing.Typing.{graphic, parse_bytes-typed_line}
use telnet_tls_server.Telnet.Framing.{Handlers, parse_bytes}
use telnet_tls_server.Telnet.Login.{attempt, account_dialogue, process_existing_password}
use telnet_tls_server.Telnet.Login.Gate.{Passed}
use telnet_tls_server.Telnet.Framing.Feed.{Fits}
use telnet_tls_server.Telnet.Gmcp.{replay_pre_auth_gmcp_core}
use telnet_tls_server.Telnet.Handlers.{
  Application, session_outside, session_handlers, SessionConfig, new_session, telnet_session_create,
  telnet_session_start,
}
use telnet_tls_server.Telnet.Output.{application_write_prompt, application_write_link}
use telnet_tls_server.Telnet.Output.Keeps.{
  application_write_prompt-Keeps, application_write_link-Keeps,
}
use telnet_tls_server.Telnet.Handlers.Life.{fed, session_life-Fits}
use telnet_tls_server.Telnet.Handlers.Whole.{ApplicationKeeps, session_fed-Passed}
use telnet_tls_server.Telnet.Login.Progress.{HooksKeep, right_password-in_game}
use telnet_tls_server.Examples.Fixtures.{toy_host, empty_store, fresh}

abbrev ada : Bytes
ada = codes "Ada"

abbrev secret : Bytes
secret = codes "lovelace-1843"

-- A store whose every file is the record of Ada.
abbrev ada_store : PlayerStore
ada_store = record empty_store { files = λ path. private_file (record_text ada secret) }

-- Ada is asked for the password.
abbrev asked : Session
asked = record fresh { login = login_password; line = []; player_name = ada; store = ada_store }

abbrev answered : Session
answered = record asked { line = secret }

no_hook : {A : Type 0} {a : A} → ◌≢◌ {A = Option A} none (some a)
no_hook e = cc

-- No application, and a host that reports its name alone.
abbrev alone : Application
alone = record {
  open_hook = none;
  line_hook = none;
  gmcp_hook = none;
  capabilities_hook = none;
  mssp_query = λ s. record {
    name = codes "Town";
    players = 0;
    uptime = 0;
    telnet_port = 0;
    telnet_tls_port = 0;
    codebase = [];
  };
}

alone-HooksKeep : HooksKeep (session_outside alone)
unfolding replay_pre_auth_gmcp_core
alone-HooksKeep = record { open_keeps = λ hook s e. cc; replay_keeps = λ s. refl }

alone-ApplicationKeeps : ApplicationKeeps alone
alone-ApplicationKeeps = record {
  open_holds = λ hook s e. cc;
  line_holds = λ hook line s e. cc;
  gmcp_keeps = record { call_keeps = λ call name json s e. absurd (no_hook e) };
  capabilities_keep = λ hook now s e. absurd (no_hook e);
}

abbrev login_handlers : Handlers
login_handlers = session_handlers toy_host alone

ada-loaded :
    load_record toy_host ada_store ada ≡ loaded (record { name = ada; password_hash = secret })
unfolding load_record parse_record player_store_name_valid ascii_equal_ignore_case same
ada-loaded = refl

attempt-allowed : (attempt 1000 answered).allowed ≡ true
unfolding security_policy_allow_auth_attempt security_policy_create read record_for
attempt-allowed = refl

right_password-in_game_example :
    (process_existing_password toy_host (session_outside alone) 1000 answered).login ≡ login_in_game
unfolding same
right_password-in_game_example =
    right_password-in_game toy_host (session_outside alone) 1000 answered
      (record { name = ada; password_hash = secret }) alone-HooksKeep attempt-allowed ada-loaded
      refl refl

-- The password is typed.
abbrev typed : Bytes
typed = secret ++ (13 ∷ 10 ∷ [])

secret-graphic : All (λ b. graphic b ≡ true) secret
secret-graphic = (
  refl,
  (
    refl,
    (refl, (refl, (refl, (refl, (refl, (refl, (refl, (refl, (refl, (refl, (refl, tt))))))))))),
  ),
)

secret-fits : length secret ≤ line_limit login_password
unfolding line_limit
secret-fits = omega arith

-- Ada's line is due at 1000 ms.
abbrev due : Session
due = record answered { line_window = record { started_ms = 1000; used = 1 } }

due-in_game :
    (process_existing_password toy_host (session_outside alone) 1000 due).login ≡ login_in_game
unfolding same
due-in_game =
    right_password-in_game toy_host (session_outside alone) 1000 due
      (record { name = ada; password_hash = secret }) alone-HooksKeep attempt-allowed ada-loaded
      refl refl

typed-completed :
    process_complete_line login_handlers.dialogue 1000 answered
    ≡ wiped (process_existing_password toy_host (session_outside alone) 1000 due)
unfolding process_complete_line account_dialogue rate_consume
typed-completed = refl

ada-in_game : (parse_bytes login_handlers 1000 typed asked).login ≡ login_in_game
ada-in_game =
    ap (λ (s : Session). s.login)
      (parse_bytes-typed_line login_handlers 1000 secret asked refl secret-graphic secret-fits
        ∙ typed-completed)
    ∙ due-in_game

session_fed-Passed_example : Passed toy_host login_handlers 1000 typed asked
session_fed-Passed_example =
    session_fed-Passed toy_host alone typed 1000 asked alone-ApplicationKeeps (λ e. cc) ada-in_game

-- A size of 100 by 40 and an offer of the terminal type, in the middle of a name.
abbrev chatter : Bytes
chatter = 98 ∷ 255 ∷ 250 ∷ 31 ∷ 0 ∷ 100 ∷ 0 ∷ 40 ∷ 255 ∷ 240 ∷ 255 ∷ 251 ∷ 24 ∷ 121 ∷ 13 ∷ 10 ∷ []

abbrev config : SessionConfig
config = record {
  store = ada_store;
  security = security_policy_create;
  remote_id = codes "10.0.0.7";
  transport_secure = false;
  has_mssp_query = true;
}

-- An application that greets and answers with links.
abbrev greet : Session → Session × Bool
greet s = (application_write_prompt (codes "Hall\n") s, true)

abbrev reply : Bytes → Session → Session × Bool
reply line s = (application_write_link (codes "send:look") line s, true)

abbrev hall : Application
hall = record alone { open_hook = some greet; line_hook = some reply }

abbrev OpenHolds : Session → Option (Session → Session × Bool) → Type 0
OpenHolds s none = Unit
OpenHolds s (some hook) = (hook s).0.subnegotiation ≡ s.subnegotiation

abbrev LineHolds : Bytes → Session → Option (Bytes → Session → Session × Bool) → Type 0
LineHolds line s none = Unit
LineHolds line s (some hook) = (hook line s).0.subnegotiation ≡ s.subnegotiation

hall-ApplicationKeeps : ApplicationKeeps hall
hall-ApplicationKeeps = record {
  open_holds = λ hook s e.
      subst (OpenHolds s) e (application_write_prompt-Keeps (codes "Hall\n") s).same_buffer;
  line_holds = λ hook line s e.
      subst (LineHolds line s) e
        (application_write_link-Keeps (codes "send:look") line s).same_buffer;
  gmcp_keeps = alone-ApplicationKeeps.gmcp_keeps;
  capabilities_keep = alone-ApplicationKeeps.capabilities_keep;
}

session_life-Fits_example : Fits (
    fed toy_host hall
      ((chatter, 1000) ∷ (typed, 2000) ∷ [])
      (telnet_session_start (new_session config)))
unfolding telnet_session_create
session_life-Fits_example =
    session_life-Fits toy_host hall config ((chatter, 1000) ∷ (typed, 2000) ∷ [])
      (new_session config) hall-ApplicationKeeps refl

-- ===== src/Examples/AuditExamples.antt =====
-- Audit records at concrete fields.
use telnet_tls_server.Common.{◌≡◌, refl, [], ◌∷◌, ◌++◌, none, some, Bytes, codes, arith}
use telnet_tls_server.Players.Names.{every}
use telnet_tls_server.Players.Names.Rules.{every-All}
use telnet_tls_server.Audit.{event_line, sanitize_field, record_body}
use telnet_tls_server.Audit.Lines.{Shown, shown_byte, event_line-Shown}

-- A detail with a line feed in it.
abbrev forged : Bytes
forged = codes "x\nevent=login_success"

abbrev clock : Bytes
clock = codes "2026-01-02T03:04:05Z"

clock-Shown : Shown clock
unfolding every
clock-Shown = every-All shown_byte clock refl

event_line-Shown_example :
    (event_line clock (codes "login_failure") none (some forged)
      ≡ some (record_body clock (codes "login_failure") none (some forged) ++ 10 ∷ []))
    × Shown (record_body clock (codes "login_failure") none (some forged))
event_line-Shown_example =
    event_line-Shown clock (codes "login_failure") none (some forged) (omega arith) clock-Shown

forged_flat :
    event_line (codes "T") (codes "a|b") none (some forged)
    ≡ some (codes "T event=a_b peer=- detail=x_event=login_success\n")
unfolding event_line sanitize_field
forged_flat = refl

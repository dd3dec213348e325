-- ===== src/Telnet/Rate.antt =====
-- `rate_consume` of src/telnet_protocol.c, the fixed windows behind the byte, line and command
-- ceilings of one session.
pub mod Ceiling
use telnet_tls_server.Common.{ℕ, ◌+◌, ◌-◌, ltb, leb, ◌==◌, if◌then◌else◌, Bool, true, false, ◌||◌}

pub record RateWindow : Type 0 where
  pub started_ms : ℕ
  pub used : ℕ

abbrev pub expired : RateWindow → ℕ → ℕ → Bool
expired w window_ms now =
    w.started_ms == 0 || (ltb now w.started_ms || leb window_ms (now - w.started_ms))

unfoldable pub renewed : RateWindow → ℕ → ℕ → RateWindow
renewed w window_ms now =
    if expired w window_ms now then record { started_ms = now; used = 0 } else w

-- The window left behind, and whether the amount was granted.
unfoldable pub consume : RateWindow → ℕ → ℕ → RateWindow × Bool
consume w amount limit =
    if ltb limit amount || ltb (limit - amount) w.used
    then (w, false)
    else (record w { used = w.used + amount }, true)

unfoldable pub rate_consume : RateWindow → ℕ → ℕ → ℕ → ℕ → RateWindow × Bool
unfolding consume renewed
rate_consume w amount limit window_ms now = consume (renewed w window_ms now) amount limit

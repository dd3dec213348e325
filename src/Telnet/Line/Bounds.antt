-- ===== src/Telnet/Line/Bounds.antt =====
-- What the line buffer can hold.
use telnet_tls_server.Common.{
  Bool-cases, inl, inr, ℕ, ◌≤◌, ◌+◌, ◌≡◌, refl, ◌∙◌, ltb, leb, ◌==◌, Bool, true, false, ◌||◌, ◌&&◌,
  not, [], ◌∷◌, ◌++◌, some, Bytes, codes, length, length-append, length-take-le, All, arith, zero,
  suc, take, replicate, append-nil, ◌-◌, ◌<◌, ◌^◌, ap,
}
use telnet_tls_server.Telnet.Rate.{rate_consume}
use telnet_tls_server.Telnet.Session.{
  LoginState, login_name, login_password, login_new_password, login_confirm_password, login_in_game,
  Session, write_prompt_text,
}
use telnet_tls_server.Telnet.Session.Keeps.{
  Keeps-trans, branch, branch_by, write_telnet_data-Keeps, write_prompt_text-Keeps,
  request_close-Keeps,
}
use telnet_tls_server.Telnet.Line.{
  Dialogue, input_lines_per_window, input_lines_window_ms, password_state, wiped, one_less,
  with_length, drop_last, line_limit, append_line_byte, overflowed_line, password_overflow,
  granted_line, limited_line, process_complete_line, data_byte, after_cr, receive_data_byte,
}

-- A byte a line can hold: no control character.
abbrev pub typed : ℕ → Bool
typed b = not (ltb b 32) && not (b == 127)

-- The line is within the limit of the login state, with bytes a line can hold.
pub record LineFits (s : Session) : Type 0 where
  pub room : length s.line ≤ line_limit s.login
  pub clean : All (λ b. typed b ≡ true) s.line

abbrev new_password_prompt : Session → Session
new_password_prompt s =
    write_prompt_text (codes "Create password: ")
      (record s { pending_password = []; login = login_new_password })

asked_again : (s : Session) → s.line ≡ [] → (new_password_prompt s).line ≡ []
asked_again s e =
    (write_prompt_text-Keeps (codes "Create password: ")
      (record s { pending_password = []; login = login_new_password })).same_line
    ∙ e

password_overflow-empty :
    (l : LoginState) (s : Session) → s.line ≡ [] → (password_overflow l s).line ≡ []
unfolding password_overflow
password_overflow-empty login_password s e =
    (write_prompt_text-Keeps (codes "Password: ") s).same_line ∙ e
password_overflow-empty login_name s e = asked_again s e
password_overflow-empty login_new_password s e = asked_again s e
password_overflow-empty login_confirm_password s e = asked_again s e
password_overflow-empty login_in_game s e = asked_again s e

overflowed_line-empty : (s : Session) → s.line ≡ [] → (overflowed_line s).line ≡ []
unfolding overflowed_line
overflowed_line-empty s e =
    let too_long = write_telnet_data-Keeps (codes "\r\nPassword input is too long.\r\n") s in
    let refused = write_telnet_data-Keeps (codes "Input is too long.\r\n") s in
    branch (λ (v : Session). v.line ≡ []) (password_state s.login) _ _
      (password_overflow-empty s.login _ (too_long.same_line ∙ e))
      (branch (λ (v : Session). v.line ≡ []) s.has_application _ _
        ((request_close-Keeps (some (codes "application_input_overflow"))
            (some (codes "Input is too long.\r\n")) s).same_line
          ∙ e)
        ((Keeps-trans refused (write_prompt_text-Keeps (codes "> ") _)).same_line ∙ e))

limited_line-empty :
    (d : Dialogue) (now : ℕ) (granted : Bool) (s : Session)
    → (limited_line d now granted s).line ≡ []
unfolding limited_line granted_line
limited_line-empty d now false s =
    (request_close-Keeps (some (codes "line_flood")) (some (codes "Input rate limit exceeded.\r\n"))
      (record s { line = [] })).same_line
limited_line-empty d now true s =
    branch (λ (v : Session). v.line ≡ []) s.line_overflow (overflowed_line (wiped s))
      (wiped (d s.login now s)) (overflowed_line-empty (wiped s) refl) refl

-- Whatever the dialogue does, a completed line leaves the line empty.
pub process_complete_line-empty :
    (d : Dialogue) (now : ℕ) (s : Session) → (process_complete_line d now s).line ≡ []
unfolding process_complete_line
process_complete_line-empty d now s =
    let used = rate_consume s.line_window 1 input_lines_per_window input_lines_window_ms now in
    limited_line-empty d now used.1 (record s { line_window = used.0 })

size_less : (n : ℕ) → ltb 0 n ≡ true → n < 2 ^ 64 → one_less n ≡ n - 1
unfolding one_less
size_less n p h = ground arith

less_itself : (n : ℕ) → (n - 1) - n ≡ 0
less_itself n = omega arith

take_empty : (bs : Bytes) → ltb 0 (length bs) ≡ false → bs ≡ take (length bs - 1) bs
take_empty [] f = refl
take_empty (b ∷ bs) f = absurd (ground arith)

-- A line that a `size_t` counts loses its last byte, if it has one.
pub drop_last-take : (bs : Bytes) → length bs < 2 ^ 64 → drop_last bs ≡ take (length bs - 1) bs
unfolding drop_last with_length
drop_last-take bs h = elim (Bool-cases (ltb 0 (length bs))) [
  | inl some_byte ↦
      rw (some_byte, size_less (length bs) some_byte h)
        (ap (λ n. take (length bs - 1) bs ++ replicate n 0) (less_itself (length bs))
          ∙ append-nil (take (length bs - 1) bs))
  | inr empty ↦ rw empty (take_empty bs empty)
]

pub line_limit_small : (l : LoginState) → line_limit l < 2 ^ 64
unfolding line_limit password_state
line_limit_small login_name = omega arith
line_limit_small login_password = omega arith
line_limit_small login_new_password = omega arith
line_limit_small login_confirm_password = omega arith
line_limit_small login_in_game = omega arith

All-take :
    (n : ℕ) (bs : Bytes) → All (λ b. typed b ≡ true) bs → All (λ b. typed b ≡ true) (take n bs)
All-take zero bs a = tt
All-take (suc n) [] a = tt
All-take (suc n) (b ∷ bs) (p, a) = (p, All-take n bs a)

-- The last byte erased.
pub drop_last-LineFits :
    (s : Session) → LineFits s → LineFits (record s { line = drop_last s.line })
drop_last-LineFits s fits =
    let small = line_limit_small s.login in
    let fit = fits.room in
    let e = drop_last-take s.line (omega arith) in
    record {
      room = rw e (let shorter = length-take-le (length s.line - 1) s.line in omega arith);
      clean = rw e (All-take (length s.line - 1) s.line fits.clean);
    }

All-snoc :
    (bs : Bytes) (c : ℕ)
    → All (λ b. typed b ≡ true) bs
    → typed c ≡ true
    → All (λ b. typed b ≡ true) (bs ++ c ∷ [])
All-snoc [] c a p = (p, tt)
All-snoc (b ∷ bs) c (q, a) p = (q, All-snoc bs c a p)

typed_iff : (b : ℕ) → (b == 8 || b == 127) ≡ false → ltb b 32 ≡ false → typed b ≡ true
typed_iff b e f = ground arith

room_for : (limit n m : ℕ) → leb limit n ≡ false → m ≡ n + 1 → m ≤ limit
room_for limit n m free e = ground arith

append_line_byte-LineFits :
    (byte : ℕ) (s : Session) → LineFits s → LineFits (append_line_byte byte s)
unfolding append_line_byte
append_line_byte-LineFits byte s fits =
    branch_by LineFits (byte == 8 || byte == 127) _ _ (λ erase. drop_last-LineFits s fits)
      (λ kept.
        branch_by LineFits (ltb byte 32) s _ (λ control. fits)
          (λ graphic.
            branch_by LineFits (leb (line_limit s.login) (length s.line)) _ _
              (λ full. record { room = fits.room; clean = fits.clean })
              (λ free. record {
                room =
                    let long = length-append s.line (byte ∷ []) in
                    let fit = fits.room in
                    room_for (line_limit s.login) (length s.line) _ free long;
                clean = All-snoc s.line byte fits.clean (typed_iff byte kept graphic);
              })))

pub LineFits-empty : (s : Session) → s.line ≡ [] → LineFits s
LineFits-empty s e = record { room = rw e (omega arith); clean = rw e tt }

process_complete_line-LineFits :
    (d : Dialogue) (now : ℕ) (s : Session) → LineFits (process_complete_line d now s)
process_complete_line-LineFits d now s = LineFits-empty _ (process_complete_line-empty d now s)

data_byte-LineFits :
    (d : Dialogue) (now byte : ℕ) (s : Session) → LineFits s → LineFits (data_byte d now byte s)
unfolding data_byte
data_byte-LineFits d now byte s fits =
    branch LineFits (byte == b'\r') _ _ (record { room = fits.room; clean = fits.clean })
      (branch LineFits (byte == b'\n') _ _ (process_complete_line-LineFits d now s)
        (branch LineFits (byte == 0) s _ fits (append_line_byte-LineFits byte s fits)))

after_cr-LineFits :
    (d : Dialogue) (now byte : ℕ) (s : Session) → LineFits s → LineFits (after_cr d now byte s)
unfolding after_cr
after_cr-LineFits d now byte s fits =
    let kept = append_line_byte-LineFits b'\r' s fits in
    branch LineFits (byte == b'\n') _ _ (process_complete_line-LineFits d now s) (
      branch LineFits (byte == 0) _ _ kept (
        branch LineFits (append_line_byte b'\r' s).close_requested _ _ kept
          (data_byte-LineFits d now byte _ kept)))

-- Whatever the dialogue does, a byte received leaves the line within the limit of the login state
-- and free of control characters, if it was so before.
pub receive_data_byte-LineFits :
    (d : Dialogue) (now byte : ℕ) (s : Session)
    → LineFits s
    → LineFits (receive_data_byte d now byte s)
unfolding receive_data_byte
receive_data_byte-LineFits d now byte s fits =
    branch LineFits s.pending_cr _ _
      (after_cr-LineFits d now byte (record s { pending_cr = false })
        (record { room = fits.room; clean = fits.clean }))
      (data_byte-LineFits d now byte s fits)

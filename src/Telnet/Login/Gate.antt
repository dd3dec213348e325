-- ===== src/Telnet/Login/Gate.antt =====
-- No input brings a session into the game but through an admitted line.
use telnet_tls_server.Common.{
  ℕ, ◌≡◌, ◌≢◌, refl, sym, ap, ◌∙◌, subst, ◌||◌, ◌==◌, ◌⊎◌, inl, inr, [], ◌∷◌, ◌++◌, arith,
  Bool-cases, Bytes,
}
use telnet_tls_server.Players.Disk.{Host}
use telnet_tls_server.Telnet.Session.{
  LoginState, login_name, login_password, login_new_password, login_confirm_password, login_in_game,
  Session, parser_data, parser_iac, parser_option, parser_sb_option, parser_sb_data, parser_sb_iac,
  ParserState, iac, sb,
}
use telnet_tls_server.Telnet.Session.Keeps.{branch, branch_by}
use telnet_tls_server.Telnet.Line.{receive_data_byte, handle_control_command}
use telnet_tls_server.Telnet.Framing.{
  Handlers, parse_byte, parse_bytes, byte_after_iac, append_subnegotiation,
}
use telnet_tls_server.Telnet.Framing.Chunks.{parse_bytes-closed, parse_bytes-open}
use telnet_tls_server.Telnet.Login.{Outside, account_dialogue}
use telnet_tls_server.Telnet.Login.Admission.{Admitted, Waits}
use telnet_tls_server.Telnet.Login.Entry.{
  AtNewline, not_yet, receive_data_byte-AtNewline, handle_control_command-Waits, HandlersWait,
  append_subnegotiation-Waits, byte_after_sb_iac-Waits,
}

-- What the input has passed before it brought the session into the game: some bytes, after which
-- the session was open and its line admits it, and a newline.
pub record Passed (host : Host) (h : Handlers) (now : ℕ) (bytes : Bytes) (s : Session)
    : Type 0 where
  pub before : Bytes
  pub behind : Bytes
  pub at_newline : bytes ≡ before ++ (10 ∷ behind)
  pub admitted : Admitted host now (parse_bytes h now before s)

Game-cases : (l : LoginState) → (l ≡ login_in_game) ⊎ (l ≢ login_in_game)
Game-cases login_name = inr (λ e. cc)
Game-cases login_password = inr (λ e. cc)
Game-cases login_new_password = inr (λ e. cc)
Game-cases login_confirm_password = inr (λ e. cc)
Game-cases login_in_game = inl refl

not_iac : ◌≢◌ {A = ℕ} iac 10
not_iac e = absurd (omega arith)

back :
    {host : Host} {now : ℕ} (p : ParserState) (s : Session)
    → Admitted host now (record s { parser = p })
    → Admitted host now s
back p s (Admitted.by_password r e a l v) = Admitted.by_password r e a l v
back p s (Admitted.by_creation e v a m) = Admitted.by_creation e v a m

module _ (host : Host) (out : Outside) (now : ℕ) (h : Handlers)
    (dialogue : h.dialogue ≡ account_dialogue host out) (good : HandlersWait h) where
  received :
      (byte : ℕ) (s : Session)
      → Waits s
      → AtNewline host out now byte s (receive_data_byte h.dialogue now byte s)
  received byte s w =
      subst (λ d. AtNewline host out now byte s (receive_data_byte d now byte s)) (sym dialogue)
        (receive_data_byte-AtNewline host out now byte s w)

  byte_after_iac-AtNewline :
      (byte : ℕ) (s : Session)
      → Waits s
      → AtNewline host out now byte s (byte_after_iac h now byte s)
  unfolding byte_after_iac
  byte_after_iac-AtNewline byte s w =
      let to = λ (t : Session). not_yet host out now byte s t in
      branch_by (AtNewline host out now byte s) (byte == iac) _ _
        (λ e g. absurd (not_iac (received iac s w g).0))
        (λ e.
          branch (AtNewline host out now byte s)
            (byte == 251 || (byte == 252 || (byte == 253 || byte == 254))) _ _
            (to (record s { pending_telnet_command = byte; parser = parser_option }) w)
            (branch (AtNewline host out now byte s) (byte == sb) _ _
              (to (record s { parser = parser_sb_option }) w)
              (to (record (handle_control_command byte s) { parser = parser_data })
                (handle_control_command-Waits byte s w))))

  parse_byte-AtNewline :
      (p : ParserState) (byte : ℕ) (s : Session)
      → Waits s
      → AtNewline host out now byte s (parse_byte h now byte (record s { parser = p }))
  unfolding parse_byte
  parse_byte-AtNewline parser_data byte s w g =
      let t = record s { parser = parser_data } in
      branch (AtNewline host out now byte s) (byte == iac) _ _
        (not_yet host out now byte s (record s { parser = parser_iac }) w)
        (λ g'. let (n, a) = received byte t w g' in (n, back parser_data s a)) g
  parse_byte-AtNewline parser_iac byte s w g =
      let (n, a) = byte_after_iac-AtNewline byte (record s { parser = parser_iac }) w g in
      (n, back parser_iac s a)
  parse_byte-AtNewline parser_option byte s w g =
      absurd
        (good.option_waits s.pending_telnet_command byte (record s { parser = parser_option }) w g)
  parse_byte-AtNewline parser_sb_option byte s w g = absurd (w g)
  parse_byte-AtNewline parser_sb_data byte s w g =
      let t = record s { parser = parser_sb_data } in
      branch (AtNewline host out now byte s) (byte == iac) _ _
        (not_yet host out now byte s (record s { parser = parser_sb_iac }) w)
        (not_yet host out now byte s (append_subnegotiation byte t)
          (append_subnegotiation-Waits byte t w))
        g
  parse_byte-AtNewline parser_sb_iac byte s w g =
      absurd (byte_after_sb_iac-Waits h byte (record s { parser = parser_sb_iac }) good w g)

  -- If input brings a session into the game that was not in it, then a newline in the input found
  -- the session with a line that admits it.
  pub parse_bytes-Passed :
      (bytes : Bytes) (s : Session)
      → Waits s
      → (parse_bytes h now bytes s).login ≡ login_in_game
      → Passed host h now bytes s
  parse_bytes-Passed [] s w g = absurd (w (unfold parse_bytes in g))
  parse_bytes-Passed (b ∷ bs) s w g = elim (Bool-cases s.close_requested) [
    | inl c ↦
        absurd (w (sym (ap (λ (t : Session). t.login) (parse_bytes-closed h now (b ∷ bs) s c)) ∙ g))
    | inr o ↦
        let step = parse_bytes-open h now b bs s o in
        elim (Game-cases (parse_byte h now b s).login) [
          | inl here ↦
              let (n, a) = parse_byte-AtNewline s.parser b s w here in
              record {
                before = [];
                behind = bs;
                at_newline = ap (λ x. x ∷ bs) n;
                admitted = unfold parse_bytes in a;
              }
          | inr later ↦
              let rest =
                parse_bytes-Passed bs (parse_byte h now b s) later
                  (sym (ap (λ (t : Session). t.login) step) ∙ g) in
              record {
                before = b ∷ rest.before;
                behind = rest.behind;
                at_newline = ap (λ x. b ∷ x) rest.at_newline;
                admitted =
                    subst (Admitted host now) (sym (parse_bytes-open h now b rest.before s o))
                      rest.admitted;
              }
        ]
  ]

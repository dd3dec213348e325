-- ===== src/Telnet/Framing/Payload.antt =====
-- Reading what `send_subnegotiation` writes.
use telnet_tls_server.Common.{
  ℕ, ◌≡◌, ◌≤◌, ◌+◌, refl, sym, ap, ◌∙◌, leb, ◌==◌, ==_iff, false, [], ◌∷◌, ◌++◌, append_assoc,
  append-nil, Bytes, length, length-append, arith, Bool-cases, inl, inr,
}
use telnet_tls_server.Telnet.Session.{
  Session, ParserState, parser_data, parser_iac, parser_sb_option, parser_sb_data, parser_sb_iac,
  iac, se, sb,
}
use telnet_tls_server.Telnet.Session.Wire.{escape, escape-iac, escape-plain}
use telnet_tls_server.Telnet.Framing.{
  Handlers, subnegotiation_max_bytes, finish_subnegotiation, append_subnegotiation, byte_after_iac,
  byte_after_sb_iac, parse_byte, parse_bytes,
}
use telnet_tls_server.Telnet.Framing.Chunks.{parse_bytes-open, parse_bytes-append}

-- A session in the given parser state, with these bytes of a subnegotiation held.
abbrev pub holding : ParserState → Bytes → Session → Session
holding p held s = record s { parser = p; subnegotiation = held }

append_subnegotiation-room :
    (byte : ℕ) (s : Session)
    → leb subnegotiation_max_bytes (length s.subnegotiation) ≡ false
    → append_subnegotiation byte s ≡ holding parser_sb_data (s.subnegotiation ++ byte ∷ []) s
unfolding append_subnegotiation
append_subnegotiation-room byte s free = ground arith

parse_byte-room :
    (h : Handlers) (now b : ℕ) (held : Bytes) (s : Session)
    → (b == iac) ≡ false
    → leb subnegotiation_max_bytes (length held) ≡ false
    → parse_byte h now b (holding parser_sb_data held s) ≡ holding parser_sb_data (held ++ b ∷ []) s
unfolding parse_byte
parse_byte-room h now b held s plain free =
    rw plain (append_subnegotiation-room b (holding parser_sb_data held s) free)

parse_byte-doubled :
    (h : Handlers) (now : ℕ) (held : Bytes) (s : Session)
    → leb subnegotiation_max_bytes (length held) ≡ false
    → parse_byte h now iac (holding parser_sb_iac held s)
      ≡ holding parser_sb_data (held ++ iac ∷ []) s
unfolding parse_byte byte_after_sb_iac
parse_byte-doubled h now held s free =
    append_subnegotiation-room iac (holding parser_sb_iac held s) free

parse_byte-iac :
    (h : Handlers) (now : ℕ) (held : Bytes) (s : Session)
    → parse_byte h now iac (holding parser_sb_data held s) ≡ holding parser_sb_iac held s
unfolding parse_byte
parse_byte-iac h now held s = refl

full :
    (held payload : Bytes) (b : ℕ)
    → length held + length (b ∷ payload) ≤ subnegotiation_max_bytes
    → leb subnegotiation_max_bytes (length held) ≡ false
full held payload b fits = ground arith

-- The escaped payload fills the buffer with the payload.
parse_bytes-escape :
    (h : Handlers) (now : ℕ) (payload held : Bytes) (s : Session)
    → s.close_requested ≡ false
    → length held + length payload ≤ subnegotiation_max_bytes
    → parse_bytes h now (escape payload) (holding parser_sb_data held s)
      ≡ holding parser_sb_data (held ++ payload) s
parse_bytes-escape h now [] held s o fits =
    unfold parse_bytes escape in ap (λ bs. holding parser_sb_data bs s) (sym (append-nil held))
parse_bytes-escape h now (b ∷ bs) held s o fits =
    let free = full held bs b fits in
    let rest =
      parse_bytes-escape h now bs (held ++ b ∷ []) s o
        (let more = length-append held (b ∷ []) in omega arith) in
    let joined = ap (λ x. holding parser_sb_data x s) (append_assoc held (b ∷ []) bs) in
    elim (Bool-cases (b == iac)) [
      | inl t ↦
          let is_iac = (==_iff b iac).0 t in
          ap (λ x. parse_bytes h now x (holding parser_sb_data held s)) (escape-iac b bs t)
          ∙ parse_bytes-open h now iac _ (holding parser_sb_data held s) o
          ∙ ap (parse_bytes h now (iac ∷ escape bs)) (parse_byte-iac h now held s)
          ∙ parse_bytes-open h now iac _ (holding parser_sb_iac held s) o
          ∙ ap (parse_bytes h now (escape bs)) (parse_byte-doubled h now held s free)
          ∙ ap (λ x. parse_bytes h now (escape bs) (holding parser_sb_data (held ++ x ∷ []) s))
              (sym is_iac)
          ∙ rest
          ∙ joined
      | inr f ↦
          ap (λ x. parse_bytes h now x (holding parser_sb_data held s)) (escape-plain b bs f)
          ∙ parse_bytes-open h now b _ (holding parser_sb_data held s) o
          ∙ ap (parse_bytes h now (escape bs)) (parse_byte-room h now b held s f free)
          ∙ rest
          ∙ joined
    ]

-- The three bytes before the payload, and the two after it.
parse_bytes-opening :
    (h : Handlers) (now option : ℕ) (s : Session)
    → s.close_requested ≡ false
    → parse_bytes h now (iac ∷ sb ∷ option ∷ []) (record s { parser = parser_data })
      ≡ holding parser_sb_data [] (record s { subnegotiation_option = option })
parse_bytes-opening h now option s o =
    parse_bytes-open h now iac _ (record s { parser = parser_data }) o
    ∙ unfold parse_byte in
      parse_bytes-open h now sb _ (record s { parser = parser_iac }) o
      ∙ unfold byte_after_iac in
        parse_bytes-open h now option _ (record s { parser = parser_sb_option }) o
        ∙ unfold parse_bytes in refl

parse_bytes-closing :
    (h : Handlers) (now : ℕ) (payload : Bytes) (s : Session)
    → s.close_requested ≡ false
    → parse_bytes h now (iac ∷ se ∷ []) (holding parser_sb_data payload s)
      ≡ record (finish_subnegotiation h (holding parser_sb_iac payload s)) { parser = parser_data }
parse_bytes-closing h now payload s o =
    parse_bytes-open h now iac _ (holding parser_sb_data payload s) o
    ∙ unfold parse_byte in
      parse_bytes-open h now se _ (holding parser_sb_iac payload s) o
      ∙ unfold parse_bytes parse_byte byte_after_sb_iac in refl

-- An open session between commands that reads a subnegotiation as `send_subnegotiation` writes it,
-- with a payload of at most 4096 bytes, hands exactly the payload to the handler of the option,
-- whatever bytes it holds, and is between commands again.
pub parse_bytes-escape_round_trip :
    (h : Handlers) (now option : ℕ) (payload : Bytes) (s : Session)
    → s.close_requested ≡ false
    → s.parser ≡ parser_data
    → length payload ≤ subnegotiation_max_bytes
    → parse_bytes h now ((iac ∷ sb ∷ option ∷ []) ++ (escape payload ++ (iac ∷ se ∷ []))) s
      ≡ record (finish_subnegotiation h
          (holding parser_sb_iac payload (record s { subnegotiation_option = option }))) {
            parser = parser_data;
          }
parse_bytes-escape_round_trip h now option payload s o idle fits =
    let told = record s { subnegotiation_option = option } in
    let at_rest = ap (λ p. record s { parser = p }) idle in
    parse_bytes-append h now (iac ∷ sb ∷ option ∷ []) (escape payload ++ (iac ∷ se ∷ [])) s
    ∙ ap
        (λ t.
          parse_bytes h now (escape payload ++ (iac ∷ se ∷ []))
            (parse_bytes h now (iac ∷ sb ∷ option ∷ []) t))
        at_rest
    ∙ ap (parse_bytes h now (escape payload ++ (iac ∷ se ∷ [])))
        (parse_bytes-opening h now option s o)
    ∙ parse_bytes-append h now (escape payload) (iac ∷ se ∷ []) _
    ∙ ap (parse_bytes h now (iac ∷ se ∷ []))
        (parse_bytes-escape h now payload [] told o (omega arith))
    ∙ parse_bytes-closing h now payload told o

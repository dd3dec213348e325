-- ===== src/Telnet/Session/Keeps.antt =====
-- What writing and closing leave alone.
use telnet_tls_server.Common.{
  ◌+◌, ◌≡◌, refl, ap, ◌∙◌, ◌==◌, if◌then◌else◌, Bool, true, false, [], ◌∷◌, ◌++◌, none, some, Bytes,
  codes, Option, Bool-cases, inl, inr, leb,
}
use telnet_tls_server.Telnet.Session.{
  Session, audit, eor_cmd, ga, iac, write_raw, write_chunks, write_telnet_data, prompt_marker,
  write_prompt_text, say, note, request_close, note_protocol_violation, protocol_violation_limit,
}
use telnet_tls_server.Telnet.Session.Wire.{write_chunks-iac, write_chunks-plain}

-- The line, the login state and the subnegotiation held stay.
pub record Keeps (s t : Session) : Type 0 where
  pub same_line : t.line ≡ s.line
  pub same_login : t.login ≡ s.login
  pub same_buffer : t.subnegotiation ≡ s.subnegotiation

pub Keeps-refl : (s : Session) → Keeps s s
Keeps-refl s = record { same_line = refl; same_login = refl; same_buffer = refl }

pub Keeps-trans : {s t u : Session} → Keeps s t → Keeps t u → Keeps s u
Keeps-trans x y = record {
  same_line = y.same_line ∙ x.same_line;
  same_login = y.same_login ∙ x.same_login;
  same_buffer = y.same_buffer ∙ x.same_buffer;
}

-- What holds of both branches holds of the choice.
pub branch : {A : Type 0} (P : A → Type 0) (b : Bool) (x y : A) → P x → P y → P (if b then x else y)
branch P true x y p q = p
branch P false x y p q = q

-- The same, with the test's value.
pub branch_by :
    (P : Session → Type 0) (b : Bool) (x y : Session)
    → (b ≡ true → P x)
    → (b ≡ false → P y)
    → P (if b then x else y)
branch_by P true x y p q = p refl
branch_by P false x y p q = q refl

pub write_raw-Keeps : (bytes : Bytes) (s : Session) → Keeps s (write_raw bytes s)
unfolding write_raw
write_raw-Keeps [] s = Keeps-refl s
write_raw-Keeps (b ∷ bs) s =
    branch (Keeps s) s.close_requested s _ (Keeps-refl s)
      (record { same_line = refl; same_login = refl; same_buffer = refl })

Keeps-to : {s t u : Session} → t ≡ u → Keeps s u → Keeps s t
Keeps-to e x = record {
  same_line = ap (λ (v : Session). v.line) e ∙ x.same_line;
  same_login = ap (λ (v : Session). v.login) e ∙ x.same_login;
  same_buffer = ap (λ (v : Session). v.subnegotiation) e ∙ x.same_buffer;
}

pub write_chunks-Keeps : (chunk bytes : Bytes) (s : Session) → Keeps s (write_chunks chunk bytes s)
write_chunks-Keeps chunk [] s = unfold write_chunks in write_raw-Keeps chunk s
write_chunks-Keeps chunk (b ∷ bs) s = elim (Bool-cases (b == iac)) [
  | inl t ↦ Keeps-to (write_chunks-iac chunk b bs s t) (
      Keeps-trans (write_raw-Keeps chunk s)
        (Keeps-trans (write_raw-Keeps _ _) (write_chunks-Keeps [] bs _)))
  | inr f ↦ Keeps-to (write_chunks-plain chunk b bs s f) (write_chunks-Keeps (chunk ++ b ∷ []) bs s)
]

pub write_telnet_data-Keeps : (bytes : Bytes) (s : Session) → Keeps s (write_telnet_data bytes s)
unfolding write_telnet_data
write_telnet_data-Keeps bytes s = write_chunks-Keeps [] bytes s

pub prompt_marker-Keeps : (s : Session) → Keeps s (prompt_marker s)
unfolding prompt_marker
prompt_marker-Keeps s =
    branch (Keeps s) s.terminal.local_eor _ _ (write_raw-Keeps (iac ∷ eor_cmd ∷ []) s) (
      branch (Keeps s) s.terminal.local_suppress_go_ahead _ _ (Keeps-refl s)
        (write_raw-Keeps (iac ∷ ga ∷ []) s))

pub write_prompt_text-Keeps : (text : Bytes) (s : Session) → Keeps s (write_prompt_text text s)
unfolding write_prompt_text
write_prompt_text-Keeps text s =
    Keeps-trans (write_telnet_data-Keeps text s) (prompt_marker-Keeps _)

pub say-Keeps : (message : Option Bytes) (s : Session) → Keeps s (say message s)
unfolding say
say-Keeps none s = Keeps-refl s
say-Keeps (some message) s = write_telnet_data-Keeps message s

pub note-Keeps : (event : Option Bytes) (s : Session) → Keeps s (note event s)
unfolding note audit
note-Keeps none s = Keeps-refl s
note-Keeps (some event) s = record { same_line = refl; same_login = refl; same_buffer = refl }

pub request_close-Keeps :
    (event message : Option Bytes) (s : Session) → Keeps s (request_close event message s)
unfolding request_close
request_close-Keeps event message s = branch (Keeps s) s.close_requested s _ (Keeps-refl s) (
    Keeps-trans (say-Keeps message s) (
      Keeps-trans (record { same_line = refl; same_login = refl; same_buffer = refl })
        (note-Keeps event _)))

pub note_protocol_violation-Keeps :
    (detail : Bytes) (s : Session) → Keeps s (note_protocol_violation detail s)
unfolding note_protocol_violation audit
note_protocol_violation-Keeps detail s =
    let noted =
      audit (codes "telnet_protocol_violation") (some detail)
        (record s { protocol_violations = s.protocol_violations + 1 }) in
    branch (Keeps s) (leb protocol_violation_limit noted.protocol_violations) _ noted
      (Keeps-trans (record { same_line = refl; same_login = refl; same_buffer = refl })
        (request_close-Keeps (some (codes "telnet_protocol_abuse"))
          (some (codes "Protocol error.\r\n")) noted))
      (record { same_line = refl; same_login = refl; same_buffer = refl })

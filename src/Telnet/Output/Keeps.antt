-- ===== src/Telnet/Output/Keeps.antt =====
-- What an application can do to its session through `terminal_output`: it leaves alone the line, the
-- login state and the subnegotiation.
use telnet_tls_server.Common.{
  not, ◌&&◌, ◌||◌, ◌==◌, Bool, false, [], ◌∷◌, ◌++◌, Option, some, Bytes, Bool-cases, inl, inr,
}
use telnet_tls_server.Telnet.Session.{Session}
use telnet_tls_server.Telnet.Session.Keeps.{
  Keeps, Keeps-refl, Keeps-trans, branch, write_telnet_data-Keeps, prompt_marker-Keeps,
  request_close-Keeps,
}
use telnet_tls_server.Telnet.Output.{
  flushed, application_text, write_application_text, application_write_prompt,
  application_request_close, osc_uri_safe, refused_scheme, written_link, application_write_link,
}

flushed-Keeps : (held : Bytes) (s : Session) → Keeps s (flushed held s)
flushed-Keeps [] s = Keeps-refl s
flushed-Keeps (b ∷ bs) s = write_telnet_data-Keeps (b ∷ bs) s

application_text-Keeps :
    (after_cr : Bool) (held bs : Bytes) (s : Session)
    → Keeps s (application_text after_cr held bs s)
unfolding application_text
application_text-Keeps after_cr held [] s = flushed-Keeps held s
application_text-Keeps after_cr held (b ∷ bs) s = elim (Bool-cases (b == 10 && not after_cr)) [
  | inl t ↦
      rw (t, application_text)
        (Keeps-trans (flushed-Keeps held s) (
          Keeps-trans (write_telnet_data-Keeps (13 ∷ 10 ∷ []) (flushed held s))
            (application_text-Keeps false [] bs _)))
  | inr f ↦ rw (f, application_text) (application_text-Keeps (b == 13) (held ++ b ∷ []) bs s)
]

pub write_application_text-Keeps :
    (text : Bytes) (s : Session) → Keeps s (write_application_text text s)
unfolding write_application_text
write_application_text-Keeps text s = application_text-Keeps false [] text s

pub application_write_prompt-Keeps :
    (text : Bytes) (s : Session) → Keeps s (application_write_prompt text s)
unfolding application_write_prompt
application_write_prompt-Keeps text s =
    Keeps-trans (write_application_text-Keeps text s) (prompt_marker-Keeps _)

pub application_request_close-Keeps :
    (message : Option Bytes) (s : Session) → Keeps s (application_request_close message s)
unfolding application_request_close
application_request_close-Keeps message s = request_close-Keeps _ message s

written_link-Keeps : (uri label : Bytes) (s : Session) → Keeps s (written_link uri label s)
unfolding written_link
written_link-Keeps uri label s = Keeps-trans (write_telnet_data-Keeps _ s) (
    Keeps-trans (write_telnet_data-Keeps uri _) (
      Keeps-trans (write_telnet_data-Keeps _ _)
        (Keeps-trans (write_telnet_data-Keeps label _) (write_telnet_data-Keeps _ _))))

pub application_write_link-Keeps :
    (uri label : Bytes) (s : Session) → Keeps s (application_write_link uri label s)
unfolding application_write_link
application_write_link-Keeps uri label s =
    branch (Keeps s)
      (not s.terminal.osc8 || (not (osc_uri_safe (some uri)) || refused_scheme uri s)) _ _
      (write_telnet_data-Keeps _ s) (written_link-Keeps uri _ s)

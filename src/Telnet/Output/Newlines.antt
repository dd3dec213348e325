-- ===== src/Telnet/Output/Newlines.antt =====
-- The line ends of what an application writes.
use telnet_tls_server.Common.{
  ℕ, ◌≡◌, refl, sym, ap, ◌∙◌, ◌==◌, ◌&&◌, not, if◌then◌else◌, Bool, true, false, [], ◌∷◌, ◌++◌,
  append_assoc, append-nil, Bytes, Bool-cases, inl, inr,
}
use telnet_tls_server.Telnet.Session.{Session, iac, write_telnet_data}
use telnet_tls_server.Telnet.Session.Wire.{
  Sends, Sends-to, Sends-trans, Sends-eq, escape, write_telnet_data-Sends,
}
use telnet_tls_server.Telnet.Output.{flushed, application_text, write_application_text}

-- A text with CR before each LF that had none; the Boolean is true behind a CR.
unfoldable pub network_lines : Bool → Bytes → Bytes
network_lines after_cr [] = []
network_lines after_cr (b ∷ bs) =
    if b == 10 && not after_cr
    then 13 ∷ 10 ∷ network_lines false bs
    else b ∷ network_lines (b == 13) bs

escape-append : (xs ys : Bytes) → escape (xs ++ ys) ≡ escape xs ++ escape ys
unfolding escape
escape-append [] ys = refl
escape-append (x ∷ xs) ys =
    let front = if x == iac then iac ∷ iac ∷ [] else x ∷ [] in
    ap (λ rest. front ++ rest) (escape-append xs ys)
    ∙ sym (append_assoc front (escape xs) (escape ys))

flushed-Sends :
    (held : Bytes) (s : Session)
    → s.close_requested ≡ false
    → Sends (escape held) s (flushed held s)
flushed-Sends [] s o = unfold escape in record { still_open = o; sent = sym (append-nil _) }
flushed-Sends (b ∷ bs) s o = write_telnet_data-Sends (b ∷ bs) s o

application_text-lf :
    (after_cr : Bool) (held : Bytes) (b : ℕ) (bs : Bytes) (s : Session)
    → (b == 10 && not after_cr) ≡ true
    → application_text after_cr held (b ∷ bs) s
      ≡ application_text false [] bs (write_telnet_data (13 ∷ 10 ∷ []) (flushed held s))
unfolding application_text
application_text-lf after_cr held b bs s t = rw (t, application_text) refl

application_text-other :
    (after_cr : Bool) (held : Bytes) (b : ℕ) (bs : Bytes) (s : Session)
    → (b == 10 && not after_cr) ≡ false
    → application_text after_cr held (b ∷ bs) s ≡ application_text (b == 13) (held ++ b ∷ []) bs s
unfolding application_text
application_text-other after_cr held b bs s f = rw (f, application_text) refl

lines-lf :
    (after_cr : Bool) (b : ℕ) (bs : Bytes)
    → (b == 10 && not after_cr) ≡ true
    → network_lines after_cr (b ∷ bs) ≡ 13 ∷ 10 ∷ network_lines false bs
unfolding network_lines
lines-lf after_cr b bs t = rw (t, network_lines) refl

lines-other :
    (after_cr : Bool) (b : ℕ) (bs : Bytes)
    → (b == 10 && not after_cr) ≡ false
    → network_lines after_cr (b ∷ bs) ≡ b ∷ network_lines (b == 13) bs
unfolding network_lines
lines-other after_cr b bs f = rw (f, network_lines) refl

parted :
    (held bs : Bytes)
    → escape held ++ (escape (13 ∷ 10 ∷ []) ++ escape bs) ≡ escape (held ++ (13 ∷ 10 ∷ bs))
parted held bs =
    ap (λ rest. escape held ++ rest) (sym (escape-append (13 ∷ 10 ∷ []) bs))
    ∙ sym (escape-append held (13 ∷ 10 ∷ bs))

application_text-Sends :
    (after_cr : Bool) (held bs : Bytes) (s : Session)
    → s.close_requested ≡ false
    → Sends (escape (held ++ network_lines after_cr bs)) s (application_text after_cr held bs s)
application_text-Sends after_cr held [] s o =
    unfold application_text network_lines in
    Sends-eq (ap escape (sym (append-nil held))) (flushed-Sends held s o)
application_text-Sends after_cr held (b ∷ bs) s o = elim (Bool-cases (b == 10 && not after_cr)) [
  | inl t ↦
      let first = flushed-Sends held s o in
      let second = write_telnet_data-Sends (13 ∷ 10 ∷ []) (flushed held s) first.still_open in
      let third = application_text-Sends false [] bs _ second.still_open in
      Sends-to (application_text-lf after_cr held b bs s t) (
        Sends-eq
          (parted held (network_lines false bs)
            ∙ ap (λ rest. escape (held ++ rest)) (sym (lines-lf after_cr b bs t)))
          (Sends-trans first (Sends-trans second third)))
  | inr f ↦ Sends-to (application_text-other after_cr held b bs s f) (
      Sends-eq
        (ap escape (
          append_assoc held (b ∷ []) (network_lines (b == 13) bs)
          ∙ ap (λ rest. held ++ rest) (sym (lines-other after_cr b bs f))))
        (application_text-Sends (b == 13) (held ++ b ∷ []) bs s o))
]

-- What an application writes to an open session reaches the wire with CR before each LF that had
-- none, and every IAC doubled, and nothing else does.
pub write_application_text-Sends :
    (text : Bytes) (s : Session)
    → s.close_requested ≡ false
    → Sends (escape (network_lines false text)) s (write_application_text text s)
unfolding write_application_text
write_application_text-Sends text s o = application_text-Sends false [] text s o

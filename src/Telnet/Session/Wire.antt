-- ===== src/Telnet/Session/Wire.antt =====
-- What reaches the wire.
use telnet_tls_server.Common.{
  ℕ, ◌≡◌, refl, sym, ap, ◌∙◌, ◌==◌, if◌then◌else◌, true, false, List, [], ◌∷◌, ◌++◌, append_assoc,
  append-nil, Bytes, arith, Bool-cases, inl, inr,
}
use telnet_tls_server.Telnet.Session.{
  Session, iac, se, sb, write_raw, write_chunks, write_telnet_data, payload_bytes,
  send_subnegotiation,
}

abbrev pub joined : List Bytes → Bytes
joined [] = []
joined (b ∷ bs) = b ++ joined bs

-- The bytes handed to the writer so far.
abbrev pub wire : Session → Bytes
wire s = joined s.written

-- Every IAC doubled.
unfoldable pub escape : Bytes → Bytes
escape [] = []
escape (b ∷ bs) = (if b == iac then iac ∷ iac ∷ [] else b ∷ []) ++ escape bs

joined-append : (xs ys : List Bytes) → joined (xs ++ ys) ≡ joined xs ++ joined ys
joined-append [] ys = refl
joined-append (x ∷ xs) ys = rw (joined-append xs ys) (sym (append_assoc x (joined xs) (joined ys)))

-- Open before and after, with these bytes more on the wire.
pub record Sends (bytes : Bytes) (s t : Session) : Type 0 where
  pub still_open : t.close_requested ≡ false
  pub sent : wire t ≡ wire s ++ bytes

pub Sends-to : {a : Bytes} {s t u : Session} → t ≡ u → Sends a s u → Sends a s t
Sends-to {s = s} e x = record {
  still_open = ap (λ (v : Session). v.close_requested) e ∙ x.still_open;
  sent = ap wire e ∙ x.sent;
}

write_raw-open :
    (b : ℕ) (bs : Bytes) (s : Session)
    → s.close_requested ≡ false
    → write_raw (b ∷ bs) s ≡ record s { written = s.written ++ (b ∷ bs) ∷ [] }
unfolding write_raw
write_raw-open b bs s h = ground arith

pub write_raw-Sends :
    (bytes : Bytes) (s : Session) → s.close_requested ≡ false → Sends bytes s (write_raw bytes s)
write_raw-Sends [] s h =
    unfold write_raw in record { still_open = h; sent = sym (append-nil (wire s)) }
write_raw-Sends (b ∷ bs) s h = Sends-to (write_raw-open b bs s h) (record {
  still_open = h;
  sent = joined-append s.written ((b ∷ bs) ∷ []) ∙ ap (λ x. wire s ++ x) (append-nil (b ∷ bs));
})

pub Sends-trans : {a b : Bytes} {s t u : Session} → Sends a s t → Sends b t u → Sends (a ++ b) s u
Sends-trans {a} {b} {s} x y = record {
  still_open = y.still_open;
  sent = y.sent ∙ ap (λ w. w ++ b) x.sent ∙ append_assoc (wire s) a b;
}

pub Sends-eq : {a b : Bytes} {s t : Session} → a ≡ b → Sends a s t → Sends b s t
Sends-eq {s = s} e x = record { still_open = x.still_open; sent = x.sent ∙ ap (λ w. wire s ++ w) e }

pub escape-iac :
    (b : ℕ) (bs : Bytes) → (b == iac) ≡ true → escape (b ∷ bs) ≡ (iac ∷ iac ∷ []) ++ escape bs
unfolding escape
escape-iac b bs t = rw t refl

pub escape-plain : (b : ℕ) (bs : Bytes) → (b == iac) ≡ false → escape (b ∷ bs) ≡ b ∷ escape bs
unfolding escape
escape-plain b bs t = rw t refl

pub write_chunks-iac :
    (chunk : Bytes) (b : ℕ) (bs : Bytes) (s : Session)
    → (b == iac) ≡ true
    → write_chunks chunk (b ∷ bs) s
      ≡ write_chunks [] bs (write_raw (iac ∷ iac ∷ []) (write_raw chunk s))
unfolding write_chunks
write_chunks-iac chunk b bs s t = rw (t, write_chunks) refl

pub write_chunks-plain :
    (chunk : Bytes) (b : ℕ) (bs : Bytes) (s : Session)
    → (b == iac) ≡ false
    → write_chunks chunk (b ∷ bs) s ≡ write_chunks (chunk ++ b ∷ []) bs s
unfolding write_chunks
write_chunks-plain chunk b bs s t = rw (t, write_chunks) refl

write_chunks-Sends :
    (chunk bytes : Bytes) (s : Session)
    → s.close_requested ≡ false
    → Sends (chunk ++ escape bytes) s (write_chunks chunk bytes s)
write_chunks-Sends chunk [] s h =
    unfold write_chunks escape in Sends-eq (sym (append-nil chunk)) (write_raw-Sends chunk s h)
write_chunks-Sends chunk (b ∷ bs) s h = elim (Bool-cases (b == iac)) [
  | inl t ↦
      let first = write_raw-Sends chunk s h in
      let second = write_raw-Sends (iac ∷ iac ∷ []) (write_raw chunk s) first.still_open in
      let third = write_chunks-Sends [] bs _ second.still_open in
      Sends-to (write_chunks-iac chunk b bs s t) (
        Sends-eq (ap (λ x. chunk ++ x) (sym (escape-iac b bs t)))
          (Sends-trans first (Sends-trans second third)))
  | inr f ↦ Sends-to (write_chunks-plain chunk b bs s f) (
      Sends-eq
        (append_assoc chunk (b ∷ []) (escape bs) ∙ ap (λ x. chunk ++ x) (sym (escape-plain b bs f)))
        (write_chunks-Sends (chunk ++ b ∷ []) bs s h))
]

-- On an open session `write_telnet_data` sends the data with every IAC doubled, and nothing else.
pub write_telnet_data-Sends :
    (bytes : Bytes) (s : Session)
    → s.close_requested ≡ false
    → Sends (escape bytes) s (write_telnet_data bytes s)
unfolding write_telnet_data
write_telnet_data-Sends bytes s h = write_chunks-Sends [] bytes s h

payload_bytes-Sends :
    (bytes : Bytes) (s : Session)
    → s.close_requested ≡ false
    → Sends (escape bytes) s (payload_bytes bytes s)
unfolding payload_bytes escape
payload_bytes-Sends [] s h = record { still_open = h; sent = sym (append-nil (wire s)) }
payload_bytes-Sends (b ∷ bs) s h =
    let first = write_raw-Sends (if b == iac then iac ∷ iac ∷ [] else b ∷ []) s h in
    Sends-trans first (payload_bytes-Sends bs _ first.still_open)

-- On an open session `send_subnegotiation` sends IAC SB and the option, the payload with every
-- IAC doubled, and IAC SE.
pub send_subnegotiation-Sends :
    (option : ℕ) (payload : Bytes) (s : Session)
    → s.close_requested ≡ false
    → Sends
        ((iac ∷ sb ∷ option ∷ []) ++ (escape payload ++ (iac ∷ se ∷ [])))
        s
        (send_subnegotiation option payload s)
unfolding send_subnegotiation
send_subnegotiation-Sends option payload s h =
    let first = write_raw-Sends (iac ∷ sb ∷ option ∷ []) s h in
    let second = payload_bytes-Sends payload _ first.still_open in
    Sends-trans first (Sends-trans second (write_raw-Sends (iac ∷ se ∷ []) _ second.still_open))

-- ===== src/Telnet/Framing/Chunks.antt =====
-- The parser keeps its place between calls.
use telnet_tls_server.Common.{
  ℕ, ◌≡◌, refl, true, false, [], ◌∷◌, ◌++◌, Bytes, arith, Bool-cases, inl, inr,
}
use telnet_tls_server.Telnet.Session.{Session}
use telnet_tls_server.Telnet.Framing.{Handlers, parse_byte, parse_bytes}

pub parse_bytes-closed :
    (h : Handlers) (now : ℕ) (bytes : Bytes) (s : Session)
    → s.close_requested ≡ true
    → parse_bytes h now bytes s ≡ s
unfolding parse_bytes
parse_bytes-closed h now [] s c = refl
parse_bytes-closed h now (b ∷ bs) s c = rw c refl

pub parse_bytes-open :
    (h : Handlers) (now : ℕ) (b : ℕ) (bs : Bytes) (s : Session)
    → s.close_requested ≡ false
    → parse_bytes h now (b ∷ bs) s ≡ parse_bytes h now bs (parse_byte h now b s)
unfolding parse_bytes
parse_bytes-open h now b bs s o = ground arith

-- Reading a packet and then the next is reading the two together, wherever the bytes are parted:
-- within a command, an option or a subnegotiation as well.
pub parse_bytes-append :
    (h : Handlers) (now : ℕ) (front back : Bytes) (s : Session)
    → parse_bytes h now (front ++ back) s ≡ parse_bytes h now back (parse_bytes h now front s)
parse_bytes-append h now [] back s = unfold parse_bytes in refl
parse_bytes-append h now (b ∷ bs) back s = elim (Bool-cases s.close_requested) [
  | inl c ↦
      rw (parse_bytes-closed h now (b ∷ bs) s c, parse_bytes-closed h now back s c)
        (parse_bytes-closed h now (b ∷ bs ++ back) s c)
  | inr o ↦
      rw (parse_bytes-open h now b bs s o, parse_bytes-open h now b (bs ++ back) s o)
        (parse_bytes-append h now bs back (parse_byte h now b s))
]

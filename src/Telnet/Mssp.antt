-- ===== src/Telnet/Mssp.antt =====
-- The MSSP status of src/telnet_protocol.c.
use telnet_tls_server.Common.{
  ℕ, zero, suc, ◌+◌, ◌/◌, ◌%◌, ltb, leb, ◌==◌, if◌then◌else◌, Bool, true, not, ◌&&◌, ◌||◌, [], ◌∷◌,
  ◌++◌, Option, none, some, Bytes, codes, length,
}
use telnet_tls_server.Negotiation.{local}
use telnet_tls_server.Players.Names.{every}
use telnet_tls_server.Telnet.Opt
use telnet_tls_server.Telnet.Session.{Session, audit, send_subnegotiation}
use telnet_tls_server.Telnet.Options.{on}

-- What `mssp_query` fills in.
pub record MsspStatus : Type 0 where
  pub name : Bytes
  pub players : ℕ
  pub uptime : ℕ
  pub telnet_port : ℕ
  pub telnet_tls_port : ℕ
  pub codebase : Bytes

abbrev mssp_payload_max_bytes : ℕ
mssp_payload_max_bytes = 2048

-- `%u` of `snprintf`; twenty digits are enough for 64 bits.
unfoldable pub digits : ℕ → ℕ → Bytes
digits zero n = []
digits (suc fuel) n =
    let front = digits fuel (n / 10) in
    if ltb n 10 then (b'0' + n) ∷ [] else front ++ (b'0' + n % 10) ∷ []

abbrev pub decimal : ℕ → Bytes
decimal n = digits 20 n

abbrev name_letter : ℕ → Bool
name_letter ch = (leb b'A' ch && leb ch b'Z') || ch == 32

abbrev value_byte : ℕ → Bool
value_byte ch = not (ch == 0 || (ch == 1 || (ch == 2 || ch == 255)))

-- The payload with the pair, `none` where the result is -1.
unfoldable pub mssp_append_pair : ℕ → Bytes → Bytes → Bytes → Option Bytes
mssp_append_pair payload_size payload name value =
    if length name == 0 || ltb payload_size (length payload + 2 + length name + length value)
    then none
    else if every name_letter name && every value_byte value
    then some (payload ++ (1 ∷ (name ++ (2 ∷ value))))
    else none

-- One link of the chains of `mssp_append_pair`.
unfoldable pub and_pair : Option Bytes → Bytes → Bytes → Option Bytes
and_pair none name value = none
and_pair (some payload) name value = mssp_append_pair mssp_payload_max_bytes payload name value

or_core : Bytes → Bytes
or_core [] = codes "mud-terminal-core"
or_core (b ∷ bs) = b ∷ bs

unfoldable pub status_pairs : MsspStatus → Option Bytes
unfolding or_core
status_pairs status =
    and_pair
      (and_pair
        (and_pair
          (and_pair (and_pair (some []) (codes "NAME") (or_core status.name)) (codes "PLAYERS")
            (decimal status.players))
          (codes "UPTIME") (decimal status.uptime))
        (codes "CHARSET") (codes "UTF-8"))
      (codes "CODEBASE") (or_core status.codebase)

-- A port that is not 0.
unfoldable pub and_port : ℕ → Bytes → Option Bytes → Option Bytes
and_port port name payload = if port == 0 then payload else and_pair payload name (decimal port)

unfoldable pub sent_status : Option Bytes → Session → Session
sent_status none s = s
sent_status (some payload) s = send_subnegotiation Opt.mssp payload (record s { mssp_sent = true })

-- With the five pairs that are always there.
unfoldable pub encoded_status : MsspStatus → Option Bytes → Session → Session
encoded_status status none s =
    audit (codes "mssp_status_error") (some (codes "unable to encode MSSP snapshot")) s
encoded_status status (some payload) s =
    sent_status
      (and_port status.telnet_tls_port (codes "SSL")
        (and_port status.telnet_port (codes "PORT") (some payload)))
      s

-- `query` is `mssp_query`, on the host's state at the time.
unfoldable pub send_mssp_status : (Session → MsspStatus) → Session → Session
send_mssp_status query s =
    if s.mssp_sent || (not s.has_mssp_query || not (on local Opt.mssp s))
    then s
    else encoded_status (query s) (status_pairs (query s)) s

-- ===== src/Telnet/Payloads/Environ.antt =====
-- The NEW-ENVIRON subnegotiation of src/telnet_protocol.c. VAR is 0, VAL 1, ESC 2, USERVAR 3.
pub mod Fields
pub mod Keeps
use telnet_tls_server.Common.{
  ℕ, zero, suc, ◌+◌, ltb, leb, ◌==◌, if◌then◌else◌, Bool, true, false, not, ◌&&◌, ◌||◌, List, [],
  ◌∷◌, ◌++◌, Option, none, some, Bytes, codes, length, c_string,
}
use telnet_tls_server.Negotiation.{remote}
use telnet_tls_server.Telnet.Opt
use telnet_tls_server.Telnet.Terminal.{terminal_text_max}
use telnet_tls_server.Telnet.Session.{Session}
use telnet_tls_server.Telnet.Options.{
  Peripherals, on, apply_mtts_flags, refresh_utf8_metadata, update_option_metadata,
}
use telnet_tls_server.Telnet.Payloads.{
  bytes_equal_ignore_case, copy_printable_ascii, parse_decimal_u32,
  infer_terminal_type_capabilities,
}

unfoldable pub env_value_enabled : Bytes → Bool
env_value_enabled value =
    ((length value == 1) && bytes_equal_ignore_case value (codes "1"))
    || (bytes_equal_ignore_case value (codes "TRUE")
        || (bytes_equal_ignore_case value (codes "YES")
            || bytes_equal_ignore_case value (codes "ON")))

abbrev copied : Bytes → Bytes → Bytes × Bool
copied value buffer = copy_printable_ascii (terminal_text_max + 1) value buffer

set_client_name : Bytes → Session → Session
set_client_name value s = record s {
  terminal = record (s.terminal) { client_name = (copied value s.terminal.client_name).0 };
}

set_client_version : Bytes → Session → Session
set_client_version value s = record s {
  terminal = record (s.terminal) { client_version = (copied value s.terminal.client_version).0 };
}

-- With what `copy_printable_ascii` left and returned.
copied_terminal_type : Bytes × Bool → Session → Session
copied_terminal_type (text, false) s = record s {
  terminal = record (s.terminal) { terminal_type = text };
}
copied_terminal_type (text, true) s =
    infer_terminal_type_capabilities (c_string text)
      (record s { terminal = record (s.terminal) { terminal_type = text } })

set_terminal_type : Bytes → Session → Session
unfolding copied_terminal_type
set_terminal_type value s = copied_terminal_type (copied value s.terminal.terminal_type) s

set_flags : Option ℕ → Session → Session
set_flags none s = s
set_flags (some flags) s = refresh_utf8_metadata (apply_mtts_flags flags s)

-- The names that only USERVAR carries.
user_value : Bytes → Bool → Session → Session
user_value name enabled s =
    if bytes_equal_ignore_case name (codes "SCREEN_READER")
    then record s { terminal = record (s.terminal) { screen_reader = enabled } }
    else if bytes_equal_ignore_case name (codes "OSC_HYPERLINKS")
    then record s { terminal = record (s.terminal) { osc8 = enabled } }
    else if bytes_equal_ignore_case name (codes "OSC_HYPERLINKS_SEND")
    then record s { terminal = record (s.terminal) { osc8_send = enabled } }
    else if bytes_equal_ignore_case name (codes "OSC_HYPERLINKS_PROMPT")
    then record s { terminal = record (s.terminal) { osc8_prompt = enabled } }
    else if bytes_equal_ignore_case name (codes "OSC_HYPERLINKS_TOOLTIP")
    then record s { terminal = record (s.terminal) { osc8_tooltip = enabled } }
    else s

-- A VAR token shows that the client speaks MNES.
observed : ℕ → Session → Session
observed token s = if token == 0 then record s { mnes_observed = true } else s

unfoldable pub apply_new_environ_value : ℕ → Bytes → Bytes → Session → Session
unfolding set_client_name set_client_version set_terminal_type set_flags user_value observed
apply_new_environ_value token name value s =
    if bytes_equal_ignore_case name (codes "CLIENT_NAME")
    then set_client_name value (observed token s)
    else if bytes_equal_ignore_case name (codes "CLIENT_VERSION")
    then set_client_version value (observed token s)
    else if bytes_equal_ignore_case name (codes "TERMINAL_TYPE")
    then set_terminal_type value (observed token s)
    else if bytes_equal_ignore_case name (codes "CHARSET")
    then (if bytes_equal_ignore_case value (codes "UTF-8")
        then refresh_utf8_metadata (record (observed token s) { charset_utf8 = true })
        else observed token s)
    else if bytes_equal_ignore_case name (codes "MTTS")
    then set_flags (parse_decimal_u32 value) (observed token s)
    else if not (token == 3)
    then s
    else user_value name (env_value_enabled value) s

-- How a field ends: the return out of the handler, or the text with the rest of the payload; a
-- name may end in VAL.
pub data Field : Type 0 where
  malformed : Field
  ended : Bytes → Bytes → Field
  valued : Bytes → Bytes → Field

abbrev pub is_token : ℕ → Bool
is_token b = b == 0 || b == 3

-- A byte more of a field, if the buffer has room.
unfoldable pub roomed : ℕ → Bytes → Field → Field
roomed size text field = if leb size (length text) then malformed else field

-- `text` is what the buffer holds.
unfoldable pub read_name : Bytes → Bytes → Field
unfolding roomed
read_name text [] = ended text []
read_name text (b ∷ []) =
    if b == 2
    then malformed
    else if b == 1
    then valued text []
    else if is_token b
    then ended text (b ∷ [])
    else roomed 64 text (ended (text ++ b ∷ []) [])
read_name text (b ∷ c ∷ bs) =
    let escaped = roomed 64 text (read_name (text ++ c ∷ []) bs) in
    let plain = roomed 64 text (read_name (text ++ b ∷ []) (c ∷ bs)) in
    if b == 2
    then escaped
    else if b == 1
    then valued text (c ∷ bs)
    else if is_token b
    then ended text (b ∷ c ∷ bs)
    else plain

unfoldable pub read_value : Bytes → Bytes → Field
unfolding roomed
read_value text [] = ended text []
read_value text (b ∷ []) =
    if b == 2
    then malformed
    else if is_token b
    then ended text (b ∷ [])
    else if b == 1
    then malformed
    else roomed 128 text (ended (text ++ b ∷ []) [])
read_value text (b ∷ c ∷ bs) =
    let escaped = roomed 128 text (read_value (text ++ c ∷ []) bs) in
    let plain = roomed 128 text (read_value (text ++ b ∷ []) (c ∷ bs)) in
    if b == 2
    then escaped
    else if is_token b
    then ended text (b ∷ c ∷ bs)
    else if b == 1
    then malformed
    else plain

-- One variable: its name, its value, empty without VAL, and the rest of the payload.
abbrev pub Variable : Type 0
Variable = Bytes × Bytes × Bytes

unfoldable pub value_of : Bytes → Field → Option Variable
value_of name malformed = none
value_of name (ended value rest) = some (name, value, rest)
value_of name (valued value rest) = none

unfoldable pub variable_of : Field → Option Variable
unfolding value_of read_value
variable_of malformed = none
variable_of (ended name rest) = some (name, [], rest)
variable_of (valued name rest) = value_of name (read_value [] rest)

unfoldable pub read_variable : Bytes → Option Variable
unfolding variable_of read_name
read_variable payload = variable_of (read_name [] payload)

-- A variable without a name is skipped.
unfoldable pub applied : ℕ → Bytes → Bytes → Session → Session
applied token name value s =
    if length name == 0 then s else apply_new_environ_value token name value s

-- The outer loop, which consumes at least a byte a round.
unfoldable pub environ_loop : Peripherals → ℕ → Bytes → Session → Session
unfolding read_variable
environ_loop host rounds [] s = update_option_metadata host s
environ_loop host zero (token ∷ rest) s = s
environ_loop host (suc rounds) (token ∷ rest) s = elim (is_token token) [
  | false ↦ s
  | true ↦ elim (read_variable rest) [
    | none ↦ s
    | some (name, value, rest') ↦ environ_loop host rounds rest' (applied token name value s)
  ]
]

-- IS is 0, INFO 2.
unfoldable pub environ_payload : Peripherals → Bytes → Session → Session
unfolding environ_loop
environ_payload host [] s = s
environ_payload host (command ∷ rest) s =
    if command == 0 || command == 2 then environ_loop host (length rest) rest s else s

unfoldable pub handle_new_environ : Peripherals → Session → Session
unfolding environ_payload
handle_new_environ host s =
    if on remote Opt.new_environ s then environ_payload host s.subnegotiation s else s

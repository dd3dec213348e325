-- ===== src/Telnet/Terminal.antt =====
-- What is known of the terminal: `telnet_terminal_info` of include/telnet_protocol.h.
use telnet_tls_server.Common.{ℕ, ◌+◌, Bool, false, [], ◌∷◌, ◌++◌, Bytes, codes, replicate}

abbrev pub terminal_text_max : ℕ
terminal_text_max = 40

-- `memcpy` to the start of a buffer.
unfoldable pub overwrite : Bytes → Bytes → Bytes
overwrite [] buffer = buffer
overwrite (b ∷ bs) [] = b ∷ bs
overwrite (b ∷ bs) (old ∷ buffer) = b ∷ overwrite bs buffer

-- A text with its terminator.
abbrev pub store_text : Bytes → Bytes → Bytes
store_text text buffer = overwrite (text ++ 0 ∷ []) buffer

-- The three texts are buffers of 41 bytes, of which a reader takes the C string.
pub record TerminalInfo : Type 0 where
  pub width : ℕ
  pub height : ℕ
  pub local_binary : Bool
  pub remote_binary : Bool
  pub local_suppress_go_ahead : Bool
  pub remote_suppress_go_ahead : Bool
  pub local_eor : Bool
  pub new_environ : Bool
  pub utf8_enabled : Bool
  pub secure_transport : Bool
  pub mtts_flags : ℕ
  pub ansi : Bool
  pub vt100 : Bool
  pub color_256 : Bool
  pub truecolor : Bool
  pub screen_reader : Bool
  pub mnes : Bool
  pub mssp : Bool
  pub gmcp : Bool
  pub osc8 : Bool
  pub osc8_send : Bool
  pub osc8_prompt : Bool
  pub osc8_tooltip : Bool
  pub terminal_type : Bytes
  pub client_name : Bytes
  pub client_version : Bytes

abbrev pub unknown_terminal : Bytes
unknown_terminal = codes "UNKNOWN"

abbrev pub blank_text : Bytes
blank_text = replicate (terminal_text_max + 1) 0

-- After `calloc` and the defaults that `telnet_session_create` sets.
unfoldable pub new_terminal : Bool → TerminalInfo
unfolding overwrite
new_terminal secure = record {
  width = 80;
  height = 24;
  local_binary = false;
  remote_binary = false;
  local_suppress_go_ahead = false;
  remote_suppress_go_ahead = false;
  local_eor = false;
  new_environ = false;
  utf8_enabled = false;
  secure_transport = secure;
  mtts_flags = 0;
  ansi = false;
  vt100 = false;
  color_256 = false;
  truecolor = false;
  screen_reader = false;
  mnes = false;
  mssp = false;
  gmcp = false;
  osc8 = false;
  osc8_send = false;
  osc8_prompt = false;
  osc8_tooltip = false;
  terminal_type = store_text unknown_terminal blank_text;
  client_name = store_text unknown_terminal blank_text;
  client_version = blank_text;
}

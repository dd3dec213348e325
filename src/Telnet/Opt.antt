-- ===== src/Telnet/Opt.antt =====
-- The option numbers of src/telnet_internal.h.
use telnet_tls_server.Common.{ℕ}

abbrev pub binary : ℕ
binary = 0

abbrev pub echo : ℕ
echo = 1

abbrev pub suppress_go_ahead : ℕ
suppress_go_ahead = 3

abbrev pub terminal_type : ℕ
terminal_type = 24

abbrev pub end_of_record : ℕ
end_of_record = 25

abbrev pub naws : ℕ
naws = 31

abbrev pub new_environ : ℕ
new_environ = 39

abbrev pub charset : ℕ
charset = 42

abbrev pub mssp : ℕ
mssp = 70

abbrev pub gmcp : ℕ
gmcp = 201

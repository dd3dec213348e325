-- ===== src/Examples/PayloadExamples.antt =====
-- The payloads of subnegotiations at concrete bytes.
use telnet_tls_server.Common.{
  c_string, ◌+◌, ◌≡◌, refl, true, List, [], ◌∷◌, none, some, Bytes, codes, All, arith,
}
use telnet_tls_server.Players.Names.{ascii_equal_ignore_case}
use telnet_tls_server.Telnet.Options.{Peripherals, update_option_metadata}
use telnet_tls_server.Telnet.Payloads.{parse_decimal_u32, copy_printable_ascii}
use telnet_tls_server.Telnet.Terminal.{
  terminal_text_max, overwrite, store_text, unknown_terminal, blank_text,
}
use telnet_tls_server.Telnet.Payloads.Decimal.{number, is_number, if_u32, parse_decimal_u32-number}
use telnet_tls_server.Telnet.Payloads.Charset.{charset_list_contains_utf8}
use telnet_tls_server.Telnet.Payloads.Charset.Offers.{
  joined, some_utf8, charset_list_contains_utf8-joined,
}
use telnet_tls_server.Telnet.Payloads.Environ.{environ_payload}
use telnet_tls_server.Telnet.Payloads.Environ.Fields.{
  Report, IsReport, write_reports, apply_reports, environ_payload-reports,
}
use telnet_tls_server.Examples.Fixtures.{fresh}

parse_decimal_u32-number_example :
    parse_decimal_u32 (codes "4294967296")
    ≡ if_u32 (is_number (codes "4294967296")) (number 0 (codes "4294967296"))
parse_decimal_u32-number_example = parse_decimal_u32-number (codes "4294967296")

-- 2^32 is the first number refused.
largest_read : parse_decimal_u32 (codes "4294967295") ≡ some 4294967295
unfolding parse_decimal_u32
largest_read = refl

too_large_refused : parse_decimal_u32 (codes "4294967296") ≡ none
unfolding parse_decimal_u32
too_large_refused = refl

abbrev latin : Bytes
latin = codes "ASCII"

abbrev utf8 : Bytes
utf8 = codes "utf-8"

charset_list_contains_utf8-joined_example :
    charset_list_contains_utf8 (1 ∷ 59 ∷ joined 59 latin (utf8 ∷ [])) ≡ some_utf8 latin (utf8 ∷ [])
unfolding joined
charset_list_contains_utf8-joined_example =
    charset_list_contains_utf8-joined 59 latin (utf8 ∷ []) (λ e. absurd (omega arith)) (omega arith)
      (λ e. absurd (omega arith)) (refl, (refl, (refl, (refl, (refl, tt)))))
      ((refl, (refl, (refl, (refl, (refl, tt))))), tt)

utf8_offered : charset_list_contains_utf8 (1 ∷ 59 ∷ codes "ASCII;utf-8") ≡ true
unfolding charset_list_contains_utf8 ascii_equal_ignore_case
utf8_offered = refl

-- A name refused at its third byte is mixed with the one before.
refused_name_mixed :
    c_string
      (copy_printable_ascii
        (terminal_text_max + 1)
        (65 ∷ 66 ∷ 7 ∷ [])
        (store_text unknown_terminal blank_text)).0
    ≡ codes "ABKNOWN"
unfolding copy_printable_ascii overwrite c_string
refused_name_mixed = refl

abbrev quiet : Peripherals
quiet = record { notify = λ s. s; send_mssp_status = λ s. s; handle_gmcp = λ s. s }

-- A variable with a byte to quote in its value, and one without a value.
abbrev reports : List Report
reports =
    record { token = 0; name = codes "CLIENT_NAME"; value = some (codes "Mudlet") }
    ∷ record { token = 3; name = codes "X"; value = some (1 ∷ 65 ∷ []) }
    ∷ record { token = 3; name = codes "SCREEN_READER"; value = none }
    ∷ []

reports-IsReport : All IsReport reports
reports-IsReport = (
  record { tokened = refl; name_fits = omega arith; value_fits = omega arith },
  (
    record { tokened = refl; name_fits = omega arith; value_fits = omega arith },
    (record { tokened = refl; name_fits = omega arith; value_fits = omega arith }, tt),
  ),
)

environ_payload-reports_example :
    environ_payload quiet (0 ∷ write_reports reports) fresh
    ≡ update_option_metadata quiet (apply_reports reports fresh)
environ_payload-reports_example =
    environ_payload-reports quiet 0 reports fresh refl reports-IsReport

-- ===== src/Audit.antt =====
-- src/audit_log.c: the text of an audit record.
pub mod Lines
use telnet_tls_server.Common.{
  ℕ, zero, suc, ◌-◌, leb, ◌==◌, if◌then◌else◌, Bool, not, ◌&&◌, List, [], ◌∷◌, ◌++◌, Option, none,
  some, Bytes, codes, length,
}

abbrev pub field_byte : ℕ → Bool
field_byte ch = leb 32 ch && (leb ch 126 && not (ch == b'|'))

-- The loop of `sanitize_field`, with the room that is left before the terminator.
unfoldable pub field_from : ℕ → Bytes → Bytes
field_from zero input = []
field_from (suc room) [] = []
field_from (suc room) (ch ∷ input) = (if field_byte ch then ch else b'_') ∷ field_from room input

unfoldable pub sanitize_field : Option Bytes → ℕ → Bytes
unfolding field_from
sanitize_field none output_size = field_from (output_size - 1) (codes "-")
sanitize_field (some input) output_size = field_from (output_size - 1) input

-- The text that `snprintf` is to write, without the newline.
abbrev pub record_body : Bytes → Bytes → Option Bytes → Option Bytes → Bytes
record_body timestamp event peer detail =
    timestamp
    ++ (codes " event="
        ++ (sanitize_field (some event) 64
            ++ (codes " peer="
                ++ (sanitize_field peer 96 ++ (codes " detail=" ++ sanitize_field detail 256)))))

-- The line that `audit_log_event` writes, `none` where it does not fit. The timestamp is the text of
-- the clock.
unfoldable pub event_line : Bytes → Bytes → Option Bytes → Option Bytes → Option Bytes
event_line timestamp event peer detail =
    let line = record_body timestamp event peer detail ++ 10 ∷ [] in
    if leb 512 (length line) then none else some line

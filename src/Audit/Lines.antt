-- ===== src/Audit/Lines.antt =====
-- An audit record is one line, whatever its fields hold.
use telnet_tls_server.Common.{
  ℕ, zero, suc, ◌+◌, ◌-◌, ◌≤◌, ◌<◌, ◌≡◌, refl, leb, if◌then◌else◌, Bool, true, false, ◌&&◌, [], ◌∷◌,
  ◌++◌, Option, none, some, Bytes, codes, length, length-append, All, All-append, arith,
}
use telnet_tls_server.Players.Names.{every}
use telnet_tls_server.Players.Names.Rules.{every-All}
use telnet_tls_server.Audit.{field_byte, field_from, sanitize_field, record_body, event_line}

-- Printable ASCII.
abbrev pub shown_byte : ℕ → Bool
shown_byte ch = leb 32 ch && leb ch 126

abbrev pub Shown : Bytes → Type 0
Shown = All (λ ch. shown_byte ch ≡ true)

kept_byte : (ch : ℕ) → shown_byte (if field_byte ch then ch else b'_') ≡ true
kept_byte ch = ground arith

field_from-Shown : (room : ℕ) (input : Bytes) → Shown (field_from room input)
unfolding field_from
field_from-Shown zero input = tt
field_from-Shown (suc room) [] = tt
field_from-Shown (suc room) (ch ∷ input) = (kept_byte ch, field_from-Shown room input)

field_from_fits : (room : ℕ) (input : Bytes) → length (field_from room input) ≤ room
unfolding field_from
field_from_fits zero input = omega arith
field_from_fits (suc room) [] = omega arith
field_from_fits (suc room) (ch ∷ input) = let rest = field_from_fits room input in omega arith

sanitize_field-Shown : (input : Option Bytes) (size : ℕ) → Shown (sanitize_field input size)
unfolding sanitize_field
sanitize_field-Shown none size = field_from-Shown (size - 1) (codes "-")
sanitize_field-Shown (some input) size = field_from-Shown (size - 1) input

sanitize_field_fits :
    (input : Option Bytes) (size : ℕ) → length (sanitize_field input size) ≤ size - 1
unfolding sanitize_field
sanitize_field_fits none size = field_from_fits (size - 1) (codes "-")
sanitize_field_fits (some input) size = field_from_fits (size - 1) input

label-Shown : (text : Bytes) → every shown_byte text ≡ true → Shown text
label-Shown text e = every-All shown_byte text e

-- A label and what follows.
and_label : (text rest : Bytes) → every shown_byte text ≡ true → Shown rest → Shown (text ++ rest)
and_label text rest e r = All-append (λ ch. shown_byte ch ≡ true) text rest (label-Shown text e) r

and_field : (field rest : Bytes) → Shown field → Shown rest → Shown (field ++ rest)
and_field field rest f r = All-append (λ ch. shown_byte ch ≡ true) field rest f r

record_body-Shown :
    (timestamp event : Bytes) (peer detail : Option Bytes)
    → Shown timestamp
    → Shown (record_body timestamp event peer detail)
unfolding every
record_body-Shown timestamp event peer detail t = and_field timestamp _ t (
    and_label (codes " event=") _ refl (
      and_field (sanitize_field (some event) 64) _ (sanitize_field-Shown (some event) 64) (
        and_label (codes " peer=") _ refl (
          and_field (sanitize_field peer 96) _ (sanitize_field-Shown peer 96)
            (and_label (codes " detail=") _ refl (sanitize_field-Shown detail 256))))))

record_body_fits :
    (timestamp event : Bytes) (peer detail : Option Bytes)
    → length timestamp < 32
    → length (record_body timestamp event peer detail) + 1 < 512
record_body_fits timestamp event peer detail t =
    let e = sanitize_field (some event) 64 in
    let p = sanitize_field peer 96 in
    let d = sanitize_field detail 256 in
    let last = codes " detail=" ++ d in
    let third = codes " peer=" ++ (p ++ last) in
    let e_fits = sanitize_field_fits (some event) 64 in
    let p_fits = sanitize_field_fits peer 96 in
    let d_fits = sanitize_field_fits detail 256 in
    let a = length-append timestamp (codes " event=" ++ (e ++ third)) in
    let b = length-append e third in let c = length-append p last in omega arith

fits_not : (n : ℕ) → n + 1 < 512 → leb 512 (n + 1) ≡ false
fits_not n h = ground arith

-- Whatever its fields hold, an audit record with a printable timestamp of at most 31 bytes is written, as
-- one line: printable bytes and a newline at the end.
pub event_line-Shown :
    (timestamp event : Bytes) (peer detail : Option Bytes)
    → length timestamp < 32
    → Shown timestamp
    → (event_line timestamp event peer detail
        ≡ some (record_body timestamp event peer detail ++ 10 ∷ []))
      × Shown (record_body timestamp event peer detail)
unfolding event_line
event_line-Shown timestamp event peer detail short t =
    let body = record_body timestamp event peer detail in
    (
      rw
          (
            length-append body (10 ∷ []),
            fits_not (length body) (record_body_fits timestamp event peer detail short),
          )
          refl,
      record_body-Shown timestamp event peer detail t,
    )

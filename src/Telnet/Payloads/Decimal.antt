-- ===== src/Telnet/Payloads/Decimal.antt =====
-- The numbers that the MTTS reports of src/telnet_protocol.c carry.
use telnet_tls_server.Common.{
  ℕ, ◌+◌, ◌-◌, ◌*◌, ◌/◌, ◌^◌, ◌≤◌, ◌<◌, ◌≡◌, refl, ltb, if◌then◌else◌, Bool, true, false, ◌&&◌, [],
  ◌∷◌, Option, none, some, Bytes, arith, Bool-cases, inl, inr,
}
use telnet_tls_server.Players.Names.{is_digit, every}
use telnet_tls_server.Telnet.Payloads.{decimal_from, parse_decimal_u32}

-- The number that decimal digits stand for, behind the digits of `parsed`.
unfoldable pub number : ℕ → Bytes → ℕ
number parsed [] = parsed
number parsed (b ∷ bs) = number (parsed * 10 + (b - b'0')) bs

-- One digit or more.
unfoldable pub is_number : Bytes → Bool
is_number [] = false
is_number (b ∷ bs) = every is_digit (b ∷ bs)

abbrev pub if_u32 : Bool → ℕ → Option ℕ
if_u32 digits value = if digits && ltb value (2 ^ 32) then some value else none

number_grows : (parsed : ℕ) (bs : Bytes) → parsed ≤ number parsed bs
unfolding number
number_grows parsed [] = omega arith
number_grows parsed (b ∷ bs) = let more = number_grows (parsed * 10 + (b - b'0')) bs in omega arith

-- The guard of the loop, read without a division.
guard_passes :
    (parsed b : ℕ)
    → is_digit b ≡ true
    → ltb ((2 ^ 32 - 1 - (b - b'0')) / 10) parsed ≡ false
    → parsed * 10 + (b - b'0') < 2 ^ 32
guard_passes parsed b d g = ground arith

guard_stops :
    (parsed b : ℕ)
    → is_digit b ≡ true
    → ltb ((2 ^ 32 - 1 - (b - b'0')) / 10) parsed ≡ true
    → 2 ^ 32 ≤ parsed * 10 + (b - b'0')
guard_stops parsed b d g = ground arith

too_large : (digits : Bool) (value : ℕ) → 2 ^ 32 ≤ value → none ≡ if_u32 digits value
too_large digits value h = ground arith

decimal_from-number :
    (parsed : ℕ) (bs : Bytes)
    → parsed < 2 ^ 32
    → decimal_from parsed bs ≡ if_u32 (every is_digit bs) (number parsed bs)
unfolding decimal_from number every
decimal_from-number parsed [] h = ground arith
decimal_from-number parsed (b ∷ bs) h = elim (Bool-cases (is_digit b)) [
  | inr f ↦ rw f refl
  | inl d ↦ elim (Bool-cases (ltb ((2 ^ 32 - 1 - (b - b'0')) / 10) parsed)) [
    | inl g ↦
        let stops = guard_stops parsed b d g in
        let grows = number_grows (parsed * 10 + (b - b'0')) bs in
        rw (d, g)
          (too_large (every is_digit bs) (number (parsed * 10 + (b - b'0')) bs) (omega arith))
    | inr g ↦
        rw (d, g) (decimal_from-number (parsed * 10 + (b - b'0')) bs (guard_passes parsed b d g))
  ]
]

-- `parse_decimal_u32` reads exactly the texts of one digit or more whose number is below 2^32, and
-- gives that number.
pub parse_decimal_u32-number :
    (bs : Bytes) → parse_decimal_u32 bs ≡ if_u32 (is_number bs) (number 0 bs)
unfolding parse_decimal_u32 is_number
parse_decimal_u32-number [] = refl
parse_decimal_u32-number (b ∷ bs) = decimal_from-number 0 (b ∷ bs) (omega arith)

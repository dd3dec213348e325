-- ===== src/Telnet/Payloads/Charset/Offers.antt =====
-- The offers of character sets that src/telnet_protocol.c reads.
use telnet_tls_server.Common.{
  ℕ, ◌≡◌, ◌≢◌, ◌≤◌, refl, sym, ap, ◌∙◌, leb, ◌==◌, if◌then◌else◌, Bool, true, not, ◌&&◌, List, [],
  ◌∷◌, ◌++◌, append_assoc, append-nil, Bytes, length, All, arith,
}
use telnet_tls_server.Telnet.Payloads.Charset.{names_utf8, offer_from, charset_list_contains_utf8}

-- A byte of an item: printable, and not the separator.
abbrev pub item_byte : ℕ → ℕ → Bool
item_byte separator b = not (b == separator) && (leb 32 b && leb b 126)

abbrev pub IsItem : ℕ → Bytes → Type 0
IsItem separator item = All (λ b. item_byte separator b ≡ true) item

-- The items with separators between them.
unfoldable pub joined : ℕ → Bytes → List Bytes → Bytes
joined separator first [] = first
joined separator first (next ∷ others) = first ++ (separator ∷ joined separator next others)

unfoldable pub some_utf8 : Bytes → List Bytes → Bool
some_utf8 first [] = names_utf8 first
some_utf8 first (next ∷ others) = if names_utf8 first then true else some_utf8 next others

offer_from-byte :
    (separator b : ℕ) (item rest : Bytes)
    → item_byte separator b ≡ true
    → offer_from separator item (b ∷ rest) ≡ offer_from separator (item ++ b ∷ []) rest
unfolding offer_from
offer_from-byte separator b item rest h = ground arith

offer_from-append :
    (separator : ℕ) (item text rest : Bytes)
    → IsItem separator text
    → offer_from separator item (text ++ rest) ≡ offer_from separator (item ++ text) rest
offer_from-append separator item [] rest a =
    ap (λ t. offer_from separator t rest) (sym (append-nil item))
offer_from-append separator item (b ∷ bs) rest (h, a) =
    offer_from-byte separator b item (bs ++ rest) h
    ∙ offer_from-append separator (item ++ b ∷ []) bs rest a
    ∙ ap (λ t. offer_from separator t rest) (append_assoc item (b ∷ []) bs)

offer_from-separator :
    (separator : ℕ) (item rest : Bytes)
    → offer_from separator item (separator ∷ rest)
      ≡ (if names_utf8 item then true else offer_from separator [] rest)
unfolding offer_from
offer_from-separator separator item rest = ground arith

offer_from-end :
    (separator : ℕ) (item : Bytes)
    → IsItem separator item
    → offer_from separator [] item ≡ names_utf8 item
unfolding offer_from
offer_from-end separator item a =
    ap (offer_from separator []) (sym (append-nil item)) ∙ offer_from-append separator [] item [] a

offer_from-joined :
    (separator : ℕ) (first : Bytes) (others : List Bytes)
    → IsItem separator first
    → All (IsItem separator) others
    → offer_from separator [] (joined separator first others) ≡ some_utf8 first others
unfolding joined some_utf8
offer_from-joined separator first [] f a = offer_from-end separator first f
offer_from-joined separator first (next ∷ others) f (n, a) =
    offer_from-append separator [] first (separator ∷ joined separator next others) f
    ∙ offer_from-separator separator first (joined separator next others)
    ∙ ap (λ later. if names_utf8 first then true else later)
        (offer_from-joined separator next others n a)

contains-read :
    (separator : ℕ) (offer : Bytes)
    → separator ≢ 255
    → 32 ≤ separator
    → length offer ≢ 0
    → charset_list_contains_utf8 (1 ∷ separator ∷ offer) ≡ offer_from separator [] offer
unfolding charset_list_contains_utf8
contains-read separator [] s l n = absurd (n refl)
contains-read separator (b ∷ bs) s l n = ground arith

-- The offer of any character sets, in printable names without the separator, is read as holding
-- UTF-8 exactly if one of the names is UTF-8, the case of its letters aside, provided the separator is
-- not a control byte or IAC and the offer is not empty.
pub charset_list_contains_utf8-joined :
    (separator : ℕ) (first : Bytes) (others : List Bytes)
    → separator ≢ 255
    → 32 ≤ separator
    → length (joined separator first others) ≢ 0
    → IsItem separator first
    → All (IsItem separator) others
    → charset_list_contains_utf8 (1 ∷ separator ∷ joined separator first others)
      ≡ some_utf8 first others
charset_list_contains_utf8-joined separator first others s l n f a =
    contains-read separator (joined separator first others) s l n
    ∙ offer_from-joined separator first others f a

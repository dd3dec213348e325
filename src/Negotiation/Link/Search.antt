-- ===== src/Negotiation/Link/Search.antt =====
-- Links compared by a Boolean test, and lists of links searched with it.
use telnet_tls_server.Common.{
  ℕ, ◌≡◌, ◌==◌, same, same→eq, Bool, true, false, ◌&&◌, ◌||◌, List, [], ◌∷◌, inl, inr, arith,
  Bool-cases,
}
use telnet_tls_server.Negotiation.{QState, q_no, q_yes, q_wantno, q_wantyes, Side}
use telnet_tls_server.Negotiation.Link.{Link}

-- Boolean comparison of links.
state_code : QState → ℕ
state_code q_no = 0
state_code q_yes = 1
state_code q_wantno = 2
state_code q_wantyes = 3

same_flag : Bool → Bool → Bool
same_flag true b = b
same_flag false true = false
same_flag false false = true

same_side : Side → Side → Bool
unfolding state_code same_flag
same_side a b =
    (state_code a.state == state_code b.state) && same_flag a.queued_opposite b.queued_opposite

same_link : Link → Link → Bool
unfolding same_side same
same_link l m =
    (same_side l.near m.near && same_side l.far m.far)
    && (same l.to_far m.to_far && same l.to_near m.to_near)

state_code-injective : (a b : QState) → state_code a ≡ state_code b → a ≡ b
unfolding state_code
state_code-injective q_no b h = ground arith
state_code-injective q_yes b h = ground arith
state_code-injective q_wantno b h = ground arith
state_code-injective q_wantyes b h = ground arith

same_flag→eq : (a b : Bool) → same_flag a b ≡ true → a ≡ b
unfolding same_flag
same_flag→eq true b h = ground arith
same_flag→eq false b h = ground arith

same_side→eq : (a b : Side) → same_side a b ≡ true → a ≡ b
unfolding same_side
same_side→eq a b h =
    ground (
      arith,
      state_code-injective a.state b.state,
      same_flag→eq a.queued_opposite b.queued_opposite,
    )

same_link→eq : (l m : Link) → same_link l m ≡ true → l ≡ m
unfolding same_link
same_link→eq l m h = ground (
  arith,
  same_side→eq l.near m.near,
  same_side→eq l.far m.far,
  same→eq l.to_far m.to_far,
  same→eq l.to_near m.to_near,
)

unfoldable pub contains : Link → List Link → Bool
unfolding same_link
contains l [] = false
contains l (x ∷ xs) = same_link l x || contains l xs

unfoldable pub all_of : (Link → Bool) → List Link → Bool
all_of p [] = true
all_of p (x ∷ xs) = p x && all_of p xs

pub all_of_sound :
    (p : Link → Bool) (l : Link) (xs : List Link)
    → all_of p xs ≡ true
    → contains l xs ≡ true
    → p l ≡ true
unfolding all_of contains
all_of_sound p l [] a c = cc
all_of_sound p l (x ∷ xs) a c = elim (Bool-cases (same_link l x)) [
  | inl hit ↦ subst_eq (same_link→eq l x hit)
  | inr miss ↦ ground (arith, all_of_sound p l xs)
]
  where
    subst_eq : l ≡ x → p l ≡ true
    subst_eq e = rw e (ground arith)

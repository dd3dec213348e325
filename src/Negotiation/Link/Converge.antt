-- ===== src/Negotiation/Link/Converge.antt =====
-- Negotiation over a link ends, and both ends then agree. The link has finitely many reachable
-- states: they are collected by a search, which is checked to be closed under every step.
use telnet_tls_server.Common.{
  ℕ, zero, suc, ◌≤◌, ◌≡◌, refl, Bool, true, false, ◌&&◌, ◌||◌, List, [], ◌∷◌, ◌++◌, ◌⊎◌, inl, inr,
  arith,
}
use telnet_tls_server.Negotiation.{
  QState, q_no, q_yes, q_wantno, q_wantyes, request_side, receive_side,
}
use telnet_tls_server.Negotiation.Link.{
  Link, start, near_request, far_request, near_receive, far_receive, Delivers, near_reads,
  far_reads, Reach, here, near_asks, far_asks, delivery, Drain, stop, more,
}
use telnet_tls_server.Negotiation.Link.Search.{contains, all_of, all_of_sound}

near_deliveries : List ℕ → Link → List Link
unfolding near_receive
near_deliveries [] l = []
near_deliveries (c ∷ rest) l = near_receive true c rest l ∷ near_receive false c rest l ∷ []

far_deliveries : List ℕ → Link → List Link
unfolding far_receive
far_deliveries [] l = []
far_deliveries (c ∷ rest) l = far_receive true c rest l ∷ far_receive false c rest l ∷ []

requests : Link → List Link
unfolding near_request far_request
requests l =
    near_request true l ∷ near_request false l ∷ far_request true l ∷ far_request false l ∷ []

deliveries : Link → List Link
unfolding near_deliveries far_deliveries
deliveries l = near_deliveries l.to_near l ++ far_deliveries l.to_far l

successors : Link → List Link
unfolding requests deliveries
successors l = requests l ++ deliveries l

-- Depth-first search: the work list first, then the links seen.
explore : ℕ → List Link → List Link → List Link
unfolding successors contains
explore zero work seen = seen
explore (suc n) [] seen = seen
explore (suc n) (l ∷ work) seen = elim (contains l seen) [
  | true ↦ explore n work seen
  | false ↦ explore n (successors l ++ work) (l ∷ seen)
]

table : List Link
unfolding explore
table = explore 500 (start ∷ []) []

closed_at : Link → Bool
closed_at l = all_of (λ m. contains m table) (successors l)

table_closed : all_of closed_at table ≡ true
unfolding table closed_at all_of request_side receive_side
table_closed = refl

start_listed : contains start table ≡ true
unfolding table contains request_side receive_side
start_listed = refl

-- At most `n` deliveries can follow.
drains : ℕ → Link → Bool
unfolding deliveries all_of
drains zero l = all_of (λ _. false) (deliveries l)
drains (suc n) l = all_of (drains n) (deliveries l)

-- Nothing in flight, and both ends have the option on, or both off.
is_on : QState → Bool
is_on q_yes = true
is_on q_no = false
is_on q_wantno = false
is_on q_wantyes = false

is_off : QState → Bool
is_off q_no = true
is_off q_yes = false
is_off q_wantno = false
is_off q_wantyes = false

agrees_at : QState → QState → Bool
unfolding is_on is_off
agrees_at a b = (is_on a && is_on b) || (is_off a && is_off b)

settled : Link → Bool
settled l = elim l.to_far [
  | [] ↦ elim l.to_near [ [] ↦ agrees_at l.near.state l.far.state | _ ∷ _ ↦ true ]
  | _ ∷ _ ↦ true
]

table-drains : all_of (drains 5) table ≡ true
unfolding table drains all_of request_side receive_side
table-drains = refl

table-settled : all_of settled table ≡ true
unfolding table settled agrees_at all_of request_side receive_side
table-settled = refl

all_of-append :
    (p : Link → Bool) (xs ys : List Link)
    → all_of p (xs ++ ys) ≡ true
    → (all_of p xs ≡ true) × (all_of p ys ≡ true)
unfolding all_of
all_of-append p [] ys h = (refl, h)
all_of-append p (x ∷ xs) ys h = ground (arith, all_of-append p xs ys)

module _ (p : Link → Bool) (l : Link) (c : ℕ) (rest : List ℕ) where
  near_deliveries_all :
      (xs : List ℕ) (allow : Bool)
      → all_of p (near_deliveries xs l) ≡ true
      → xs ≡ c ∷ rest
      → p (near_receive allow c rest l) ≡ true
  unfolding near_deliveries all_of
  near_deliveries_all [] allow h e = cc
  near_deliveries_all (x ∷ xs) true h e = ground arith
  near_deliveries_all (x ∷ xs) false h e = ground arith

  far_deliveries_all :
      (xs : List ℕ) (allow : Bool)
      → all_of p (far_deliveries xs l) ≡ true
      → xs ≡ c ∷ rest
      → p (far_receive allow c rest l) ≡ true
  unfolding far_deliveries all_of
  far_deliveries_all [] allow h e = cc
  far_deliveries_all (x ∷ xs) true h e = ground arith
  far_deliveries_all (x ∷ xs) false h e = ground arith

-- What holds of every delivery's result holds of the one made.
Delivers-all :
    (p : Link → Bool) {l m : Link} → all_of p (deliveries l) ≡ true → Delivers l m → p m ≡ true
unfolding deliveries
Delivers-all p {l} h (near_reads allow c rest e) =
    near_deliveries_all p l c rest l.to_near allow
      (all_of-append p (near_deliveries l.to_near l) (far_deliveries l.to_far l) h).0 e
Delivers-all p {l} h (far_reads allow c rest e) =
    far_deliveries_all p l c rest l.to_far allow
      (all_of-append p (near_deliveries l.to_near l) (far_deliveries l.to_far l) h).1 e

abbrev Listed : Link → Type 0
Listed l = contains l table ≡ true

successors-Listed : (l : Link) → Listed l → all_of (λ m. contains m table) (successors l) ≡ true
unfolding closed_at
successors-Listed l = all_of_sound closed_at l table table_closed

Reach-Listed : {l : Link} → Reach l → Listed l
unfolding successors all_of requests deliveries
Reach-Listed here = start_listed
Reach-Listed (near_asks {l} true r) = ground (arith, successors-Listed l (Reach-Listed r))
Reach-Listed (near_asks {l} false r) = ground (arith, successors-Listed l (Reach-Listed r))
Reach-Listed (far_asks {l} true r) = ground (arith, successors-Listed l (Reach-Listed r))
Reach-Listed (far_asks {l} false r) = ground (arith, successors-Listed l (Reach-Listed r))
Reach-Listed (delivery {l} r d) =
    Delivers-all (λ m. contains m table)
      (all_of-append (λ m. contains m table) (requests l) (deliveries l)
        (successors-Listed l (Reach-Listed r))).1
      d

drains_bound : (n : ℕ) {k : ℕ} {l m : Link} → drains n l ≡ true → Drain l k m → k ≤ n
unfolding drains
drains_bound n h stop = omega arith
drains_bound zero h (more d rest) = cc (Delivers-all (λ _. false) h d)
drains_bound (suc n) h (more d rest) =
    omega (arith, drains_bound n (Delivers-all (drains n) h d) rest)

-- From every reachable state of a link, at most five deliveries can follow one another with no
-- new request made: the two ends never answer each other for ever.
pub Drain-bound : {k : ℕ} {l m : Link} → Reach l → Drain l k m → k ≤ 5
Drain-bound {l} r d =
    drains_bound 5 (all_of_sound (drains 5) l table table-drains (Reach-Listed r)) d

abbrev pub Agrees : Link → Type 0
Agrees l =
    ((l.near.state ≡ q_yes) × (l.far.state ≡ q_yes))
    ⊎ ((l.near.state ≡ q_no) × (l.far.state ≡ q_no))

settled-Agrees : (l : Link) → settled l ≡ true → l.to_far ≡ [] → l.to_near ≡ [] → Agrees l
unfolding settled agrees_at
settled-Agrees l h f n = agrees l.near.state l.far.state (ground arith)
  where
    agrees :
        (a b : QState)
        → agrees_at a b ≡ true
        → ((a ≡ q_yes) × (b ≡ q_yes)) ⊎ ((a ≡ q_no) × (b ≡ q_no))
    agrees q_yes q_yes g = inl (refl, refl)
    agrees q_no q_no g = inr (refl, refl)
    agrees _ _ g = cc

-- Whatever the two ends requested and however they answered, in every reachable state with
-- nothing in flight either both ends have the option on, or both have it off; neither waits.
pub Reach-Agrees : {l : Link} → Reach l → l.to_far ≡ [] → l.to_near ≡ [] → Agrees l
Reach-Agrees {l} r f n =
    settled-Agrees l (all_of_sound settled l table table-settled (Reach-Listed r)) f n

-- ===== src/Negotiation/Slots.antt =====
-- What one operation of src/telnet_negotiation.c does to every slot, and what it sends.
use telnet_tls_server.Common.{
  ℕ, ◌≡◌, refl, ◌==◌, if◌then◌else◌, Bool, true, false, not, ◌&&◌, ◌||◌, List, [], ◌∷◌, arith,
  Option, none, some,
}
use telnet_tls_server.Negotiation.{
  Direction, local, remote, QState, q_no, q_yes, q_wantno, q_wantyes, Side, TelnetQ, select_side,
  store_side, enable_command, disable_command, request_side, receive_side, receive_positive,
  receive_negative, telnet_q_request, telnet_q_receive, classify, apply_reply, allowed,
  receive_class,
}

pub same_direction : Direction → Direction → Bool
same_direction local local = true
same_direction remote remote = true
same_direction local remote = false
same_direction remote local = false

-- The two indices name one slot.
abbrev pub same_slot : Direction → ℕ → Direction → ℕ → Bool
same_slot d option e other = same_direction d e && (other == option)

select-store :
    (q : TelnetQ) (d e : Direction) (option other : ℕ) (s : Side)
    → select_side (store_side q d option s) e other
      ≡ (if same_slot d option e other then s else select_side q e other)
unfolding select_side store_side same_direction
select-store q local local option other s = refl
select-store q local remote option other s = refl
select-store q remote local option other s = refl
select-store q remote remote option other s = refl

-- A request for one option of one direction changes that slot alone, in the way of `request_side`.
request_slots :
    (q : TelnetQ) (d e : Direction) (option other : ℕ) (enable : Bool)
    → select_side (telnet_q_request q d option enable).0 e other ≡ (
        if same_slot d option e other
        then (request_side d enable (select_side q d option)).0
        else select_side q e other)
unfolding telnet_q_request apply_reply
request_slots q d e option other enable = select-store q d e option other _

-- The slot (e, other) after a command of the class `r` for `option`.
abbrev pub slot_after :
    TelnetQ → ℕ → Option (Direction → ℕ → Bool) → Direction → ℕ → Option (Direction × Bool) → Side
slot_after q option accept_fn e other none = select_side q e other
slot_after q option accept_fn e other (some (d, positive)) =
    if same_slot d option e other
    then (receive_side d positive (allowed accept_fn d option) (select_side q d option)).0
    else select_side q e other

receive_class-slots :
    (q : TelnetQ) (option : ℕ) (accept_fn : Option (Direction → ℕ → Bool)) (e : Direction)
    (other : ℕ) (r : Option (Direction × Bool))
    → select_side (receive_class q option accept_fn r).0 e other
      ≡ slot_after q option accept_fn e other r
unfolding receive_class
receive_class-slots q option accept_fn e other none = refl
receive_class-slots q option accept_fn e other (some (d, positive)) =
    select-store q d e option other _

-- A received command changes only the slot of its direction and its option; WILL and WONT are
-- about the remote side, DO and DONT about the local side, and any other byte changes nothing.
receive_slots :
    (q : TelnetQ) (command option : ℕ) (accept_fn : Option (Direction → ℕ → Bool)) (e : Direction)
    (other : ℕ)
    → select_side (telnet_q_receive q command option accept_fn).0 e other
      ≡ slot_after q option accept_fn e other (
          if command == 251
          then some (remote, true)
          else if command == 252
          then some (remote, false)
          else if command == 253
          then some (local, true)
          else if command == 254
          then some (local, false)
          else none)
unfolding telnet_q_receive
receive_slots q command option accept_fn e other =
    receive_class-slots q option accept_fn e other (classify command)

-- What this end finally wants of the option, once the negotiation under way is over.
pub goal : QState → Bool → Bool
goal q_no queued = false
goal q_yes queued = true
goal q_wantno queued = queued
goal q_wantyes queued = not queued

pub pending : QState → Bool
pending q_no = false
pending q_yes = false
pending q_wantno = true
pending q_wantyes = true

abbrev pub verb : Direction → Bool → ℕ
verb d enable = if enable then enable_command d else disable_command d

pub same_bool : Bool → Bool → Bool
same_bool true b = b
same_bool false b = not b

-- A request makes the wish the goal, in every state. It sends its verb only when no negotiation
-- is under way and the goal changes; otherwise it sends nothing.
pub request_goal :
    (d : Direction) (enable : Bool) (s : Side)
    → (goal (request_side d enable s).0.state (request_side d enable s).0.queued_opposite ≡ enable)
      × ((request_side d enable s).1 ≡ (
          if pending s.state || same_bool (goal s.state s.queued_opposite) enable
          then []
          else verb d enable ∷ []))
unfolding request_side goal pending same_bool
request_goal d true s = ground arith
request_goal d false s = ground arith

-- The state that an outstanding request asks for.
pub requested : QState → Bool
requested q_wantyes = true
requested q_wantno = false
requested q_no = false
requested q_yes = false

abbrev pub goal_of : Side → Bool
goal_of s = goal s.state s.queued_opposite

-- The commands that answer a received one, by the aims of RFC 1143. While a request is out, only
-- its being granted against a changed wish is answered, with the verb for that wish. Otherwise
-- only a change is answered, by agreement to it or by refusal.
abbrev pub answer : Direction → Bool → Bool → Side → List ℕ
answer d positive allow s =
    if pending s.state
    then (if s.queued_opposite && same_bool (requested s.state) positive
        then verb d (goal_of s) ∷ []
        else [])
    else if same_bool (goal_of s) positive
    then []
    else verb d (positive && allow) ∷ []

-- For a received command in every state: the commands sent are those of `answer`, and the goal
-- stays, but that a refusal of a requested enable drops it, and with no request out it becomes
-- what the peer states, an offer of an option that is off counting only if it is accepted.
pub receive_goal :
    (d : Direction) (positive allow : Bool) (s : Side)
    → ((receive_side d positive allow s).1 ≡ answer d positive allow s)
      × (goal_of (receive_side d positive allow s).0 ≡ (
          if pending s.state
          then goal_of s && not (requested s.state && not positive)
          else positive && (goal_of s || allow)))
unfolding receive_side receive_positive receive_negative pending goal requested same_bool
receive_goal d true true s = (ground arith, ground arith)
receive_goal d true false s = (ground arith, ground arith)
receive_goal d false allow s = (ground arith, ground arith)

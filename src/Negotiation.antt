-- ===== src/Negotiation.antt =====
-- src/telnet_negotiation.c and the option types of src/telnet_internal.h: the RFC 1143 state of
-- every Telnet option in both directions. A message is a pair (command, option) given to the
-- `send_fn` callback; an operation returns the messages in the order of the calls.
pub mod Link
pub mod Slots
use telnet_tls_server.Common.{
  ℕ, ◌==◌, if◌then◌else◌, Bool, true, false, List, [], ◌∷◌, Option, none, some,
}

-- enum telnet_command_code, the negotiation verbs
abbrev pub will : ℕ
will = 251

abbrev pub wont : ℕ
wont = 252

abbrev pub do_cmd : ℕ
do_cmd = 253

abbrev pub dont : ℕ
dont = 254

pub data Direction : Type 0 where
  local remote : Direction

pub data QState : Type 0 where
  q_no q_yes q_wantno q_wantyes : QState

pub record Side : Type 0 where
  pub state : QState
  pub queued_opposite : Bool

-- The two arrays of 256 sides, indexed by the option byte.
pub record TelnetQ : Type 0 where
  pub local_sides : ℕ → Side
  pub remote_sides : ℕ → Side

abbrev pub Message : Type 0
Message = ℕ × ℕ

unfoldable pub select_side : TelnetQ → Direction → ℕ → Side
select_side q local option = q.local_sides option
select_side q remote option = q.remote_sides option

-- Writing through the pointer that `select_side` returns.
update_at : (ℕ → Side) → ℕ → Side → ℕ → Side
update_at sides option s k = if k == option then s else sides k

unfoldable pub store_side : TelnetQ → Direction → ℕ → Side → TelnetQ
unfolding update_at
store_side q local option s = record q { local_sides = update_at q.local_sides option s }
store_side q remote option s = record q { remote_sides = update_at q.remote_sides option s }

pub enable_command : Direction → ℕ
enable_command local = will
enable_command remote = do_cmd

pub disable_command : Direction → ℕ
disable_command local = wont
disable_command remote = dont

abbrev pub idle_side : Side
idle_side = record { state = q_no; queued_opposite = false }

pub telnet_q_init : TelnetQ
telnet_q_init = record { local_sides = λ _. idle_side; remote_sides = λ _. idle_side }

is_yes : QState → Bool
is_yes q_yes = true
is_yes q_no = false
is_yes q_wantno = false
is_yes q_wantyes = false

unfoldable pub telnet_q_enabled : TelnetQ → Direction → ℕ → Bool
unfolding is_yes select_side
telnet_q_enabled q d option = is_yes (select_side q d option).state

-- One side's new state with the commands sent for it.
abbrev pub Reply : Type 0
Reply = Side × List ℕ

abbrev quiet : QState → Bool → Reply
quiet s b = (record { state = s; queued_opposite = b }, [])

abbrev sending : QState → Bool → ℕ → Reply
sending s b c = (record { state = s; queued_opposite = b }, c ∷ [])

-- The switch of `telnet_q_request` for `enable`; the flag is `queued_opposite`.
request_enable : QState → Bool → Direction → Reply
unfolding enable_command
request_enable q_no b d = sending q_wantyes false (enable_command d)
request_enable q_yes b d = quiet q_yes b
request_enable q_wantno b d = quiet q_wantno true
request_enable q_wantyes b d = quiet q_wantyes false

-- The switch of `telnet_q_request` for a disable request.
request_disable : QState → Bool → Direction → Reply
unfolding disable_command
request_disable q_no b d = quiet q_no b
request_disable q_yes b d = sending q_wantno false (disable_command d)
request_disable q_wantno b d = quiet q_wantno false
request_disable q_wantyes b d = quiet q_wantyes true

unfoldable pub request_side : Direction → Bool → Side → Reply
unfolding request_enable request_disable
request_side d true s = request_enable s.state s.queued_opposite d
request_side d false s = request_disable s.state s.queued_opposite d

positive_at : QState → Bool → Direction → Bool → Reply
unfolding enable_command disable_command
positive_at q_no b d true = sending q_yes false (enable_command d)
positive_at q_no b d false = sending q_no b (disable_command d)
positive_at q_yes b d allow = quiet q_yes b
positive_at q_wantno false d allow = quiet q_no false
positive_at q_wantno true d allow = quiet q_yes false
positive_at q_wantyes false d allow = quiet q_yes false
positive_at q_wantyes true d allow = sending q_wantno false (disable_command d)

unfoldable pub receive_positive : Direction → Bool → Side → Reply
unfolding positive_at
receive_positive d allow s = positive_at s.state s.queued_opposite d allow

negative_at : QState → Bool → Direction → Reply
unfolding enable_command disable_command
negative_at q_no b d = quiet q_no b
negative_at q_yes b d = sending q_no false (disable_command d)
negative_at q_wantno false d = quiet q_no false
negative_at q_wantno true d = sending q_wantyes false (enable_command d)
negative_at q_wantyes b d = quiet q_no false

unfoldable pub receive_negative : Direction → Side → Reply
unfolding negative_at
receive_negative d s = negative_at s.state s.queued_opposite d

address : ℕ → List ℕ → List Message
address option [] = []
address option (c ∷ cs) = (c, option) ∷ address option cs

-- Stores one side's reply and addresses its commands to the option.
unfoldable pub apply_reply : TelnetQ → Direction → ℕ → Reply → TelnetQ × List Message
unfolding address store_side
apply_reply q d option (s, sent) = (store_side q d option s, address option sent)

unfoldable pub telnet_q_request : TelnetQ → Direction → ℕ → Bool → TelnetQ × List Message
unfolding apply_reply request_side select_side
telnet_q_request q d option enable =
    apply_reply q d option (request_side d enable (select_side q d option))

-- The direction and the sign that a received command stands for; `none` is the default case.
pub classify : ℕ → Option (Direction × Bool)
classify command =
    if command == will
    then some (remote, true)
    else if command == wont
    then some (remote, false)
    else if command == do_cmd
    then some (local, true)
    else if command == dont
    then some (local, false)
    else none

-- `accept_fn`, which may be NULL.
pub allowed : Option (Direction → ℕ → Bool) → Direction → ℕ → Bool
allowed none d option = false
allowed (some accept_fn) d option = accept_fn d option

unfoldable pub receive_side : Direction → Bool → Bool → Side → Reply
unfolding receive_positive receive_negative
receive_side d true allow s = receive_positive d allow s
receive_side d false allow s = receive_negative d s

-- The part of `telnet_q_receive` behind its switch.
receive_class :
    TelnetQ → ℕ → Option (Direction → ℕ → Bool) → Option (Direction × Bool) → TelnetQ × List Message
unfolding apply_reply receive_side select_side allowed
receive_class q option accept_fn none = (q, [])
receive_class q option accept_fn (some (d, positive)) =
    apply_reply q d option
      (receive_side d positive (allowed accept_fn d option) (select_side q d option))

unfoldable pub telnet_q_receive :
    TelnetQ → ℕ → ℕ → Option (Direction → ℕ → Bool) → TelnetQ × List Message
unfolding receive_class classify
telnet_q_receive q command option accept_fn = receive_class q option accept_fn (classify command)

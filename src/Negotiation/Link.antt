-- ===== src/Negotiation/Link.antt =====
-- Two ends of one option that both run src/telnet_negotiation.c: the near end's local side faces
-- the far end's remote side, over one ordered channel each way. Each end may make a request at
-- any moment, and accepts or refuses an offer as it likes.
mod Search
pub mod Converge
use telnet_tls_server.Common.{ℕ, zero, suc, ◌≡◌, ◌==◌, Bool, List, [], ◌∷◌, ◌++◌}
use telnet_tls_server.Negotiation.{
  local, remote, Side, Reply, idle_side, will, do_cmd, request_side, receive_side,
}

pub record Link : Type 0 where
  pub near : Side
  pub far : Side
  pub to_far : List ℕ
  pub to_near : List ℕ

abbrev pub start : Link
start = record { near = idle_side; far = idle_side; to_far = []; to_near = [] }

abbrev near_replies : Link → List ℕ → Reply → Link
near_replies l rest (s, sent) = record l { near = s; to_far = l.to_far ++ sent; to_near = rest }

abbrev far_replies : Link → List ℕ → Reply → Link
far_replies l rest (s, sent) = record l { far = s; to_far = rest; to_near = l.to_near ++ sent }

unfoldable pub near_request : Bool → Link → Link
near_request enable l = near_replies l l.to_near (request_side local enable l.near)

unfoldable pub far_request : Bool → Link → Link
far_request enable l = far_replies l l.to_far (request_side remote enable l.far)

-- The near end reads a command off its channel: DO is positive, DONT negative.
unfoldable pub near_receive : Bool → ℕ → List ℕ → Link → Link
near_receive allow c rest l = near_replies l rest (receive_side local (c == do_cmd) allow l.near)

-- The far end reads WILL or WONT.
unfoldable pub far_receive : Bool → ℕ → List ℕ → Link → Link
far_receive allow c rest l = far_replies l rest (receive_side remote (c == will) allow l.far)

pub data Delivers (l : Link) : Link → Type 0 where
  near_reads :
      (allow : Bool) (c : ℕ) (rest : List ℕ)
      → l.to_near ≡ c ∷ rest
      → Delivers l (near_receive allow c rest l)
  far_reads :
      (allow : Bool) (c : ℕ) (rest : List ℕ)
      → l.to_far ≡ c ∷ rest
      → Delivers l (far_receive allow c rest l)

pub data Reach : Link → Type 0 where
  here : Reach start
  near_asks : {l : Link} (enable : Bool) → Reach l → Reach (near_request enable l)
  far_asks : {l : Link} (enable : Bool) → Reach l → Reach (far_request enable l)
  delivery : {l m : Link} → Reach l → Delivers l m → Reach m

-- A run of deliveries alone, with its length.
pub data Drain : Link → ℕ → Link → Type 0 where
  stop : {l : Link} → Drain l zero l
  more : {l : Link} {k : ℕ} {m n : Link} → Delivers l m → Drain m k n → Drain l (suc k) n

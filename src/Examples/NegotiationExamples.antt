-- ===== src/Examples/NegotiationExamples.antt =====
-- Option negotiation between two ends, and single slots, at concrete states.
use telnet_tls_server.Common.{◌≤◌, ◌≡◌, refl, if◌then◌else◌, true, not, ◌&&◌, ◌||◌, [], ◌∷◌}
use telnet_tls_server.Negotiation.{local, remote, q_wantyes, Side, request_side, receive_side}
use telnet_tls_server.Negotiation.Link.{
  Link, start, near_request, far_receive, near_receive, Delivers, here, near_asks, delivery, stop,
  more, near_reads, far_reads,
}
use telnet_tls_server.Negotiation.Link.Converge.{Drain-bound, Reach-Agrees, Agrees}
use telnet_tls_server.Negotiation.Slots.{
  goal, pending, verb, request_goal, receive_goal, goal_of, answer, requested, same_bool,
}

-- The server offers an option; the client accepts it.
abbrev offered : Link
offered = near_request true start

abbrev accepted : Link
accepted = far_receive true 251 [] offered

abbrev confirmed : Link
confirmed = near_receive true 253 [] accepted

offer-Delivers : Delivers offered accepted
unfolding near_request request_side
offer-Delivers = far_reads true 251 [] refl

confirm-Delivers : Delivers accepted confirmed
unfolding near_request far_receive request_side receive_side
confirm-Delivers = near_reads true 253 [] refl

Drain-bound_example : 2 ≤ 5
Drain-bound_example =
    Drain-bound (near_asks true here) (more offer-Delivers (more confirm-Delivers stop))

Reach-Agrees_example : Agrees confirmed
unfolding near_request far_receive near_receive request_side receive_side
Reach-Agrees_example =
    Reach-Agrees (delivery (delivery (near_asks true here) offer-Delivers) confirm-Delivers) refl
      refl

abbrev waiting : Side
waiting = record { state = q_wantyes; queued_opposite = true }

request_goal_example :
    (goal
        (request_side local true waiting).0.state
        (request_side local true waiting).0.queued_opposite
      ≡ true)
    × ((request_side local true waiting).1 ≡ (
        if pending waiting.state || same_bool (goal waiting.state waiting.queued_opposite) true
        then []
        else verb local true ∷ []))
request_goal_example = request_goal local true waiting

receive_goal_example :
    ((receive_side remote true true waiting).1 ≡ answer remote true true waiting)
    × (goal_of (receive_side remote true true waiting).0 ≡ (
        if pending waiting.state
        then goal_of waiting && not (requested waiting.state && not true)
        else true && (goal_of waiting || true)))
receive_goal_example = receive_goal remote true true waiting

-- ===== src/Consumers/PaymentResultEvent.antt =====
-- cmd/consumers/handlers/payment_result_event.go. The handler's bus is the service's, so both
-- publish to the service's world outside; each number is a reading of the clock.
use challenge_senior.Prelude.{ℕ}
use challenge_senior.Kit.Action.{err, Action, modify, ◌>>=◌, ◌>>◌}
use challenge_senior.Events.{
  Event, payment_charge_succeeded, payment_charge_failed, wallet_refund_requested,
}
use challenge_senior.Payment.{Payment, Parts, State, mark_succeeded, mark_failed, get}
use challenge_senior.Consumers.{unexpected}

abbrev pub refund_request : Payment → ℕ → Event
refund_request p now =
    wallet_refund_requested
      (record { payment_id = p.id; user_id = p.user_id; amount = p.amount; at = now })

module _ {S T : Type 0} (parts : Parts S T) (publish : Event → T → T) where
  abbrev pub send : Event → Action (State S T) (Unit {0})
  send evt = modify (λ s. record s { outside = publish evt s.outside })

  unfoldable pub handle_charge_succeeded : ℕ → Event → Action (State S T) (Unit {0})
  handle_charge_succeeded now (payment_charge_succeeded e) =
      mark_succeeded parts now e.payment_id e.gateway_id
  handle_charge_succeeded now evt = λ s. (err (unexpected evt), s)

  unfoldable pub handle_charge_failed : ℕ → ℕ → Event → Action (State S T) (Unit {0})
  handle_charge_failed now later (payment_charge_failed e) = do
    mark_failed parts now e.payment_id e.reason
    p ← get parts e.payment_id
    send (refund_request p later)
  handle_charge_failed now later evt = λ s. (err (unexpected evt), s)

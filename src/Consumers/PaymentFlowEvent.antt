-- ===== src/Consumers/PaymentFlowEvent.antt =====
-- cmd/consumers/handlers/payment_flow_event.go. The handler's bus is the service's, so both
-- publish to the service's world outside; each number is a reading of the clock.
use challenge_senior.Prelude.{ℕ}
use challenge_senior.Kit.Action.{err, Action, modify, ◌>>=◌, ◌>>◌}
use challenge_senior.Events.{Event, payment_charge_requested, wallet_debited, wallet_debit_rejected}
use challenge_senior.Payment.{Payment, Parts, State, mark_pending, mark_rejected, get}
use challenge_senior.Consumers.{unexpected}

abbrev pub first_charge : Payment → ℕ → Event
first_charge p now = payment_charge_requested (record {
  payment_id = p.id;
  user_id = p.user_id;
  amount = p.amount;
  service = p.service;
  attempt = 1;
  at = now;
})

module _ {S T : Type 0} (parts : Parts S T) (publish : Event → T → T) where
  abbrev pub send : Event → Action (State S T) (Unit {0})
  send evt = modify (λ s. record s { outside = publish evt s.outside })

  unfoldable pub handle_wallet_debited : ℕ → ℕ → Event → Action (State S T) (Unit {0})
  handle_wallet_debited now later (wallet_debited e) = do
    mark_pending parts now e.payment_id
    p ← get parts e.payment_id
    send (first_charge p later)
  handle_wallet_debited now later evt = λ s. (err (unexpected evt), s)

  unfoldable pub handle_wallet_debit_rejected : ℕ → Event → Action (State S T) (Unit {0})
  handle_wallet_debit_rejected now (wallet_debit_rejected e) =
      mark_rejected parts now e.payment_id e.reason
  handle_wallet_debit_rejected now evt = λ s. (err (unexpected evt), s)

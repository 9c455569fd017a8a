-- ===== src/Consumers/Transitions.antt =====
-- The handlers that move a payment on (payment_flow_event.go, payment_result_event.go,
-- recovery_event.go in cmd/consumers/handlers), over any repository that keeps its contract.
use challenge_senior.Prelude.{ℕ, ◌+◌, String, ◌≡◌, Option, none, some, ◌==◌, if◌then◌else◌, arith}
use challenge_senior.Kit.Errors.{sentinel, canceled}
use challenge_senior.Kit.Action.{Result, ok, err}
use challenge_senior.Kit.Context.{Context}
use challenge_senior.Events.{
  Event, WalletDebited, PaymentChargeFailed, RecoveryRequested, wallet_debited,
  payment_charge_failed, recovery_requested,
}
use challenge_senior.Payment.{Payment, Parts, State, get}
use challenge_senior.Payment.Laws.{IsStore}
use challenge_senior.Payment.Service.{pending, failed, perform, after, perform_stored}
use challenge_senior.Payment.Marks.{stored-perform}
use challenge_senior.Consumers.{unknown_action}
use challenge_senior.Consumers.PaymentFlowEvent.{handle_wallet_debited, first_charge}
use challenge_senior.Consumers.PaymentResultEvent.{handle_charge_failed, refund_request}
use challenge_senior.Consumers.RecoveryEvent.{
  SleepFunc, default_sleep, charge_again, debit_again, handle_recovery_requested,
}

module _ {S T : Type 0} (parts : Parts S T) (publish : Event → T → T)
    (stored : S → String → Option Payment) (laws : IsStore parts.repository stored) where
  get_stored :
      (i : String) (s : State S T) {p : Payment}
      → stored s.repo i ≡ some p
      → get parts i s ≡ (ok p, s)
  unfolding get
  get_stored i s e = rw (laws.get_lem i s.repo, e)

  pub handle_wallet_debited_lem :
      (now later : ℕ) (e : WalletDebited) (s : State S T) {p : Payment}
      → stored s.repo e.payment_id ≡ some p
      → p.id ≡ e.payment_id
      → let s' = after parts now e.payment_id pending p s in
        handle_wallet_debited parts publish now later (wallet_debited e) s
        ≡ (ok tt, record s' { outside = publish (first_charge p later) s'.outside })
  unfolding handle_wallet_debited perform
  handle_wallet_debited_lem now later e s {p} found own =
      let moved = perform_stored parts stored laws now e.payment_id pending s found in
      let kept = stored-perform parts stored laws now e.payment_id pending s found own in
      rw (
        moved,
        get_stored e.payment_id (after parts now e.payment_id pending p s) (rw moved at kept),
      )

  -- Over any payment repository that is a map from ids to payments, once the charge of a
  -- payment that is stored under its id has failed, the payment is failed, and a refund of its
  -- stored amount to its stored user is published behind the event of the transition.
  pub handle_charge_failed_lem :
      (now later : ℕ) (e : PaymentChargeFailed) (s : State S T) {p : Payment}
      → stored s.repo e.payment_id ≡ some p
      → p.id ≡ e.payment_id
      → let s' = after parts now e.payment_id (failed e.reason) p s in
        handle_charge_failed parts publish now later (payment_charge_failed e) s
        ≡ (ok tt, record s' { outside = publish (refund_request p later) s'.outside })
  unfolding handle_charge_failed perform
  handle_charge_failed_lem now later e s {p} found own =
      let moved = perform_stored parts stored laws now e.payment_id (failed e.reason) s found in
      let kept = stored-perform parts stored laws now e.payment_id (failed e.reason) s found own in
      rw (
        moved,
        get_stored e.payment_id (after parts now e.payment_id (failed e.reason) p s)
            (rw moved at kept),
      )

  -- The answer to a request for recovery of a stored payment: the action with one more attempt,
  -- or an error for an action that is neither.
  abbrev pub recovered : RecoveryRequested → ℕ → Payment → State S T → Result (Unit {0}) × State S T
  recovered e now p s =
      if e.action == "payment.charge"
      then (ok tt, record s { outside = publish (charge_again p (e.attempts + 1) now) s.outside })
      else if e.action == "wallet.debit"
      then (ok tt, record s { outside = publish (debit_again p (e.attempts + 1) now) s.outside })
      else (err (unknown_action e.action), s)

  pub handle_recovery_requested_lem :
      (sleep : SleepFunc) (delay : ℕ) (ctx : Context) (now woken : ℕ) (e : RecoveryRequested)
      (s : State S T) {p : Payment}
      → sleep ctx delay now ≡ (none, woken)
      → stored s.repo e.payment_id ≡ some p
      → handle_recovery_requested parts publish sleep delay ctx now (recovery_requested e) s
        ≡ recovered e woken p s
  unfolding handle_recovery_requested
  handle_recovery_requested_lem sleep delay ctx now woken e s {p} slept found =
      rw (slept, get_stored e.payment_id s found) (ground arith)

  -- On a context that has been cancelled, the recovery fails at once and publishes nothing.
  pub cancelled_recovery :
      (delay : ℕ) (ctx : Context) (now : ℕ) (e : RecoveryRequested) (s : State S T)
      → ctx.failure ≡ some (sentinel canceled)
      → handle_recovery_requested parts publish default_sleep delay ctx now (recovery_requested e) s
        ≡ (err (sentinel canceled), s)
  unfolding handle_recovery_requested default_sleep
  cancelled_recovery delay ctx now e s done = rw done

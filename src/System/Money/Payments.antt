-- ===== src/System/Money/Payments.antt =====
-- The handlers that move a payment on or charge it, as they are subscribed in cmd/web/main.go: what
-- each does to the money of every user.
use mathlib.Core.List.{append-nil}
use challenge_senior.Prelude.{
  ℕ, ◌+◌, String, ◌≡◌, refl, ap, sym, ◌∙◌, inl, inr, some, [], arith, Option-cases,
}
use challenge_senior.Prelude.Int.{ℤ}
use challenge_senior.Kit.Action.{Result, ok, err, panic}
use challenge_senior.Kit.Codec.{Codec}
use challenge_senior.Payment.{Payment}
use challenge_senior.Payment as Pay
use challenge_senior.Payment.Service.{pending, rejected, succeeded, failed, perform, perform_stored}
use challenge_senior.Events.{
  PaymentInitialized, WalletDebited, WalletDebitRejected, PaymentChargeRequested,
  PaymentChargeSucceeded, PaymentChargeFailed, RecoveryRequested, payment_initialized,
  wallet_debited, wallet_debit_rejected, payment_charge_requested, payment_charge_succeeded,
  payment_charge_failed, recovery_requested, partition_key,
}
use challenge_senior.Consumers.PaymentEvent.{State}
use challenge_senior.Consumers.PaymentEvent.Outcome as Outcome
use challenge_senior.Consumers.PaymentEvent.Outcome.{
  Settles, succeeds, fails, recovers, handle_charge_requested_lem,
}
use challenge_senior.Consumers.PaymentFlowEvent.{handle_wallet_debit_rejected, first_charge}
use challenge_senior.Consumers.PaymentResultEvent.{handle_charge_succeeded, refund_request}
use challenge_senior.Consumers.RecoveryEvent.{
  default_sleep, handle_recovery_requested, charge_again,
}
use challenge_senior.Consumers.Transitions.{
  handle_wallet_debited_lem, handle_charge_failed_lem, handle_recovery_requested_lem, recovered,
}
use challenge_senior.Consumers.WalletEvent.{handle_payment_initialized}
use challenge_senior.System.{
  App, Outside, Delivery, Moment, Parts, handle, deliveries, publish, payment_parts, charge_parts,
  minute, gateway_charge_requested, result_charge_succeeded, result_charge_failed,
  recovery_recovery_requested, flow_debit_rejected, flow_wallet_debited, wallet_payment_initialized,
}
use challenge_senior.System.Money.{
  late, PaymentsById, IsDatabase, idle, audits, charging, charged, uncharged, recovering, debiting,
  refunding,
}
use challenge_senior.System.Money.Effects.{Moves, Ends, db_kept, payment_marked}
use challenge_senior.System.Money.Effects as Effects

abbrev pub charge_delivery : PaymentChargeRequested → Delivery
charge_delivery e = record {
  subscriber = gateway_charge_requested;
  evt = payment_charge_requested e;
}

module _ {c : Codec} {D G : Type 0} (parts : Parts c D G) (held : D → String → ℤ)
    (stored : D → PaymentsById) (seen : String → ℤ) where
  -- The three ways in which a charge is settled.
  charge-Moves :
      (e : PaymentChargeRequested) (a a' : App c D G) {p : Payment}
      → stored a.db e.payment_id ≡ some p
      → a'.db ≡ a.db
      → Settles (charge_parts parts) e a.outside a'.outside
      → Moves parts held stored seen (charge_delivery e) a a'
  unfolding deliveries partition_key
  charge-Moves e a a' found same (succeeds gateway now q) =
      db_kept parts held stored seen (charge_delivery e) a a' _ same (ap (λ t. t.pending) q)
        (charged _ found, tt) (λ u. omega arith) (λ i. omega arith)
  charge-Moves e a a' found same (fails x now q) =
      db_kept parts held stored seen (charge_delivery e) a a' _ same (ap (λ t. t.pending) q)
        (uncharged _ found, tt) (λ u. omega arith) (λ i. omega arith)
  charge-Moves e a a' found same (recovers x now early retryable ours q) =
      db_kept parts held stored seen (charge_delivery e) a a' _ same (ap (λ t. t.pending) q)
        (recovering _ found refl, (idle _ audits, tt)) (λ u. omega arith) (λ i. omega arith)

  charge-Ends :
      (e : PaymentChargeRequested) (a : App c D G) {p : Payment}
      (r : Result (Unit {0}) × State G (Outside c))
      → stored a.db e.payment_id ≡ some p
      → Outcome.Ends (charge_parts parts) e a.outside r
      → Ends parts held stored seen
          (charge_delivery e)
          a
          (r.0, record a { gateway = r.1.gateway_state; outside = r.1.outside })
  charge-Ends e a (ok _, s) found h = Effects.handled refl (charge-Moves e a _ found refl h)
  charge-Ends e a (err x, s) found h = absurd h
  charge-Ends e a (panic, s) found h = Effects.fails (λ q. cc) refl (ap (λ t. t.pending) h)

  pub handle_charging :
      (m : Moment) (e : PaymentChargeRequested) (a : App c D G) {p : Payment}
      → stored a.db e.payment_id ≡ some p
      → Ends parts held stored seen
          (charge_delivery e)
          a
          (handle (late seen parts) m gateway_charge_requested (payment_charge_requested e) a)
  unfolding handle
  handle_charging m e a found =
      let (r, _, same, ends) =
        handle_charge_requested_lem (charge_parts parts) m.ctx e
          (record { gateway_state = a.gateway; now = m.now; outside = a.outside }) in
      rw same (charge-Ends e a r found ends)

  pub handle_starting :
      (m : Moment) (e : PaymentInitialized) (a : App c D G) {p : Payment}
      → stored a.db e.payment_id ≡ some p
      → e.user_id ≡ p.user_id
      → e.amount ≡ p.amount
      → Ends parts held stored seen
          (record { subscriber = wallet_payment_initialized; evt = payment_initialized e })
          a
          (handle (late seen parts) m wallet_payment_initialized (payment_initialized e) a)
  unfolding handle handle_payment_initialized deliveries partition_key
  handle_starting m e a found user amount = Effects.handled refl (
      db_kept parts held stored seen _ a _ _ refl refl (debiting _ found user amount, tt)
        (λ u. omega arith) (λ i. omega arith))

  module _ (law : IsDatabase parts.wallets parts.payments held stored) where
    pub handle_rejecting :
        (m : Moment) (e : WalletDebitRejected) (a : App c D G) {p : Payment}
        → stored a.db e.payment_id ≡ some p
        → p.id ≡ e.payment_id
        → Ends parts held stored seen
            (record { subscriber = flow_debit_rejected; evt = wallet_debit_rejected e })
            a
            (handle (late seen parts) m flow_debit_rejected (wallet_debit_rejected e) a)
    unfolding handle handle_wallet_debit_rejected perform partition_key
    handle_rejecting m e a found own =
        rw
          (perform_stored (payment_parts parts m) stored law.store m.now e.payment_id
            (rejected e.reason) (record { repo = a.db; outside = a.outside; metrics = a.metrics })
            found)
          (Effects.handled refl (
            payment_marked parts held stored seen law _ a _ m.now e.payment_id (rejected e.reason)
              [] found own refl (sym (append-nil _)) tt (λ u. omega arith) (λ i. omega arith)
              (λ i. refl)))

    pub handle_charged :
        (m : Moment) (e : PaymentChargeSucceeded) (a : App c D G) {p : Payment}
        → stored a.db e.payment_id ≡ some p
        → p.id ≡ e.payment_id
        → Ends parts held stored seen
            (record { subscriber = result_charge_succeeded; evt = payment_charge_succeeded e })
            a
            (handle (late seen parts) m result_charge_succeeded (payment_charge_succeeded e) a)
    unfolding handle handle_charge_succeeded perform partition_key
    handle_charged m e a found own =
        rw
          (perform_stored (payment_parts parts m) stored law.store m.now e.payment_id
            (succeeded e.gateway_id)
            (record { repo = a.db; outside = a.outside; metrics = a.metrics }) found)
          (Effects.handled refl (
            payment_marked parts held stored seen law _ a _ m.now e.payment_id
              (succeeded e.gateway_id) [] found own refl (sym (append-nil _)) tt (λ u. omega arith)
              (λ i. omega arith) (λ i. refl)))

    pub handle_uncharged :
        (m : Moment) (e : PaymentChargeFailed) (a : App c D G) {p : Payment}
        → stored a.db e.payment_id ≡ some p
        → p.id ≡ e.payment_id
        → Ends parts held stored seen
            (record { subscriber = result_charge_failed; evt = payment_charge_failed e })
            a
            (handle (late seen parts) m result_charge_failed (payment_charge_failed e) a)
    unfolding handle deliveries partition_key
    handle_uncharged m e a {p} found own =
        rw
          (handle_charge_failed_lem (payment_parts parts m) publish stored law.store m.now m.later e
            (record { repo = a.db; outside = a.outside; metrics = a.metrics }) found own)
          (Effects.handled refl (
            payment_marked parts held stored seen law _ a _ m.now e.payment_id (failed e.reason)
              (deliveries (refund_request p m.later)) found own refl refl
              (refunding _ (ap (stored a.db) own ∙ found) refl refl, tt) (λ u. rw own (omega arith))
              (λ i. omega arith) (λ i. refl)))

    pub handle_taken :
        (m : Moment) (e : WalletDebited) (a : App c D G) {p : Payment}
        → stored a.db e.payment_id ≡ some p
        → p.id ≡ e.payment_id
        → Ends parts held stored seen
            (record { subscriber = flow_wallet_debited; evt = wallet_debited e })
            a
            (handle (late seen parts) m flow_wallet_debited (wallet_debited e) a)
    unfolding handle deliveries partition_key
    handle_taken m e a {p} found own =
        rw
          (handle_wallet_debited_lem (payment_parts parts m) publish stored law.store m.now m.later
            e (record { repo = a.db; outside = a.outside; metrics = a.metrics }) found own)
          (Effects.handled refl (
            payment_marked parts held stored seen law _ a _ m.now e.payment_id pending
              (deliveries (first_charge p m.later)) found own refl refl
              (charging _ (ap (stored a.db) own ∙ found), tt) (λ u. rw own (omega arith))
              (λ i. rw own (ground arith)) (λ i. refl)))

    recovered_charge :
        (m : Moment) (now : ℕ) (e : RecoveryRequested) (p : Payment) (s : Pay.State D (Outside c))
        → e.action ≡ "payment.charge"
        → recovered (payment_parts parts m) publish stored law.store e now p s
          ≡ (ok tt, record s { outside = publish (charge_again p (e.attempts + 1) now) s.outside })
    recovered_charge m now e p s action = rw action

    pub handle_recovering :
        (m : Moment) (e : RecoveryRequested) (a : App c D G) {p : Payment}
        → stored a.db e.payment_id ≡ some p
        → p.id ≡ e.payment_id
        → e.action ≡ "payment.charge"
        → Ends parts held stored seen
            (record { subscriber = recovery_recovery_requested; evt = recovery_requested e })
            a
            (handle (late seen parts) m recovery_recovery_requested (recovery_requested e) a)
    unfolding handle deliveries partition_key
    handle_recovering m e a {p} found own action =
        elim (Option-cases (default_sleep m.ctx minute m.now).0) [
          | inr (x, cut) ↦
              unfold handle_recovery_requested in rw cut (Effects.fails (λ q. cc) refl refl)
          | inl slept ↦
              let woken = (default_sleep m.ctx minute m.now).1 in
              let s : Pay.State D (Outside c) = record {
                repo = a.db;
                outside = a.outside;
                metrics = a.metrics;
              } in
              rw
                (handle_recovery_requested_lem (payment_parts parts m) publish stored law.store
                    default_sleep minute m.ctx m.now woken e s (ap (λ o. (o, woken)) slept) found
                  ∙ recovered_charge m woken e p s action)
                (Effects.handled refl (
                  db_kept parts held stored seen _ a _ _ refl refl
                    (charging _ (ap (stored a.db) own ∙ found), tt) (λ u. rw own (omega arith))
                    (λ i. rw own (omega arith))))
        ]

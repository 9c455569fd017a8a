-- ===== src/System/Audited.antt =====
-- What the audit of cmd/web/main.go says of the events that it is given
-- (cmd/consumers/handlers/audit_event.go).
use challenge_senior.Prelude.{
  Bool, true, false, ◌||◌, ◌≡◌, refl, none, some, List, [], ◌∷◌, if◌then◌else◌, ◌==◌,
}
use challenge_senior.Prelude.GoMap.{lookup}
use challenge_senior.Kit.Logger.{text}
use challenge_senior.Events.{
  Event, name, partition_key, payment_initialized, payment_created, payment_rejected,
  wallet_debited, wallet_credited, wallet_debit_rejected, wallet_debit_requested,
  wallet_refund_requested, payment_pending, payment_charge_requested, payment_charge_succeeded,
  payment_charge_failed, recovery_requested, payment_submitted, payment_succeeded, payment_failed,
  wallet_refunded, payment_dlq,
}
use challenge_senior.Consumers.AuditEvent.{audit_fields, event_fields}
use challenge_senior.System.{Subscriber, audit_any, subscriptions, subscribed}

abbrev pub has_audit : List Subscriber → Bool
has_audit [] = false
has_audit (audit_any ∷ hs) = true
has_audit (_ ∷ hs) = has_audit hs

-- The events that end a payment.
abbrev pub is_final : Event → Bool
is_final evt =
    name evt == "payment.rejected"
    || name evt == "payment.completed"
    || name evt == "payment.failed"

-- An event that `main` hands to the audit is recorded with the id of its payment, unless it is
-- the event that ends the payment: payment.rejected, payment.completed and payment.failed are
-- recorded without one.
pub audited_payment :
    (evt : Event)
    → has_audit (subscribed (name evt) subscriptions) ≡ true
    → lookup "payment_id" (audit_fields evt)
      ≡ (if is_final evt then none else some (text (partition_key evt)))
unfolding name partition_key audit_fields event_fields lookup
audited_payment (payment_initialized e) h = refl
audited_payment (payment_created e) h = refl
audited_payment (payment_rejected e) h = refl
audited_payment (wallet_debited e) h = refl
audited_payment (payment_pending e) h = refl
audited_payment (recovery_requested e) h = refl
audited_payment (payment_succeeded e) h = refl
audited_payment (payment_failed e) h = refl
audited_payment (wallet_refunded e) h = refl
audited_payment (wallet_credited e) h = cc
audited_payment (wallet_debit_rejected e) h = cc
audited_payment (wallet_debit_requested e) h = cc
audited_payment (wallet_refund_requested e) h = cc
audited_payment (payment_charge_requested e) h = cc
audited_payment (payment_charge_succeeded e) h = cc
audited_payment (payment_charge_failed e) h = cc
audited_payment (payment_submitted e) h = cc
audited_payment (payment_dlq e) h = cc

-- ===== src/Consumers/AuditEvent.antt =====
-- cmd/consumers/handlers/audit_event.go, over any auditor: what `Record` does to the world.
use challenge_senior.Prelude.{String, Option, none, some, [], ◌∷◌}
use challenge_senior.Prelude.GoMap.{GoMap}
use challenge_senior.Kit.Action.{ok, Action}
use challenge_senior.Kit.Logger.{Field, text, number, count}
use challenge_senior.Events.{
  Event, name, payment_created, payment_initialized, payment_pending, payment_charge_requested,
  payment_charge_succeeded, payment_charge_failed, recovery_requested, wallet_debit_requested,
  wallet_debited, wallet_refunded,
}
use challenge_senior.Consumers.{go_type}

abbrev pub whose : String → String → GoMap Field → GoMap Field
whose payment user fs = ("payment_id", text payment) ∷ ("user_id", text user) ∷ fs

-- The fields of the switch.
unfoldable pub event_fields : Event → GoMap Field
event_fields (payment_created e) = whose e.payment_id e.user_id (("amount", number e.amount) ∷ [])
event_fields (payment_initialized e) =
    whose e.payment_id e.user_id (("amount", number e.amount) ∷ ("service", text e.service) ∷ [])
event_fields (payment_pending e) = whose e.payment_id e.user_id []
event_fields (payment_charge_requested e) =
    whose e.payment_id e.user_id (("attempt", count e.attempt) ∷ [])
event_fields (payment_charge_succeeded e) =
    whose e.payment_id e.user_id (("gateway_id", text e.gateway_id) ∷ [])
event_fields (payment_charge_failed e) =
    whose e.payment_id e.user_id (("reason", text e.reason) ∷ [])
event_fields (recovery_requested e) = whose e.payment_id e.user_id (
    ("action", text e.action)
    ∷ ("reason", text e.reason)
    ∷ ("error_code", text e.error_code)
    ∷ ("attempts", count e.attempts)
    ∷ [])
event_fields (wallet_debit_requested e) =
    whose e.payment_id e.user_id (("amount", number e.amount) ∷ ("attempt", count e.attempt) ∷ [])
event_fields (wallet_debited e) = whose e.payment_id e.user_id (("amount", number e.amount) ∷ [])
event_fields (wallet_refunded e) = whose e.payment_id e.user_id (("amount", number e.amount) ∷ [])
event_fields _ = []

unfoldable pub audit_fields : Event → GoMap Field
unfolding event_fields
audit_fields evt = ("type", text (go_type evt)) ∷ event_fields evt

module _ {T : Type 0} (auditor : Option (String → GoMap Field → T → T)) where
  -- `HandleAny`
  unfoldable pub handle_any : Event → Action T (Unit {0})
  unfolding audit_fields
  handle_any evt t = elim auditor [
    | none ↦ (ok tt, t)
    | some keep ↦ (ok tt, keep (name evt) (audit_fields evt) t)
  ]

-- ===== src/Consumers.antt =====
-- cmd/consumers/handlers: the handlers that the bus calls, one module to a file, and their errors
-- (contracts.go). Logging is not modelled.
pub mod PaymentEvent
pub mod WalletEvent
pub mod PaymentFlowEvent
pub mod PaymentResultEvent
pub mod RecoveryEvent
pub mod MetricsEvent
pub mod AuditEvent
pub mod NotificationEvent
pub mod Transitions
pub mod Counting
pub mod Compensation
pub mod RefundRetries
pub mod DebitRetries
use Prim.Native.String.{◌++◌ as text_append}
use challenge_senior.Prelude.{String}
use challenge_senior.Kit.Errors.{
  Error, sentinel, wrap, unexpected_event_type, unknown_recovery_action,
}
use challenge_senior.Events.{
  Event, payment_initialized, payment_created, payment_rejected, wallet_debited, wallet_credited,
  wallet_debit_rejected, wallet_debit_requested, wallet_refund_requested, payment_pending,
  payment_charge_requested, payment_charge_succeeded, payment_charge_failed, recovery_requested,
  payment_submitted, payment_succeeded, payment_failed, wallet_refunded, payment_dlq,
}

-- `fmt.Sprintf("%T", evt)`
abbrev pub go_type : Event → String
go_type (payment_initialized e) = "events.PaymentInitialized"
go_type (payment_created e) = "events.PaymentCreated"
go_type (payment_rejected e) = "events.PaymentRejected"
go_type (wallet_debited e) = "events.WalletDebited"
go_type (wallet_credited e) = "events.WalletCredited"
go_type (wallet_debit_rejected e) = "events.WalletDebitRejected"
go_type (wallet_debit_requested e) = "events.WalletDebitRequested"
go_type (wallet_refund_requested e) = "events.WalletRefundRequested"
go_type (payment_pending e) = "events.PaymentPending"
go_type (payment_charge_requested e) = "events.PaymentChargeRequested"
go_type (payment_charge_succeeded e) = "events.PaymentChargeSucceeded"
go_type (payment_charge_failed e) = "events.PaymentChargeFailed"
go_type (recovery_requested e) = "events.RecoveryRequested"
go_type (payment_submitted e) = "events.PaymentSubmitted"
go_type (payment_succeeded e) = "events.PaymentSucceeded"
go_type (payment_failed e) = "events.PaymentFailed"
go_type (wallet_refunded e) = "events.WalletRefunded"
go_type (payment_dlq e) = "events.PaymentDLQ"

-- `fmt.Errorf("%w: unexpected event type: %T", ErrUnexpectedEventType, evt)`
unfoldable pub unexpected : Event → Error
unexpected evt =
    wrap (sentinel unexpected_event_type) (text_append ": unexpected event type: " (go_type evt))

-- `fmt.Errorf("%w: unknown recovery action: %s", ErrUnknownRecoveryAction, action)`
unfoldable pub unknown_action : String → Error
unknown_action action =
    wrap (sentinel unknown_recovery_action) (text_append ": unknown recovery action: " action)

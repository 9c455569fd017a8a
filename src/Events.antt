-- ===== src/Events.antt =====
-- internal/events/events.go: the events, their names and their partition keys. A time is a number
-- of nanoseconds; an attempt (`int`) is a number, since it starts at 1 and only grows.
use challenge_senior.Prelude.{ℕ, String, Bool}
use challenge_senior.Prelude.Int.{ℤ}

pub record PaymentInitialized : Type 0 where
  pub payment_id : String
  pub user_id : String
  pub amount : ℤ
  pub service : String
  pub at : ℕ

pub record PaymentCreated : Type 0 where
  pub payment_id : String
  pub user_id : String
  pub amount : ℤ
  pub service : String
  pub at : ℕ

pub record PaymentRejected : Type 0 where
  pub payment_id : String
  pub user_id : String
  pub reason : String
  pub at : ℕ

pub record WalletDebited : Type 0 where
  pub payment_id : String
  pub user_id : String
  pub amount : ℤ
  pub at : ℕ

pub record WalletCredited : Type 0 where
  pub user_id : String
  pub amount : ℤ
  pub at : ℕ

pub record WalletDebitRejected : Type 0 where
  pub payment_id : String
  pub user_id : String
  pub reason : String
  pub at : ℕ

pub record WalletDebitRequested : Type 0 where
  pub payment_id : String
  pub user_id : String
  pub amount : ℤ
  pub attempt : ℕ
  pub at : ℕ

pub record WalletRefundRequested : Type 0 where
  pub payment_id : String
  pub user_id : String
  pub amount : ℤ
  pub at : ℕ

pub record PaymentPending : Type 0 where
  pub payment_id : String
  pub user_id : String
  pub at : ℕ

pub record PaymentChargeRequested : Type 0 where
  pub payment_id : String
  pub user_id : String
  pub amount : ℤ
  pub service : String
  pub attempt : ℕ
  pub at : ℕ

pub record PaymentChargeSucceeded : Type 0 where
  pub payment_id : String
  pub user_id : String
  pub gateway_id : String
  pub at : ℕ

pub record PaymentChargeFailed : Type 0 where
  pub payment_id : String
  pub user_id : String
  pub reason : String
  pub retryable : Bool
  pub error_code : String
  pub at : ℕ

pub record RecoveryRequested : Type 0 where
  pub payment_id : String
  pub user_id : String
  pub action : String
  pub reason : String
  pub error_code : String
  pub attempts : ℕ
  pub at : ℕ

pub record PaymentSubmitted : Type 0 where
  pub payment_id : String
  pub user_id : String
  pub amount : ℤ
  pub service : String
  pub attempt : ℕ
  pub at : ℕ

pub record PaymentSucceeded : Type 0 where
  pub payment_id : String
  pub user_id : String
  pub gateway_id : String
  pub at : ℕ

pub record PaymentFailed : Type 0 where
  pub payment_id : String
  pub user_id : String
  pub reason : String
  pub at : ℕ

pub record WalletRefunded : Type 0 where
  pub payment_id : String
  pub user_id : String
  pub amount : ℤ
  pub at : ℕ

pub record PaymentDlq : Type 0 where
  pub payment_id : String
  pub user_id : String
  pub reason : String
  pub at : ℕ

-- `broker.Event`: any of them.
pub data Event : Type 0 where
  payment_initialized : PaymentInitialized → Event
  payment_created : PaymentCreated → Event
  payment_rejected : PaymentRejected → Event
  wallet_debited : WalletDebited → Event
  wallet_credited : WalletCredited → Event
  wallet_debit_rejected : WalletDebitRejected → Event
  wallet_debit_requested : WalletDebitRequested → Event
  wallet_refund_requested : WalletRefundRequested → Event
  payment_pending : PaymentPending → Event
  payment_charge_requested : PaymentChargeRequested → Event
  payment_charge_succeeded : PaymentChargeSucceeded → Event
  payment_charge_failed : PaymentChargeFailed → Event
  recovery_requested : RecoveryRequested → Event
  payment_submitted : PaymentSubmitted → Event
  payment_succeeded : PaymentSucceeded → Event
  payment_failed : PaymentFailed → Event
  wallet_refunded : WalletRefunded → Event
  payment_dlq : PaymentDlq → Event

-- `evt.Name()`
unfoldable pub name : Event → String
name (payment_initialized e) = "payment.initialized"
name (payment_created e) = "payment.created"
name (payment_rejected e) = "payment.rejected"
name (wallet_debited e) = "wallet.debited"
name (wallet_credited e) = "wallet.credited"
name (wallet_debit_rejected e) = "wallet.debit_rejected"
name (wallet_debit_requested e) = "wallet.debit_requested"
name (wallet_refund_requested e) = "wallet.refund_requested"
name (payment_pending e) = "payment.pending"
name (payment_charge_requested e) = "payment.charge_requested"
name (payment_charge_succeeded e) = "payment.charge_succeeded"
name (payment_charge_failed e) = "payment.charge_failed"
name (recovery_requested e) = "recovery.requested"
name (payment_submitted e) = "payment.submitted"
name (payment_succeeded e) = "payment.completed"
name (payment_failed e) = "payment.failed"
name (wallet_refunded e) = "wallet.refunded"
name (payment_dlq e) = "payment.dlq"

-- `evt.PartitionKey()`
unfoldable pub partition_key : Event → String
partition_key (payment_initialized e) = e.payment_id
partition_key (payment_created e) = e.payment_id
partition_key (payment_rejected e) = e.payment_id
partition_key (wallet_debited e) = e.payment_id
partition_key (wallet_credited e) = e.user_id
partition_key (wallet_debit_rejected e) = e.payment_id
partition_key (wallet_debit_requested e) = e.payment_id
partition_key (wallet_refund_requested e) = e.payment_id
partition_key (payment_pending e) = e.payment_id
partition_key (payment_charge_requested e) = e.payment_id
partition_key (payment_charge_succeeded e) = e.payment_id
partition_key (payment_charge_failed e) = e.payment_id
partition_key (recovery_requested e) = e.payment_id
partition_key (payment_submitted e) = e.payment_id
partition_key (payment_succeeded e) = e.payment_id
partition_key (payment_failed e) = e.payment_id
partition_key (wallet_refunded e) = e.payment_id
partition_key (payment_dlq e) = e.payment_id

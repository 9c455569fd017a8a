-- ===== src/Payment.antt =====
-- internal/payment: the payment, the request's validator, the repository interface, the events
-- and the service. The repositories are in Memory and Sql; Laws states what the service needs.
pub mod Laws
pub mod Service
pub mod Marks
pub mod Memory
pub mod Sql
use challenge_senior.Prelude.{ℕ, String, ◌||◌, Option, none, some, if◌then◌else◌, ◌==◌}
use challenge_senior.Prelude.Int.{ℤ, pos, leb_ℤ}
use challenge_senior.Kit.Errors.{Error, sentinel, invalid_payment}
use challenge_senior.Kit.Action.{Action, pure, check, join_invalid, modify, ignore, on, ◌>>=◌, ◌>>◌}
use challenge_senior.Kit.Observability.{Metrics, bump, payments_succeeded_add, payments_failed_add}
use challenge_senior.Events.{
  Event, PaymentPending, PaymentRejected, PaymentSucceeded, PaymentFailed, payment_pending,
  payment_rejected, payment_succeeded, payment_failed,
}

-- `type Status string`
abbrev pub Status : Type 0
Status = String

abbrev pub status_initialized : Status
status_initialized = "initialized"

abbrev pub status_pending : Status
status_pending = "pending"

abbrev pub status_rejected : Status
status_rejected = "rejected"

abbrev pub status_succeeded : Status
status_succeeded = "succeeded"

abbrev pub status_failed : Status
status_failed = "failed"

pub record Payment : Type 0 where
  pub id : String
  pub user_id : String
  pub amount : ℤ
  pub service : String
  pub status : Status
  pub reason : String
  pub gateway_id : String

pub record CreateRequest : Type 0 where
  pub payment_id : String
  pub user_id : String
  pub amount : ℤ
  pub service : String

unfoldable pub to_create_request : String → String → ℤ → String → CreateRequest
to_create_request payment user amount service = record {
  payment_id = payment;
  user_id = user;
  amount = amount;
  service = service;
}

unfoldable pub validate_create_request : CreateRequest → Option Error
validate_create_request r =
    if r.payment_id == "" || r.user_id == "" || leb_ℤ r.amount (pos 0) || r.service == ""
    then some (sentinel invalid_payment)
    else none

-- The transformers to events; the first argument is what the clock reads.
unfoldable pub to_payment_pending_event : ℕ → String → String → PaymentPending
to_payment_pending_event now payment user = record {
  payment_id = payment;
  user_id = user;
  at = now;
}

unfoldable pub to_payment_rejected_event : ℕ → String → String → String → PaymentRejected
to_payment_rejected_event now payment user reason = record {
  payment_id = payment;
  user_id = user;
  reason = reason;
  at = now;
}

unfoldable pub to_payment_succeeded_event : ℕ → String → String → String → PaymentSucceeded
to_payment_succeeded_event now payment user gateway = record {
  payment_id = payment;
  user_id = user;
  gateway_id = gateway;
  at = now;
}

unfoldable pub to_payment_failed_event : ℕ → String → String → String → PaymentFailed
to_payment_failed_event now payment user reason = record {
  payment_id = payment;
  user_id = user;
  reason = reason;
  at = now;
}

-- The `RepositoryContract` interface, on the repository's own state.
pub record Repository (S : Type 0) : Type 0 where
  pub save : Payment → Action S (Unit {0})
  pub get : String → Action S Payment

-- What the service is given: a repository, and a store and a bus unless they are nil. Their
-- results are dropped by the service, so here each is what it does to the world outside, `T`.
pub record Parts (S T : Type 0) : Type 0 where
  pub repository : Repository S
  pub append : Option (String → Event → T → T)
  pub publish : Option (Event → T → T)

pub record State (S T : Type 0) : Type 0 where
  pub repo : S
  pub outside : T
  pub metrics : Option Metrics

abbrev pub append_to : {T : Type 0} → Option (String → Event → T → T) → String → Event → T → T
append_to none payment evt t = t
append_to (some f) payment evt t = f payment evt t

abbrev pub publish_to : {T : Type 0} → Option (Event → T → T) → Event → T → T
publish_to none evt t = t
publish_to (some f) evt t = f evt t

abbrev pub add_metric : {S T : Type 0} → (Metrics → Metrics) → Action (State S T) (Unit {0})
add_metric f = modify (λ s. record s { metrics = bump f s.metrics })

abbrev pub on_repo : {S T A : Type 0} → Action S A → Action (State S T) A
on_repo = on (λ s. s.repo) (λ s r. record s { repo = r })

-- `if s.store != nil { … }` and then `if s.bus != nil { … }`
abbrev pub announce : {S T : Type 0} → Parts S T → String → Event → Action (State S T) (Unit {0})
announce parts payment evt = modify (λ s. record s {
  outside = publish_to parts.publish evt (append_to parts.append payment evt s.outside);
})

module _ {S T : Type 0} (parts : Parts S T) where
  unfoldable pub initialize : CreateRequest → Action (State S T) Payment
  unfolding validate_create_request
  initialize req = do
    check (join_invalid (validate_create_request req))
    let p : Payment = record {
      id = req.payment_id;
      user_id = req.user_id;
      amount = req.amount;
      service = req.service;
      status = status_initialized;
      reason = "";
      gateway_id = "";
    }
    on_repo (parts.repository.save p)
    pure p

  unfoldable pub mark_pending : ℕ → String → Action (State S T) (Unit {0})
  unfolding to_payment_pending_event
  mark_pending now payment = do
    p ← on_repo (parts.repository.get payment)
    let p' = record p { status = status_pending }
    ignore (on_repo (parts.repository.save p'))
    announce parts payment (payment_pending (to_payment_pending_event now payment p'.user_id))

  unfoldable pub mark_rejected : ℕ → String → String → Action (State S T) (Unit {0})
  unfolding to_payment_rejected_event
  mark_rejected now payment reason = do
    p ← on_repo (parts.repository.get payment)
    let p' = record p { status = status_rejected; reason = reason }
    ignore (on_repo (parts.repository.save p'))
    announce parts payment
        (payment_rejected (to_payment_rejected_event now payment p'.user_id reason))

  unfoldable pub mark_succeeded : ℕ → String → String → Action (State S T) (Unit {0})
  unfolding to_payment_succeeded_event
  mark_succeeded now payment gateway = do
    p ← on_repo (parts.repository.get payment)
    let p' = record p { status = status_succeeded; gateway_id = gateway }
    ignore (on_repo (parts.repository.save p'))
    announce parts payment
        (payment_succeeded (to_payment_succeeded_event now payment p'.user_id gateway))
    add_metric (payments_succeeded_add (pos 1))

  unfoldable pub mark_failed : ℕ → String → String → Action (State S T) (Unit {0})
  unfolding to_payment_failed_event
  mark_failed now payment reason = do
    p ← on_repo (parts.repository.get payment)
    let p' = record p { status = status_failed; reason = reason }
    ignore (on_repo (parts.repository.save p'))
    announce parts payment (payment_failed (to_payment_failed_event now payment p'.user_id reason))
    add_metric (payments_failed_add (pos 1))

  unfoldable pub get : String → Action (State S T) Payment
  get payment = on_repo (parts.repository.get payment)

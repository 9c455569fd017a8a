-- ===== src/System/Money/Turns.antt =====
-- Whose turn it is with a payment (the subscriptions of cmd/web/main.go): the deliveries that move it
-- on, and whether its status is a last one.
use challenge_senior.Prelude.{
  ℕ, ◌+◌, String, Bool, true, false, ◌||◌, ◌≡◌, refl, Option, none, some, List, [], ◌∷◌, ◌++◌,
  if◌then◌else◌, ◌==◌, arith,
}
use challenge_senior.Payment.{Payment, status_rejected, status_succeeded, status_failed}
use challenge_senior.Payment.Service.{Mark, pending, rejected, succeeded, failed, marked}
use challenge_senior.Events.{partition_key}
use challenge_senior.System.{
  Subscriber, Delivery, gateway_charge_requested, result_charge_succeeded, result_charge_failed,
  recovery_recovery_requested, wallet_payment_initialized, wallet_debit_requested,
  flow_debit_rejected, flow_wallet_debited,
}

-- The handlers that move a payment on.
abbrev pub moves_on : Subscriber → Bool
moves_on gateway_charge_requested = true
moves_on result_charge_succeeded = true
moves_on result_charge_failed = true
moves_on recovery_recovery_requested = true
moves_on wallet_payment_initialized = true
moves_on wallet_debit_requested = true
moves_on flow_debit_rejected = true
moves_on flow_wallet_debited = true
moves_on _ = false

-- Whether a delivery moves the payment `i` on, and how many do.
abbrev pub turn : String → Delivery → ℕ
turn i d = if moves_on d.subscriber then if partition_key d.evt == i then 1 else 0 else 0

abbrev pub turns : String → List Delivery → ℕ
turns i [] = 0
turns i (d ∷ ds) = turn i d + turns i ds

-- Whether a payment is rejected, succeeded or failed.
abbrev pub has_ended : Payment → Bool
has_ended p =
    p.status == status_rejected || p.status == status_succeeded || p.status == status_failed

abbrev pub over : Option Payment → ℕ
over none = 0
over (some p) = if has_ended p then 1 else 0

-- What a transition is for the count.
abbrev pub ends : Mark → ℕ
ends pending = 0
ends _ = 1

pub over-marked : (m : Mark) (p : Payment) → over (some (marked m p)) ≡ ends m
over-marked pending p = refl
over-marked (rejected reason) p = refl
over-marked (succeeded gateway) p = refl
over-marked (failed reason) p = refl

pub turns-append :
    (i : String) (ds es : List Delivery) → turns i (ds ++ es) ≡ turns i ds + turns i es
turns-append i [] es = omega arith
turns-append i (d ∷ ds) es = omega (arith, turns-append i ds es)

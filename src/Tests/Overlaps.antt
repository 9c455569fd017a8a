-- ===== src/Tests/Overlaps.antt =====
-- The whole program, where a credit has read ann's 100 before a debit takes 40 of them, and writes
-- after it: the debit is undone, and ann has 110 and a payment of 40.
use challenge_senior.Prelude.{◌+◌, ◌≡◌, refl, List, [], ◌∷◌, ◌++◌, arith}
use challenge_senior.Prelude.Int.{pos, pos_part, neg_part, ◌-ℤ◌}
use challenge_senior.Prelude.Int64.{sub64, wrap64}
use challenge_senior.Prelude.GoMap.{lookup, index, insert}
use challenge_senior.Kit.Errors.{is_internal, message}
use challenge_senior.Wallet.{debit}
use challenge_senior.Wallet.Memory as WalletMemory
use challenge_senior.Payment.Memory as PaymentMemory
use challenge_senior.Consumers.WalletEvent as Purse
use challenge_senior.Web.Payment as WebPayment
use challenge_senior.Payment.{initialize, to_create_request}
use challenge_senior.Web.Payment.{CreatePaymentReq, created_event, initialized_event}
use challenge_senior.Web.Wallet.{CreditReq}
use challenge_senior.Events.{Event, payment_initialized}
use challenge_senior.Events as Events
use challenge_senior.System.{
  Delivery, deliveries, deliver, post_payment, audit_any, projector_apply,
  wallet_payment_initialized, wallet_debit_requested,
}
use challenge_senior.System.Money.Requests.{asked}
use challenge_senior.System.Money.Runs.{
  Run, Steps, done, next, creates, delivers, credits, delivered, credited,
}
use challenge_senior.System.Money.Conservation.{money_is_conserved}
use challenge_senior.System.Money.{in_flight}
use challenge_senior.Tests.{json}
use challenge_senior.Tests.Systems.{
  Memory, program, held_in_pair, stored_in_pair, memory-IsDatabase, begun, begun-IsStart, moment,
  at_once, wanted,
}

abbrev asked_for : Run json Memory (Unit {0})
asked_for = record begun { app = (post_payment program moment at_once wanted begun.app).1 }

abbrev created_ones : List Delivery
created_ones = deliveries (created_event (asked wanted) 4)

abbrev initialized_ones : List Delivery
initialized_ones =
    record { subscriber = audit_any; evt = initialized_event (asked wanted) 4 }
    ∷ record { subscriber = projector_apply; evt = initialized_event (asked wanted) 4 }
    ∷ []

abbrev first : Delivery
first = record { subscriber = wallet_payment_initialized; evt = initialized_event (asked wanted) 4 }

abbrev second : Delivery
second = record {
  subscriber = wallet_debit_requested;
  evt =
      Events.wallet_debit_requested
        (record { payment_id = "p1"; user_id = "ann"; amount = pos 40; attempt = 1; at = 5 });
}

abbrev begins : Run json Memory (Unit {0})
begins =
    delivered program held_in_pair stored_in_pair moment (λ u. pos 0) created_ones first
      initialized_ones asked_for

abbrev taken : Run json Memory (Unit {0})
taken =
    delivered program held_in_pair stored_in_pair moment (λ u. pos 0)
      (created_ones ++ initialized_ones) second [] begins

abbrev gift : CreditReq
gift = record { user_id = "ann"; amount = pos 10 }

abbrev overwritten : Run json Memory (Unit {0})
overwritten = credited program held_in_pair stored_in_pair moment (λ u. pos 100) gift taken

overlap : Steps program held_in_pair stored_in_pair begun overwritten
unfolding deliveries deliver post_payment lookup index created_event WebPayment.create_decoded
    initialize to_create_request PaymentMemory.save Purse.handle_payment_initialized
    Purse.handle_wallet_debit_requested debit WalletMemory.debit_if_sufficient_funds is_internal
    message
overlap =
    next
      (next
        (next (next done (creates moment at_once wanted refl (ground arith))) (
          delivers moment (λ u. pos 0) created_ones first initialized_ones refl (λ u. refl)
            (λ u. ground arith)))
        (delivers moment (λ u. pos 0) (created_ones ++ initialized_ones) second [] refl (λ u. refl)
          (λ u. ground arith)))
      (credits moment (λ u. pos 100) gift (λ u. refl) (λ u. ground arith))

-- What the credit revived.
revives : overwritten.revived "ann" ≡ 40
unfolding deliveries deliver post_payment lookup index created_event WebPayment.create_decoded
    initialize to_create_request PaymentMemory.save Purse.handle_payment_initialized
    Purse.handle_wallet_debit_requested debit WalletMemory.debit_if_sufficient_funds is_internal
    message insert sub64 wrap64 ◌-ℤ◌
revives = refl

money_is_conserved_example :
    (neg_part (held_in_pair overwritten.app.db "ann") ≡ 0)
    × (pos_part (held_in_pair overwritten.app.db "ann")
          + in_flight (stored_in_pair overwritten.app.db) "ann" overwritten.app.outside.pending
          + overwritten.spent "ann"
          + overwritten.undone "ann"
        ≡ overwritten.deposited "ann" + overwritten.revived "ann")
money_is_conserved_example =
    money_is_conserved program held_in_pair stored_in_pair memory-IsDatabase "ann" begun-IsStart
      overlap
